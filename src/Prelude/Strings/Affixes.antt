-- ===== src/Prelude/Strings/Affixes.antt =====
-- Laws of the tests of a text's beginning and end.
use auto_sentinel.Prelude.Tests.{nat_eq, Bool-cases}
use auto_sentinel.Prelude.Strings.{◌+++◌, ◌==◌, eq_iff, eq_refl, starts, ends, contains, size, drop}
use Prim.Native.Nat.{ℕ}
use Prim.Native.Char.{Char, code}
use Prim.Native.String.{String}
use text.Mathlib.TextEquality.{Char-path}
use mathlib.Core.Path.{◌≡◌, refl, ap, sym, ◌∙◌}
use mathlib.Core.Logic.{inl, inr}
use mathlib.Core.Bool.{Bool, true, false, ◌||◌, ◌&&◌}
use native.Mathlib.Omega.{arith}

pub and-split : (a b : Bool) → (a && b) ≡ true → (a ≡ true) × (b ≡ true)
and-split a b h = ground arith

code-path : (c d : Char) → nat_eq (code c) (code d) ≡ true → c ≡ d
code-path c d h = Char-path c d (ground arith)

-- What follows the beginning that the test found.
pub starts-split : (p s : String) → starts p s ≡ true → s ≡ p +++ drop (size p) s
unfolding starts ◌+++◌
starts-split String.[] s h = refl
starts-split (String.◌∷◌ c p) String.[] h = absurd (ground arith)
starts-split (String.◌∷◌ c p) (String.◌∷◌ d s) h =
    let (same, rest) = and-split (nat_eq (code c) (code d)) (starts p s) h in
    let e : c ≡ d = code-path c d same in
    let f : s ≡ p +++ drop (size p) s = starts-split p s rest in
    ap (λ x. String.◌∷◌ x s) (sym e) ∙ ap (λ x. String.◌∷◌ c x) f

pub ends-append : (p r : String) → ends p (r +++ p) ≡ true
unfolding ends ◌+++◌
ends-append String.[] String.[] = refl
ends-append (String.◌∷◌ c p) String.[] = rw (eq_refl (String.◌∷◌ c p)) refl
ends-append p (String.◌∷◌ c r) = ground (arith, ends-append p r)

-- What stands before the end that the test found.
pub ends-split : (p s : String) → ends p s ≡ true → (r : String) × (s ≡ r +++ p)
unfolding ends ◌+++◌
ends-split p String.[] h = ("", sym ((eq_iff p "").0 h))
ends-split p (String.◌∷◌ c s) h = elim (Bool-cases (p == String.◌∷◌ c s)) [
  | inl whole ↦ ("", sym ((eq_iff p (String.◌∷◌ c s)).0 whole))
  | inr part ↦
      let (r, e) = ends-split p s (rw part at h) in (String.◌∷◌ c r, ap (λ x. String.◌∷◌ c x) e)
]

-- A text of one character stands in a sum where it stands in a part.
pub contains_slash-append :
    (s t : String) → contains "/" (s +++ t) ≡ (contains "/" s || contains "/" t)
unfolding contains starts ◌+++◌
contains_slash-append String.[] t = refl
contains_slash-append (String.◌∷◌ c s) t = ground (arith, contains_slash-append s t)

first : String → ℕ
first String.[] = 0
first (String.◌∷◌ c s) = code c

other_first :
    (c d : Char) (p s : String)
    → nat_eq (code c) (code d) ≡ false
    → (String.◌∷◌ c p == String.◌∷◌ d s) ≡ false
unfolding first
other_first c d p s h =
    let e : (String.◌∷◌ c p == String.◌∷◌ d s) ≡ true → code c ≡ code d =
      λ k. ap first ((eq_iff (String.◌∷◌ c p) (String.◌∷◌ d s)).0 k) in
    elim (Bool-cases (String.◌∷◌ c p == String.◌∷◌ d s)) [
      | inl same ↦ absurd (ground (arith, e same))
      | inr other ↦ other
    ]

-- The end of a sum is the end of its second part, where the first part lacks the end's first character.
pub ends-skip :
    (c : Char) (p a s : String)
    → contains (String.◌∷◌ c "") a ≡ false
    → ends (String.◌∷◌ c p) (a +++ s) ≡ ends (String.◌∷◌ c p) s
unfolding ends contains starts ◌+++◌
ends-skip c p String.[] s h = refl
ends-skip c p (String.◌∷◌ d a) s h = elim (Bool-cases (nat_eq (code c) (code d))) [
  | inl same ↦ absurd (ground arith)
  | inr other ↦ rw (other_first c d p (a +++ s) other) (ends-skip c p a s (rw other at h))
]
