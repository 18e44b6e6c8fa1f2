-- ===== src/Prelude/Strings/Strip.antt =====
-- Laws of `str.strip`.
use auto_sentinel.Prelude.Tests.{if◌then◌else◌}
use auto_sentinel.Prelude.Strings.{◌+++◌, nonempty, is_space, lstrip, rstrip, strip, all_chars}
use auto_sentinel.Prelude.Strings.Affixes.{and-split}
use Prim.Native.String.{String}
use mathlib.Core.Path.{◌≡◌, refl, ap, ◌∙◌}
use mathlib.Core.Bool.{Bool, true, false, ◌&&◌}
use native.Mathlib.Omega.{arith}

abbrev pub IsBlank : String → Type 0
IsBlank s = all_chars is_space s ≡ true

-- A text that begins and ends with no space.
pub record IsTrim (s : String) : Type 0 where
  pub left : (t : String) → lstrip (s +++ t) ≡ s +++ t
  pub right : rstrip s ≡ s

pub if_true : {A : Type 0} (b : Bool) (x y : A) → b ≡ true → (if b then x else y) ≡ x
if_true true x y h = refl
if_true false x y h = absurd (ground arith)

pub if_false : {A : Type 0} (b : Bool) (x y : A) → b ≡ false → (if b then x else y) ≡ y
if_false true x y h = absurd (ground arith)
if_false false x y h = refl

and_false : (b : Bool) → (b && false) ≡ false
and_false b = ground arith

lstrip-blank : (a s : String) → IsBlank a → lstrip (a +++ s) ≡ lstrip s
unfolding lstrip ◌+++◌
lstrip-blank String.[] s h = refl
lstrip-blank (String.◌∷◌ c a) s h =
    let (space, rest) = and-split (is_space c) (all_chars is_space a) h in
    if_true (is_space c) (lstrip (a +++ s)) (String.◌∷◌ c (a +++ s)) space ∙ lstrip-blank a s rest

rstrip-of-blank : (b : String) → IsBlank b → rstrip b ≡ ""
unfolding rstrip
rstrip-of-blank String.[] h = refl
rstrip-of-blank (String.◌∷◌ c b) h =
    let (space, rest) = and-split (is_space c) (all_chars is_space b) h in
    rw (rstrip-of-blank b rest)
      (if_true (is_space c && true) "" (String.◌∷◌ c "") (ap (λ x. x && true) space))

rstrip-blank : (s b : String) → IsBlank b → rstrip (s +++ b) ≡ rstrip s
unfolding rstrip ◌+++◌
rstrip-blank String.[] b h = rstrip-of-blank b h
rstrip-blank (String.◌∷◌ c s) b h = rw (rstrip-blank s b h) refl

pub nonempty-append : (s t : String) → nonempty t ≡ true → nonempty (s +++ t) ≡ true
unfolding ◌+++◌
nonempty-append String.[] t h = h
nonempty-append (String.◌∷◌ c s) t h = refl

-- What stands before a text without a space at its end stays.
pub rstrip-append : (s t : String) → rstrip t ≡ t → nonempty t ≡ true → rstrip (s +++ t) ≡ s +++ t
unfolding rstrip ◌+++◌
rstrip-append String.[] t h n = h
rstrip-append (String.◌∷◌ c s) t h n =
    rw (rstrip-append s t h n, nonempty-append s t n)
      (if_false (is_space c && false) "" (String.◌∷◌ c (s +++ t)) (and_false (is_space c)))

-- Spaces around a text that begins and ends with none.
pub strip-blanks : (a s b : String) → IsBlank a → IsBlank b → IsTrim s → strip (a +++ s +++ b) ≡ s
unfolding strip
strip-blanks a s b h k t =
    ap rstrip (lstrip-blank a (s +++ b) h) ∙ ap rstrip (t.left b) ∙ rstrip-blank s b k ∙ t.right
