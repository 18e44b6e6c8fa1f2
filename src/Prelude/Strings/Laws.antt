-- ===== src/Prelude/Strings/Laws.antt =====
-- Laws of the text operations.
use auto_sentinel.Prelude.Tests.{nat_eq}
use auto_sentinel.Prelude.Lists.{any}
use auto_sentinel.Prelude.Strings.{◌+++◌, starts, contains, is_one_of, eq_iff}
use Prim.Native.Nat.{ℕ}
use Prim.Native.Char.{code}
use Prim.Native.String.{String}
use mathlib.Core.Path.{◌≡◌, refl}
use mathlib.Core.Bool.{Bool, true, false, ◌||◌}
use mathlib.Core.List.{List, [], ◌∷◌}
use native.Mathlib.Omega.{arith}

nat_eq_refl : (n : ℕ) → nat_eq n n ≡ true
nat_eq_refl n = ground arith

pub starts-append : (p s : String) → starts p (p +++ s) ≡ true
unfolding starts ◌+++◌
starts-append String.[] s = refl
starts-append (String.◌∷◌ c p) s = rw (nat_eq_refl (code c)) (starts-append p s)

contains_of_starts : (p s : String) → starts p s ≡ true → contains p s ≡ true
unfolding contains
contains_of_starts p String.[] h = h
contains_of_starts p (String.◌∷◌ c s) h = rw h

-- A text is contained wherever it stands.
pub contains-append : (a p b : String) → contains p (a +++ p +++ b) ≡ true
unfolding contains ◌+++◌
contains-append String.[] p b = contains_of_starts p (p +++ b) (starts-append p b)
contains-append (String.◌∷◌ c a) p b = ground (arith, contains-append a p b)

pub any_of_mem :
    (test : String → Bool) (x : String) (xs : List String)
    → is_one_of x xs ≡ true
    → test x ≡ true
    → any test xs ≡ true
unfolding is_one_of
any_of_mem test x [] h t = h
any_of_mem test x (y ∷ ys) h t = ground (arith, eq_iff x y, any_of_mem test x ys)

pub or-true : (b : Bool) → (b || true) ≡ true
or-true true = refl
or-true false = refl
