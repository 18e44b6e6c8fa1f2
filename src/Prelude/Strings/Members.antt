-- ===== src/Prelude/Strings/Members.antt =====
-- Laws of the membership of a text in a list.
use auto_sentinel.Prelude.Tests.{Bool-cases}
use auto_sentinel.Prelude.Strings.{◌==◌, eq_iff, eq_refl, is_one_of}
use auto_sentinel.Prelude.Strings.Laws.{or-true}
use Prim.Native.String.{String}
use mathlib.Core.Path.{◌≡◌, refl}
use mathlib.Core.Logic.{◌≢◌, ◌⊎◌, inl, inr}
use mathlib.Core.Bool.{true}
use mathlib.Core.List.{List, [], ◌∷◌}
use native.Mathlib.Omega.{arith}

pub none_stands : (x : String) → is_one_of x [] ≢ true
unfolding is_one_of
none_stands x h = ground arith

pub stands_first : (x : String) (xs : List String) → is_one_of x (x ∷ xs) ≡ true
unfolding is_one_of
stands_first x xs = rw (eq_refl x) refl

pub stands_later :
    (x y : String) (xs : List String) → is_one_of x xs ≡ true → is_one_of x (y ∷ xs) ≡ true
unfolding is_one_of
stands_later x y xs h = rw h (or-true (x == y))

pub stands_cases :
    (x y : String) (xs : List String)
    → is_one_of x (y ∷ xs) ≡ true
    → (x ≡ y) ⊎ (is_one_of x xs ≡ true)
unfolding is_one_of
stands_cases x y xs h = elim (Bool-cases (x == y)) [
  | inl same ↦ inl ((eq_iff x y).0 same)
  | inr other ↦ inr (rw other at h)
]
