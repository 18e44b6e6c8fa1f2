-- ===== src/Prelude/Dict.antt =====
-- A dict with text keys, as the list of its items in the order of insertion.
use Prim.Native.String.{String}
use mathlib.Core.Path.{◌≡◌, refl}
use mathlib.Core.Logic.{◌≢◌, ◌⊎◌, inl, inr}
use mathlib.Core.Option.{Option, none, some}
use mathlib.Core.List.{List, [], ◌∷◌}
use auto_sentinel.Prelude.Tests.{if◌then◌else◌, Bool-cases}
use auto_sentinel.Prelude.Strings.{◌==◌, eq_iff, eq_refl}

abbrev pub Dict {ℓ} : Type ℓ → Type ℓ
Dict A = List (String × A)

-- `d.get(key)`
abbrev pub find {ℓ} : {A : Type ℓ} → String → Dict A → Option A
find key [] = none
find key ((k, v) ∷ rest) = if k == key then some v else find key rest

-- `list(d.keys())`
abbrev pub keys {ℓ} : {A : Type ℓ} → Dict A → List String
keys [] = []
keys ((k, v) ∷ rest) = k ∷ keys rest

pub find-here {ℓ} :
    {A : Type ℓ} (key : String) (v : A) (d : Dict A) → find key ((key, v) ∷ d) ≡ some v
find-here key v d = rw (eq_refl key) refl

-- What a dict holds under a key stands in its first item or in the others.
pub find-cases {ℓ} :
    {A : Type ℓ} (key k : String) (v a : A) (d : Dict A)
    → find key ((k, v) ∷ d) ≡ some a
    → ((k ≡ key) × (v ≡ a)) ⊎ (find key d ≡ some a)
find-cases key k v a d h = elim (Bool-cases (k == key)) [
  | inl same ↦ inl ((eq_iff k key).0 same, cc)
  | inr other ↦ inr (rw other at h)
]

none_ne_some {ℓ} :
    {A : Type ℓ} (key k : String) (a : A) (d : Dict A)
    → k ≡ key
    → find k d ≡ none
    → find key d ≢ some a
none_ne_some key k a d e n h = cc

-- A key that is not there yet keeps the others' values.
pub find-other {ℓ} :
    {A : Type ℓ} (key k : String) (v a : A) (d : Dict A)
    → find k d ≡ none
    → find key d ≡ some a
    → find key ((k, v) ∷ d) ≡ some a
find-other key k v a d absent h = elim (Bool-cases (k == key)) [
  | inl same ↦ absurd (none_ne_some key k a d ((eq_iff k key).0 same) absent h)
  | inr other ↦ rw other h
]
