-- ===== src/Benchmark/Percentile.antt =====
-- scripts/run_benchmark.py: `_percentile`. Its floating-point operations are parameters.
pub mod Sorting
pub mod Order
use auto_sentinel.Prelude.{
  ℕ, zero, suc, ◌-◌, ◌≤◌, ◌<◌, ◌≡◌, refl, ◌⊎◌, inl, inr, Bool, true, false, Bool-cases, List, [],
  ◌∷◌, if◌then◌else◌, length, leb, nat_eq, leb→le, arith,
}
use auto_sentinel.Effects.{other_error, Result, ok, err, bind}
use auto_sentinel.Llm.Client.{Float}

-- `(n - 1) * pct / 100.0`, `int(k)` of it, and `int(round(a + (b - a) * (k - lo)))`.
pub record Interpolation : Type 0 where
  pub rank : ℕ → ℕ → Float
  pub floor : Float → ℕ
  pub between : ℕ → ℕ → Float → ℕ → ℕ

abbrev pub insert : ℕ → List ℕ → List ℕ
insert x [] = x ∷ []
insert x (y ∷ ys) = if leb x y then x ∷ y ∷ ys else y ∷ insert x ys

-- `sorted(values)`
abbrev pub sorted : List ℕ → List ℕ
sorted [] = []
sorted (x ∷ xs) = insert x (sorted xs)

-- `s[i]`
abbrev pub item : List ℕ → ℕ → Result ℕ
item [] i = err (other_error "list index out of range")
item (x ∷ xs) zero = ok x
item (x ∷ xs) (suc i) = item xs i

abbrev pub min : ℕ → ℕ → ℕ
min a b = if leb a b then a else b

module _ (interpolation : Interpolation) where
  open interpolation use {rank, floor, between}

  abbrev pub interpolated : List ℕ → Float → ℕ → ℕ → Result ℕ
  interpolated s k lo hi =
      if nat_eq lo hi
      then item s lo
      else bind (item s lo) (λ a. bind (item s hi) (λ b. ok (between a b k lo)))

  abbrev pub of_sorted : List ℕ → ℕ → Result ℕ
  of_sorted [] pct = ok 0
  of_sorted (x ∷ []) pct = ok x
  of_sorted (x ∷ y ∷ ys) pct =
      let n = length (x ∷ y ∷ ys) in
      let k = rank n pct in interpolated (x ∷ y ∷ ys) k (floor k) (min (suc (floor k)) (n - 1))

  -- `_percentile`
  unfoldable pub percentile : List ℕ → ℕ → Result ℕ
  percentile values pct = of_sorted (sorted values) pct
