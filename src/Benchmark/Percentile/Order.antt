-- ===== src/Benchmark/Percentile/Order.antt =====
-- Which of the values the percentiles of scripts/run_benchmark.py are made of.
use auto_sentinel.Prelude.{
  ℕ, suc, ◌-◌, ◌≤◌, ◌<◌, ◌≡◌, refl, ap, ◌∙◌, ◌⊎◌, true, false, inl, inr, Bool-cases, List, [], ◌∷◌,
  length, leb, nat_eq, leb→le, arith,
}
use auto_sentinel.Effects.{other_error, Result, ok, err}
use auto_sentinel.Llm.Client.{Float}
use auto_sentinel.Benchmark.Percentile.{
  Interpolation, sorted, item, min, interpolated, of_sorted, percentile,
}
use auto_sentinel.Benchmark.Percentile.Sorting.{
  StandsAt, IsSorted, below-sorted, up_to-sorted, length-sorted, IsSorted-sorted, least_stands,
  item-StandsAt, item-outside,
}

-- Where an index stands in a list of the length `n`, and whether the next one differs, cut off at the end.
place :
    (lo n : ℕ)
    → 2 ≤ n
    → ((suc lo ≡ n) × (nat_eq lo (min (suc lo) (n - 1)) ≡ true))
      ⊎ ((suc lo < n) × (min (suc lo) (n - 1) ≡ suc lo) × (nat_eq lo (suc lo) ≡ false))
      ⊎ ((n ≤ lo) × (nat_eq lo (min (suc lo) (n - 1)) ≡ false))
place lo n two = elim (Bool-cases (leb n lo)) [
  | inl outside ↦ inr (inr (leb→le n lo outside, ground arith))
  | inr inside ↦ elim (Bool-cases (nat_eq (suc lo) n)) [
    | inl last ↦ inl (ground arith, ground arith)
    | inr other ↦ inr (inl (ground arith, ground arith, ground arith))
  ]
]

module _ (interpolation : Interpolation) where
  abbrev pub rank_of : ℕ → ℕ → ℕ
  rank_of n pct = interpolation.floor (interpolation.rank n pct)

  -- What a percentile of `n` values is, by the whole part of the rank.
  pub data OrderStatistic (n : ℕ) (xs : List ℕ) (pct : ℕ) (r : Result ℕ) : Type 0 where
    no_value : n ≡ 0 → r ≡ ok 0 → OrderStatistic n xs pct r
    one_value : (a : ℕ) → n ≡ 1 → StandsAt a 0 xs → r ≡ ok a → OrderStatistic n xs pct r
    last_value :
        (a : ℕ)
        → 2 ≤ n
        → suc (rank_of n pct) ≡ n
        → StandsAt a (rank_of n pct) xs
        → r ≡ ok a
        → OrderStatistic n xs pct r
    two_values :
        (a b : ℕ)
        → 2 ≤ n
        → suc (rank_of n pct) < n
        → StandsAt a (rank_of n pct) xs
        → StandsAt b (suc (rank_of n pct)) xs
        → r ≡ ok (interpolation.between a b (interpolation.rank n pct) (rank_of n pct))
        → OrderStatistic n xs pct r
    no_rank :
        2 ≤ n
        → n ≤ rank_of n pct
        → r ≡ err (other_error "list index out of range")
        → OrderStatistic n xs pct r

  StandsAt-sorted : (a i : ℕ) (xs : List ℕ) → StandsAt a i (sorted xs) → StandsAt a i xs
  StandsAt-sorted a i xs h = rw (below-sorted a xs, up_to-sorted a xs) at h

  OrderStatistic-sorted :
      (n : ℕ) (xs : List ℕ) (pct : ℕ) (r : Result ℕ)
      → OrderStatistic n (sorted xs) pct r
      → OrderStatistic n xs pct r
  OrderStatistic-sorted n xs pct r (no_value z e) = no_value z e
  OrderStatistic-sorted n xs pct r (one_value a z h e) = one_value a z (StandsAt-sorted a 0 xs h) e
  OrderStatistic-sorted n xs pct r (last_value a z k h e) =
      last_value a z k (StandsAt-sorted a _ xs h) e
  OrderStatistic-sorted n xs pct r (two_values a b z k h h' e) =
      two_values a b z k (StandsAt-sorted a _ xs h) (StandsAt-sorted b _ xs h') e
  OrderStatistic-sorted n xs pct r (no_rank z k e) = no_rank z k e

  interpolated-apart :
      (s : List ℕ) (k : Float) (lo hi a b : ℕ)
      → nat_eq lo hi ≡ false
      → item s lo ≡ ok a
      → item s hi ≡ ok b
      → interpolated interpolation s k lo hi ≡ ok (interpolation.between a b k lo)
  interpolated-apart s k lo hi a b other e f = rw (other, e, f) refl

  OrderStatistic-interpolated :
      (s : List ℕ) (pct : ℕ)
      → IsSorted s
      → 2 ≤ length s
      → let n = length s in
        let lo = rank_of n pct in
        OrderStatistic n s pct
          (interpolated interpolation s (interpolation.rank n pct) lo (min (suc lo) (n - 1)))
  OrderStatistic-interpolated s pct ordered two =
      let n = length s in
      let lo = rank_of n pct in
      elim (place lo n two) [
        | inl (last, same) ↦
            let (a, e, stands, _) = item-StandsAt s lo ordered (omega (arith, last)) in
            last_value a two last stands (rw (same, e) refl)
        | inr (inl (within, next, other)) ↦
            let (a, e, stands, _) = item-StandsAt s lo ordered (omega (arith, within)) in
            let (b, f, stands', _) = item-StandsAt s (suc lo) ordered within in
            two_values a b two within stands stands' (
              ap (interpolated interpolation s (interpolation.rank n pct) lo) next
              ∙ interpolated-apart s (interpolation.rank n pct) lo (suc lo) a b other e f)
        | inr (inr (outside, other)) ↦
            no_rank two outside (rw (other, item-outside s lo outside) refl)
      ]

  OrderStatistic-of_sorted :
      (s : List ℕ) (pct : ℕ)
      → IsSorted s
      → OrderStatistic (length s) s pct (of_sorted interpolation s pct)
  OrderStatistic-of_sorted [] pct h = no_value refl refl
  OrderStatistic-of_sorted (x ∷ []) pct h = one_value x refl (least_stands x [] tt) refl
  OrderStatistic-of_sorted (x ∷ y ∷ ys) pct h =
      OrderStatistic-interpolated (x ∷ y ∷ ys) pct h (omega arith)

  -- A percentile depends on the values as a collection, and not on their order: it is 0 without a
  -- value, and else interpolates between the values that stand in ascending order at the whole part of
  -- the rank and at the next index; it is the one value, or the last one, where there is no next. The
  -- call raises an IndexError exactly where there are two values at least and the floating-point rank is
  -- not below their number.
  pub percentile-OrderStatistic :
      (xs : List ℕ) (pct : ℕ) → OrderStatistic (length xs) xs pct (percentile interpolation xs pct)
  unfolding percentile
  percentile-OrderStatistic xs pct =
      OrderStatistic-sorted (length xs) xs pct _
        (rw (length-sorted xs) at (OrderStatistic-of_sorted (sorted xs) pct (IsSorted-sorted xs)))
