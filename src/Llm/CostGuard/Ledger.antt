-- ===== src/Llm/CostGuard/Ledger.antt =====
-- The ledger of autosentinel/llm/cost_guard.py over a sequence of calls.
use auto_sentinel.Prelude.{
  ℕ, ◌+◌, ◌≡◌, refl, ◌∙◌, ap, sym, List, [], ◌∷◌, if◌then◌else◌, Bool-cases, ◌⊎◌, inl, inr, arith,
  true,
}
use auto_sentinel.Prelude.Int.{ℤ, pos, ◌+ℤ◌, ◌≤ℤ◌, ◌<ℤ◌, ltb_ℤ, int_laws}
use auto_sentinel.Effects.{
  Currency, cny, usd, same_currency, Exc, cost_guard_error, Result, ok, err,
}
use auto_sentinel.Llm.CostGuard.{CostGuardState, accumulate}

-- A call's time, cost and currency.
pub record Charge : Type 0 where
  pub now : ℕ
  pub cost : ℤ
  pub currency : Currency

-- The guard after callers that each get their own exception, if any.
pub charge_all : List Charge → CostGuardState → CostGuardState
charge_all [] g = g
charge_all (x ∷ xs) g = charge_all xs (accumulate x.now x.cost x.currency g).1

-- What the charges in the guard's currency cost together, and how many they are.
abbrev pub billed : Currency → List Charge → ℤ
billed c [] = pos 0
billed c (x ∷ xs) = (if same_currency x.currency c then x.cost else pos 0) +ℤ billed c xs

abbrev pub billed_calls : Currency → List Charge → ℕ
billed_calls c [] = 0
billed_calls c (x ∷ xs) = (if same_currency x.currency c then 1 else 0) + billed_calls c xs

pub record Books (g : CostGuardState) (xs : List Charge) (h : CostGuardState) : Type 0 where
  pub total : h.total_spent ≡ g.total_spent +ℤ billed g.currency xs
  pub calls : h.call_count ≡ g.call_count + billed_calls g.currency xs
  pub limit : h.budget_limit ≡ g.budget_limit
  pub denominated : h.currency ≡ g.currency

-- One call keeps the limit and the currency, and books its cost exactly when the currency fits.
pub accumulate-Books :
    (x : Charge) (g : CostGuardState) → Books g (x ∷ []) (accumulate x.now x.cost x.currency g).1
unfolding accumulate
accumulate-Books x g = grind int_laws

Books-cons :
    (x : Charge) (xs : List Charge) (g h k : CostGuardState)
    → Books g (x ∷ []) h
    → Books h xs k
    → Books g (x ∷ xs) k
Books-cons x xs g h k first rest = record {
  total =
      rest.total
      ∙ rw (ap (λ (c : Currency). billed c xs) first.denominated, first.total) (omega int_laws);
  calls =
      rest.calls
      ∙ rw (ap (λ (c : Currency). billed_calls c xs) first.denominated, first.calls) (omega arith);
  limit = rest.limit ∙ first.limit;
  denominated = rest.denominated ∙ first.denominated;
}

Books-none : (g : CostGuardState) → Books g [] g
Books-none g = record {
  total = omega int_laws;
  calls = omega arith;
  limit = refl;
  denominated = refl;
}

-- Whatever calls were made, and whichever of them raised, the total is the starting total plus the
-- cost of exactly the calls in the guard's currency, and the counter has counted exactly those.
pub charge_all-Books : (xs : List Charge) (g : CostGuardState) → Books g xs (charge_all xs g)
unfolding charge_all
charge_all-Books [] g = Books-none g
charge_all-Books (x ∷ xs) g =
    let h = (accumulate x.now x.cost x.currency g).1 in
    Books-cons x xs g h (charge_all xs h) (accumulate-Books x g) (charge_all-Books xs h)

abbrev pub IsNonneg : List Charge → Type 0
IsNonneg [] = Unit
IsNonneg (x ∷ xs) = (pos 0 ≤ℤ x.cost) × IsNonneg xs

abbrev pub IsTripped : CostGuardState → Type 0
IsTripped g = g.budget_limit <ℤ g.total_spent

-- How a call in the guard's currency ends once the guard has tripped.
abbrev pub Trips : Result (Unit {0}) → Type 0
Trips (err (cost_guard_error e)) = e.budget_limit <ℤ e.current_spent
Trips _ = ⊥

accumulate-IsTripped :
    (x : Charge) (g : CostGuardState)
    → pos 0 ≤ℤ x.cost
    → IsTripped g
    → IsTripped (accumulate x.now x.cost x.currency g).1
unfolding accumulate
accumulate-IsTripped x g c t = grind int_laws

charge_all-IsTripped :
    (xs : List Charge) (g : CostGuardState)
    → IsNonneg xs
    → IsTripped g
    → IsTripped (charge_all xs g)
unfolding charge_all
charge_all-IsTripped [] g c t = t
charge_all-IsTripped (x ∷ xs) g c t =
    charge_all-IsTripped xs (accumulate x.now x.cost x.currency g).1 c.1
      (accumulate-IsTripped x g c.0 t)

same_currency_refl : (c : Currency) → same_currency c c ≡ true
same_currency_refl cny = refl
same_currency_refl usd = refl

accumulate-Trips :
    (x : Charge) (g : CostGuardState)
    → pos 0 ≤ℤ x.cost
    → x.currency ≡ g.currency
    → IsTripped g
    → Trips (accumulate x.now x.cost x.currency g).0
unfolding accumulate
accumulate-Trips x g c e t = grind (int_laws, same_currency_refl)

-- Once the total has passed the limit, then after any further calls of non-negative cost every call
-- in the guard's currency raises `CostGuardError`, with a total above the limit in its payload.
pub tripped_stays_tripped :
    (xs : List Charge) (x : Charge) (g : CostGuardState)
    → IsTripped g
    → IsNonneg xs
    → pos 0 ≤ℤ x.cost
    → x.currency ≡ g.currency
    → Trips (accumulate x.now x.cost x.currency (charge_all xs g)).0
tripped_stays_tripped xs x g t nonneg c e =
    accumulate-Trips x (charge_all xs g) c (e ∙ sym (charge_all-Books xs g).denominated)
      (charge_all-IsTripped xs g nonneg t)

-- A client that stops at its first exception: the calls that it makes, the last one included, and
-- the guard after them.
pub charge_until_raise : List Charge → CostGuardState → List Charge × CostGuardState
charge_until_raise [] g = ([], g)
charge_until_raise (x ∷ xs) g =
    let (r, h) = accumulate x.now x.cost x.currency g in
    let (made, k) = charge_until_raise xs h in elim r [ ok _ ↦ (x ∷ made, k) | err _ ↦ (x ∷ [], h) ]

abbrev pub IsAtMost : ℤ → List Charge → Type 0
IsAtMost most [] = Unit
IsAtMost most (x ∷ xs) = (x.cost ≤ℤ most) × IsAtMost most xs

-- A call that starts within the limit returns within it, or raises; either way the guard's limit
-- stays and is passed by at most the call's cost.
record Step (most : ℤ) (g : CostGuardState) (r : Result (Unit {0})) (h : CostGuardState)
    : Type 0 where
  same_limit : h.budget_limit ≡ g.budget_limit
  bounded : h.total_spent ≤ℤ (g.budget_limit +ℤ most)
  ended : ((r ≡ ok tt) × (h.total_spent ≤ℤ h.budget_limit)) ⊎ ((e : Exc) × (r ≡ err e))

accumulate-Step :
    (most : ℤ) (x : Charge) (g : CostGuardState)
    → pos 0 ≤ℤ most
    → x.cost ≤ℤ most
    → g.total_spent ≤ℤ g.budget_limit
    → Step most g (accumulate x.now x.cost x.currency g).0 (accumulate x.now x.cost x.currency g).1
unfolding accumulate
accumulate-Step most x g m c s = elim (Bool-cases (same_currency x.currency g.currency)) [
  | inl same ↦ elim (Bool-cases (ltb_ℤ g.budget_limit (g.total_spent +ℤ x.cost))) [
    | inl over ↦
        rw (same, over)
          (record { same_limit = refl; bounded = omega int_laws; ended = inr (_, refl) })
    | inr within ↦
        rw (same, within)
          (record { same_limit = refl; bounded = omega int_laws; ended = inl (refl, ground arith) })
  ]
  | inr other ↦
      rw other (record { same_limit = refl; bounded = omega int_laws; ended = inr (_, refl) })
]

-- Each call that was made is on the books, and the total is at most the limit plus `most`.
pub record Spends (most : ℤ) (g : CostGuardState) (q : List Charge × CostGuardState) : Type 0 where
  pub booked : Books g q.0 q.1
  pub bounded : q.1.total_spent ≤ℤ (g.budget_limit +ℤ most)

-- The budget is overrun by at most one call: a client that starts within the limit and stops at its
-- first exception, and whose calls cost at most `most` each, brings the total to at most the limit plus
-- `most`, where the total has every call that it made in the guard's currency, the one that raised
-- too.
pub overrun_bounded :
    (most : ℤ) (xs : List Charge) (g : CostGuardState)
    → pos 0 ≤ℤ most
    → IsAtMost most xs
    → g.total_spent ≤ℤ g.budget_limit
    → Spends most g (charge_until_raise xs g)
unfolding charge_until_raise
overrun_bounded most [] g m c s = record { booked = Books-none g; bounded = omega int_laws }
overrun_bounded most (x ∷ xs) g m c s =
    let step = accumulate-Step most x g m c.0 s in
    let h = (accumulate x.now x.cost x.currency g).1 in
    elim step.ended [
      | inl (returned, within) ↦
          let rest = overrun_bounded most xs h m c.1 within in
          rw (returned, charge_until_raise)
            (record {
              booked =
                  Books-cons x (charge_until_raise xs h).0 g h (charge_until_raise xs h).1
                    (accumulate-Books x g) rest.booked;
              bounded = rw step.same_limit at rest.bounded;
            })
      | inr (e, raised) ↦
          rw (raised, charge_until_raise)
            (record { booked = accumulate-Books x g; bounded = step.bounded })
    ]
