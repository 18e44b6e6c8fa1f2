-- ===== src/Llm/CostGuard.antt =====
-- autosentinel/llm/cost_guard.py: the budget of a process. Amounts are `Decimal`s, here integers
-- in one fixed unit of the guard's currency; they may be negative, since `accumulate` takes any
-- `Decimal`.
pub mod Ledger
use auto_sentinel.Prelude.{
  ℕ, zero, suc, ◌+◌, String, Bool, true, false, Option, none, some, List, [], ◌∷◌, if◌then◌else◌,
}
use auto_sentinel.Prelude.Int.{ℤ, pos, ◌+ℤ◌, ltb_ℤ}
use auto_sentinel.Effects.{
  Currency, cny, same_currency, currency_name, cost_guard_error, value_error, runtime_error, Result,
  ok, err, bind, Exec, pure, raise, ◌>>=◌, ◌>>◌,
}
use auto_sentinel.Prelude.Strings.{nonempty, ◌+++◌}

pub record CostGuardState : Type 0 where
  pub total_spent : ℤ
  pub budget_limit : ℤ
  pub currency : Currency
  pub call_count : ℕ
  -- A time stamp, in seconds.
  pub last_updated : Option ℕ

-- `CostGuard.__init__`: the field's bound `ge=0` is checked.
unfoldable pub new_guard : ℤ → Currency → Result CostGuardState
new_guard limit c =
    if ltb_ℤ limit (pos 0)
    then err (value_error "budget_limit must be greater than or equal to 0")
    else ok (record {
      total_spent = pos 0;
      budget_limit = limit;
      currency = c;
      call_count = 0;
      last_updated = none;
    })

-- The state after Step 1 of `accumulate`, at the time `now`.
abbrev pub add_cost : ℕ → ℤ → CostGuardState → CostGuardState
add_cost now cost g = record g {
  total_spent = g.total_spent +ℤ cost;
  call_count = g.call_count + 1;
  last_updated = some now;
}

-- `CostGuard.accumulate`.
unfoldable pub accumulate : ℕ → ℤ → Currency → Exec CostGuardState (Unit {0})
accumulate now cost c g =
    if same_currency c g.currency
    then (let h = add_cost now cost g in
        if ltb_ℤ g.budget_limit h.total_spent
        then (
          err (
              cost_guard_error (record {
                current_spent = h.total_spent;
                attempted_amount = cost;
                budget_limit = g.budget_limit;
                currency = g.currency;
              })),
          h,
        )
        else (ok tt, h))
    else (
      err (
          value_error (
            "CostGuard is denominated in "
            +++ currency_name g.currency
            +++ "; got a "
            +++ currency_name c
            +++ " cost. Multi-currency budgets are not implemented (Sprint 5). Route this model through a "
            +++ currency_name g.currency
            +++ " budget or add a per-currency accumulator.")),
      g,
    )

-- `CostGuard.reset_for_test`, with the environment variable PYTEST_CURRENT_TEST.
unfoldable pub reset_for_test : Option String → Exec CostGuardState (Unit {0})
reset_for_test none g = (
  err (
      runtime_error
        "reset_for_test() may only be called from a pytest run. PYTEST_CURRENT_TEST env var was not set."),
  g,
)
reset_for_test (some v) g =
    if nonempty v
    then (ok tt, record g { total_spent = pos 0; call_count = 0; last_updated = none })
    else (
      err (
          runtime_error
            "reset_for_test() may only be called from a pytest run. PYTEST_CURRENT_TEST env var was not set."),
      g,
    )

-- `get_cost_guard`: the module's singleton, made on the first call from the text of the variable
-- AUTOSENTINEL_BUDGET_LIMIT_CNY; `decimal` reads a text as `Decimal` does.
unfoldable pub get_cost_guard :
    (String → Result ℤ) → Option String → Exec (Option CostGuardState) CostGuardState
unfolding new_guard
get_cost_guard decimal env (some g) = (ok g, some g)
get_cost_guard decimal env none =
    let text : String = elim env [ none ↦ "150" | some v ↦ v ] in
    let made = bind (decimal text) (λ limit. new_guard limit cny) in
    elim made [ ok g ↦ (ok g, some g) | err e ↦ (err e, none) ]
