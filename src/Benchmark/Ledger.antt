-- ===== src/Benchmark/Ledger.antt =====
-- The cost that scripts/run_benchmark.py reports is what the guard has booked.
use auto_sentinel.Prelude.{ℕ, String, ◌≡◌, sym, Bool-cases, inl, inr, Option, List, [], ◌∷◌}
use auto_sentinel.Prelude.Int.{ℤ, pos, ◌+ℤ◌, ◌-ℤ◌, ltb_ℤ, int_laws}
use auto_sentinel.Effects.{Exc, Result, ok, err, Exec, continue, pure}
use auto_sentinel.Llm.CostGuard.{CostGuardState}
use auto_sentinel.Pipeline.{Agents, Services}
use auto_sentinel.Benchmark.{
  BenchmarkScenario, BenchmarkResult, Ending, exhausted, start_state, run_graph, row, concluded,
  run_scenario, run_all, total_cost,
}

module _ {S : Type 0} (services : Services S) (agents : Agents S) (guard : S → CostGuardState)
    (elapsed : S → S → ℕ) (describe : Exc → String)
    (same_spent : (s : S)
      → (guard (services.token_hex s).1).total_spent ≡ (guard s).total_spent) where
  -- The costs add up to what the guard has booked since the world `s`.
  abbrev pub Accounted : S → Result (List (BenchmarkResult × Option String)) × S → Type 0
  Accounted s (err e, t) = Unit
  Accounted s (ok rows, t) = (guard s).total_spent +ℤ total_cost rows ≡ (guard t).total_spent

  abbrev AccountedRow : S → Result (BenchmarkResult × Option String) × S → Type 0
  AccountedRow s (err e, t) = Unit
  AccountedRow s (ok r, t) = (guard s).total_spent +ℤ r.0.cost ≡ (guard t).total_spent

  spent_difference : (a b : ℤ) → a +ℤ (b -ℤ a) ≡ b
  spent_difference a b = omega int_laws

  sum_step : (a c r : ℤ) {b d : ℤ} → a +ℤ c ≡ b → b +ℤ r ≡ d → a +ℤ (c +ℤ r) ≡ d
  sum_step a c r h k = rw (sym k, sym h) (omega int_laws)

  AccountedRow-concluded :
      (x : BenchmarkScenario) (id : String) (before : S) (e : Ending S)
      → AccountedRow before (concluded services agents guard elapsed describe x id before e e.world)
  AccountedRow-concluded x id before e = elim (Bool-cases (exhausted e.state)) [
    | inl over ↦ rw over tt
    | inr within ↦
        let r = row services agents guard elapsed describe x id before e in
        elim (Bool-cases (ltb_ℤ r.cost (pos 0))) [
          | inl negative ↦ rw (within, negative) tt
          | inr fits ↦
              rw (within, fits)
                (spent_difference (guard before).total_spent (guard e.world).total_spent)
        ]
  ]

  AccountedRow-started :
      (x : BenchmarkScenario) (s : S) (q : Result String × S)
      → (guard q.1).total_spent ≡ (guard s).total_spent
      → AccountedRow s (
          continue q λ id t.
            let e =
              run_graph services agents guard elapsed describe
                (start_state x.error_log_path id)
                t in
            concluded services agents guard elapsed describe x id t e e.world)
  AccountedRow-started x s (err e, t) h = tt
  AccountedRow-started x s (ok id, t) h =
      let e =
        run_graph services agents guard elapsed describe (start_state x.error_log_path id) t in
      moved (concluded services agents guard elapsed describe x id t e e.world)
        (AccountedRow-concluded x id t e)
    where
      moved :
          (p : Result (BenchmarkResult × Option String) × S) → AccountedRow t p → AccountedRow s p
      moved (err e, w) k = tt
      moved (ok r, w) k = rw (sym h) k

  AccountedRow-run_scenario :
      (x : BenchmarkScenario) (s : S)
      → AccountedRow s (run_scenario services agents guard elapsed describe x s)
  unfolding run_scenario
  AccountedRow-run_scenario x s = AccountedRow-started x s (services.token_hex s) (same_spent s)

  Accounted-cons :
      (s : S) (p : Result (BenchmarkResult × Option String) × S)
      (f : Exec S (List (BenchmarkResult × Option String)))
      → AccountedRow s p
      → ((t : S) → Accounted t (f t))
      → Accounted s (continue p (λ first t. continue (f t) (λ rest. pure (first ∷ rest))))
  Accounted-cons s (err e, t) f h k = tt
  Accounted-cons s (ok first, t) f h k = added (f t) (k t)
    where
      added :
          (q : Result (List (BenchmarkResult × Option String)) × S)
          → Accounted t q
          → Accounted s (continue q (λ rest. pure (first ∷ rest)))
      added (err e, w) k = tt
      added (ok rest, w) k = sum_step (guard s).total_spent first.0.cost (total_cost rest) h k

  -- If a benchmark returns, the costs of its rows add up to exactly what the guard has booked between
  -- its start and its end. Drawing an id books nothing.
  pub run_all-Accounted :
      (xs : List BenchmarkScenario) (s : S)
      → Accounted s (run_all services agents guard elapsed describe xs s)
  unfolding run_all
  run_all-Accounted [] s = omega int_laws
  run_all-Accounted (x ∷ xs) s =
      Accounted-cons s (run_scenario services agents guard elapsed describe x s)
        (run_all services agents guard elapsed describe xs) (AccountedRow-run_scenario x s)
        (run_all-Accounted xs)
