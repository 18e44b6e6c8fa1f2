-- ===== src/Benchmark/Resolution.antt =====
-- What scripts/run_benchmark.py counts as resolved.
use auto_sentinel.Prelude.{ℕ, String, ◌≡◌, true, Option, none, some}
use auto_sentinel.Effects.{Exc, Result, ok, err}
use auto_sentinel.State.{AgentState, ExecutionResult}
use auto_sentinel.Llm.CostGuard.{CostGuardState}
use auto_sentinel.Agents.Verifier.Status.{exited_with_zero}
use auto_sentinel.Pipeline.{Agents, Services}
use auto_sentinel.Benchmark.{BenchmarkScenario, start_state, run_graph}
use auto_sentinel.Benchmark.Honest.{IsHonestState, HonestAgents}

-- The fix ran in a container that exited with 0, no error was noted, and there is a report.
abbrev pub RanFix : Option AgentState → Type 0
RanFix none = ⊥
RanFix (some st) =
    (st.execution_error ≡ none)
    × ((r : ExecutionResult) × (st.execution_result ≡ some r)
        × (exited_with_zero r.return_code ≡ true))
    × ((report : String) × (st.report_text ≡ some report))

abbrev HonestState : Option AgentState → Type 0
HonestState none = Unit
HonestState (some st) = IsHonestState st

module _ {S : Type 0} (services : Services S) (agents : Agents S) (guard : S → CostGuardState)
    (elapsed : S → S → ℕ) (describe : Exc → String) (honest : HonestAgents agents) where
  -- The graph was run from the scenario's log, under the id that was drawn, and ended with a fix that
  -- ran.
  abbrev pub PassedRun : BenchmarkScenario → Result String × S → Type 0
  PassedRun x (err e, t) = ⊥
  PassedRun x (ok id, t) =
      RanFix
        (run_graph services agents guard elapsed describe (start_state x.error_log_path id) t).state
