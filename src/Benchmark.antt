-- ===== src/Benchmark.antt =====
-- scripts/run_benchmark.py: the run of a scenario, and the loop over the scenarios, with the same agents
-- for all of them.
pub mod Ledger
pub mod Honest
pub mod Resolution
pub mod Production
pub mod Summary
pub mod Detail
pub mod Scenarios
pub mod Percentile
pub mod Publish
pub mod Mock
pub mod Smoke
use auto_sentinel.Prelude.{
  ℕ, zero, suc, ◌+◌, ◌-◌, String, Bool, true, false, not, ◌&&◌, ◌||◌, Option, none, some, List, [],
  ◌∷◌, if◌then◌else◌,
}
use auto_sentinel.Prelude.Int.{ℤ, pos, ◌+ℤ◌, ◌-ℤ◌, ltb_ℤ}
use auto_sentinel.Prelude.Strings.{◌==◌, is_one_of, prefix}
use auto_sentinel.Effects.{
  Exc, cost_guard_error, value_error, Result, ok, err, Exec, pure, raise, lift, ◌>>=◌,
}
use auto_sentinel.Python.Json.{text}
use auto_sentinel.State.{AgentState, ExecutionResult, initial_state}
use auto_sentinel.Llm.Client.{Float}
use auto_sentinel.Llm.CostGuard.{CostGuardState}
use auto_sentinel.Nodes.Report.Sidecar.{truthy_or, is_high_risk}
use auto_sentinel.Pipeline.{
  Node, Agents, Services, Position, at, suspended, ended, failed, Run, visit, drive, resume, invoke,
}

pub record BenchmarkScenario : Type 0 where
  pub scenario_id : String
  pub category : String
  pub error_log_path : String
  pub expected_classification : String
  pub expected_resolution_action : String
  pub expected_security_verdict : String
  pub ground_truth_notes : String
  pub human_labeled_by : String
  pub labeled_at : String

pub record BenchmarkResult : Type 0 where
  pub scenario_id : String
  pub actual_classification : String
  pub actual_resolution : String
  pub passed : Bool
  pub latency_ms : ℕ
  pub cost : ℤ
  pub currency : String
  pub trace_id : String
  pub error : Option String

-- The dict `result` when the graph has been left, and the exception that left it.
pub record Ending (S : Type 0) : Type 0 where
  pub state : Option AgentState
  pub error : Option Exc
  pub world : S

abbrev pub is_some : {A : Type 0} → Option A → Bool
is_some none = false
is_some (some a) = true

abbrev pub succeeded : Option ExecutionResult → Bool
succeeded none = false
succeeded (some r) = r.status == "success"

-- `resolved`
unfoldable pub resolved : Option AgentState → Bool
resolved none = false
resolved (some st) =
    is_some st.report_text && not (is_some st.execution_error) && succeeded st.execution_result

abbrev pub exhausted : Option AgentState → Bool
exhausted none = false
exhausted (some st) = st.cost_exhausted || is_one_of "cost_guard_triggered" st.agent_trace

abbrev pub verdict_of : Option AgentState → Option String
verdict_of none = none
verdict_of (some st) = st.security_verdict

abbrev pub classification_of : Option AgentState → String
classification_of none = "UNKNOWN"
classification_of (some st) = truthy_or st.error_category "UNKNOWN"

abbrev pub resolution_of : Option AgentState → String
resolution_of none = "(none)"
resolution_of (some st) = prefix 200 (truthy_or st.fix_artifact "(none)")

-- The initial state, with its `cost_accumulated` of 0.0.
abbrev pub start_state : String → String → AgentState
start_state path id = record (initial_state path (some id)) {
  cost_accumulated = some (record { bits = 0 });
}

module _ {S : Type 0} (services : Services S) (agents : Agents S)
    -- `get_cost_guard().state`, the milliseconds that `time.monotonic()` counts between two worlds, and
    -- the text of an exception.
    (guard : S → CostGuardState) (elapsed : S → S → ℕ) (describe : Exc → String) where
  -- The second `graph.invoke`: its exception leaves `result` as the first one has set it.
  abbrev pub ending_of_resumed : AgentState → Run S → Position → Ending S
  ending_of_resumed first r (failed e) = record {
    state = some first;
    error = some e;
    world = r.world;
  }
  ending_of_resumed first r p = record { state = some r.state; error = none; world = r.world }

  -- A resumed run has two more nodes: the verifier and the report.
  abbrev pub ending_of : Run S → Position → Ending S
  ending_of r (failed e) = record { state = none; error = some e; world = r.world }
  ending_of r suspended =
      let after = drive services agents 2 (resume services agents (text "approved") r) in
      ending_of_resumed r.state after after.position
  ending_of r p = record { state = some r.state; error = none; world = r.world }

  -- The `try` block of `_run_v2`.
  unfoldable pub run_graph : AgentState → S → Ending S
  run_graph st s = let r = invoke services agents st s in ending_of r r.position

  abbrev pub over_budget : S → Exc
  over_budget s = cost_guard_error (record {
    current_spent = (guard s).total_spent;
    attempted_amount = pos 0;
    budget_limit = (guard s).budget_limit;
    currency = (guard s).currency;
  })

  abbrev pub error_text : Option Exc → Option String
  error_text none = none
  error_text (some e) = some (describe e)

  abbrev pub row : BenchmarkScenario → String → S → Ending S → BenchmarkResult
  row scenario id before e = record {
    scenario_id = scenario.scenario_id;
    actual_classification = classification_of e.state;
    actual_resolution = resolution_of e.state;
    passed = resolved e.state;
    latency_ms = elapsed before e.world;
    cost = (guard e.world).total_spent -ℤ (guard before).total_spent;
    currency = "CNY";
    trace_id = id;
    error = error_text e.error;
  }

  -- `BenchmarkResult(...)`: the field's bound `ge=0`.
  abbrev pub checked : BenchmarkResult → Result BenchmarkResult
  checked r = if ltb_ℤ r.cost (pos 0) then err (value_error "BenchmarkResult") else ok r

  abbrev pub concluded :
      BenchmarkScenario → String → S → Ending S → Exec S (BenchmarkResult × Option String)
  concluded scenario id before e s =
      if exhausted e.state
      then (err (over_budget s), s)
      else (do r ← lift (checked (row scenario id before e)); pure (r, verdict_of e.state)) s

  -- `_run_v2`
  unfoldable pub run_scenario : BenchmarkScenario → Exec S (BenchmarkResult × Option String)
  unfolding run_graph resolved
  run_scenario scenario = do
    id ← services.token_hex
    λ s.
        let e = run_graph (start_state scenario.error_log_path id) s in
        concluded scenario id s e e.world

  -- The loop of `run`: the first exception ends it, and nothing is written.
  unfoldable pub run_all : List BenchmarkScenario → Exec S (List (BenchmarkResult × Option String))
  unfolding run_scenario
  run_all [] = pure []
  run_all (x ∷ xs) = do first ← run_scenario x; rest ← run_all xs; pure (first ∷ rest)

-- `v2_cost_total`
abbrev pub total_cost : List (BenchmarkResult × Option String) → ℤ
total_cost [] = pos 0
total_cost ((r, verdict) ∷ rest) = r.cost +ℤ total_cost rest
