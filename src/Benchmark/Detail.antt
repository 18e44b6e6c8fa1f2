-- ===== src/Benchmark/Detail.antt =====
-- autosentinel/benchmark.py: the run of a scenario by the smoke benchmark.
pub mod Agreement
use auto_sentinel.Prelude.{ℕ, String, Bool, true, false, ◌&&◌, Option, none, some, List, []}
use auto_sentinel.Effects.{Exc}
use auto_sentinel.Python.Json.{text}
use auto_sentinel.State.{AgentState, initial_state}
use auto_sentinel.Pipeline.{
  Agents, Services, Position, suspended, failed, Run, drive, resume, invoke,
}
use auto_sentinel.Benchmark.{is_some, succeeded}

-- `final_result`, `was_interrupted`, and the world after the `try` block.
pub record DetailRun (S : Type 0) : Type 0 where
  pub final_result : Option AgentState
  pub was_interrupted : Bool
  pub world : S

-- The dict that `_run_v2_detail` returns.
pub record Detail : Type 0 where
  pub resolved : Bool
  pub duration_ms : ℕ
  pub agent_trace : List String
  pub security_verdict : Option String
  pub routing_decision : Option String
  pub was_interrupted : Bool

-- `resolved`: this runner does not look at `execution_error`.
unfoldable pub detail_resolved : Option AgentState → Bool
detail_resolved none = false
detail_resolved (some st) = is_some st.report_text && succeeded st.execution_result

module _ {S : Type 0} (services : Services S) (agents : Agents S) (elapsed : S → S → ℕ) where
  -- The end of the last `graph.invoke`: an exception leaves `final_result` empty.
  abbrev pub final_of : Bool → Run S → Position → DetailRun S
  final_of interrupted r (failed e) = record {
    final_result = none;
    was_interrupted = interrupted;
    world = r.world;
  }
  final_of interrupted r p = record {
    final_result = some r.state;
    was_interrupted = interrupted;
    world = r.world;
  }

  -- A resumed run has two more nodes: the verifier and the report.
  abbrev pub detail_of : Run S → Position → DetailRun S
  detail_of r suspended =
      let after = drive services agents 2 (resume services agents (text "approved") r) in
      final_of true after after.position
  detail_of r p = final_of false r p

  -- The `try` block of `_run_v2_detail`.
  unfoldable pub detail_run : String → S → DetailRun S
  detail_run path s =
      let r = invoke services agents (initial_state path none) s in detail_of r r.position

  abbrev pub trace_of : Option AgentState → List String
  trace_of none = []
  trace_of (some st) = st.agent_trace

  abbrev pub verdict_in : Option AgentState → Option String
  verdict_in none = none
  verdict_in (some st) = st.security_verdict

  abbrev pub decision_in : Option AgentState → Option String
  decision_in none = none
  decision_in (some st) = st.routing_decision

  -- `_run_v2_detail`
  unfoldable pub run_detail : String → S → Detail
  unfolding detail_run detail_resolved
  run_detail path s =
      let d = detail_run path s in
      record {
        resolved = detail_resolved d.final_result;
        duration_ms = elapsed s d.world;
        agent_trace = trace_of d.final_result;
        security_verdict = verdict_in d.final_result;
        routing_decision = decision_in d.final_result;
        was_interrupted = d.was_interrupted;
      }
