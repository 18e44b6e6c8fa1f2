-- ===== src/Benchmark/Detail/Agreement.antt =====
-- The two definitions of a resolved incident, in autosentinel/benchmark.py and
-- scripts/run_benchmark.py.
use auto_sentinel.Prelude.{ℕ, String, ◌≡◌, refl, Bool, true, false, Option, none, some, arith}
use auto_sentinel.Python.Json.{text}
use auto_sentinel.State.{AgentState, ExecutionResult, initial_state}
use auto_sentinel.Pipeline.{
  Node, Agents, Services, Position, at, suspended, failed, Run, drive, resume, invoke,
}
use auto_sentinel.Benchmark.{resolved}
use auto_sentinel.Benchmark.Honest.{
  IsHonestResult, HonestAgents, HonestRun, HonestRun-drive, HonestRun-resume,
}
use auto_sentinel.Benchmark.Detail.{detail_resolved, final_of, detail_of, detail_run, run_detail}

Agree-honest :
    (st : AgentState) (r : Option ExecutionResult) (error : Option String)
    → st.execution_result ≡ r
    → st.execution_error ≡ error
    → IsHonestResult r error
    → detail_resolved (some st) ≡ resolved (some st)
unfolding detail_resolved resolved
Agree-honest st none error a b h = ground arith
Agree-honest st (some r) error a b (h, k) = ground arith

module _ {S : Type 0} (services : Services S) (agents : Agents S) (elapsed : S → S → ℕ)
    (honest : HonestAgents agents) where
  abbrev Agree : Option AgentState → Type 0
  Agree o = detail_resolved o ≡ resolved o

  Agree-final_of :
      (interrupted : Bool) (r : Run S) (p : Position)
      → HonestRun services agents honest r
      → Agree (final_of services agents elapsed interrupted r p).final_result
  unfolding detail_resolved resolved
  Agree-final_of interrupted r (failed e) h = refl
  Agree-final_of interrupted r p h =
      Agree-honest r.state r.state.execution_result r.state.execution_error refl refl h

  Agree-detail_of :
      (r : Run S) (p : Position)
      → HonestRun services agents honest r
      → Agree (detail_of services agents elapsed r p).final_result
  Agree-detail_of r suspended h =
      let after = drive services agents 2 (resume services agents (text "approved") r) in
      Agree-final_of true after after.position (
        HonestRun-drive services agents honest 2 (resume services agents (text "approved") r)
          (HonestRun-resume services agents honest (text "approved") r h))
  Agree-detail_of r p h = Agree-final_of false r p h

  -- The smoke benchmark does not look at `execution_error`, and still counts the run of a log as
  -- resolved exactly if `_run_v2` would count the state that it ends in. Of the agents, only the
  -- verifier writes an execution result or its error, and a result only without an error.
  pub run_detail-resolved :
      (path : String) (s : S)
      → (run_detail services agents elapsed path s).resolved
        ≡ resolved (detail_run services agents elapsed path s).final_result
  unfolding run_detail detail_run invoke initial_state
  run_detail-resolved path s =
      let r = invoke services agents (initial_state path none) s in
      Agree-detail_of r r.position (
        HonestRun-drive services agents honest 9
          (record { position = at Node.dispatch; state = initial_state path none; world = s }) tt)
