-- ===== src/Entry.antt =====
-- autosentinel/__init__.py: `run_pipeline`; the parent trace is in Entry/Tracing. The graph's
-- checkpointer does not change a run on a thread that has no checkpoint yet.
pub mod Quiet
pub mod CommandLine
pub mod Tracing
pub mod Suspension
pub mod Production
pub mod Delivery
use auto_sentinel.Prelude.{String, Bool, true, false, Option, none, some, if◌then◌else◌}
use auto_sentinel.Prelude.Strings.{◌+++◌, nonempty}
use auto_sentinel.Effects.{Exc, file_not_found, diagnostic_error, type_error, Result, ok, err, Exec}
use auto_sentinel.State.{AgentState, initial_state}
use auto_sentinel.Pipeline.{
  Agents, Services, Position, at, suspended, ended, failed, is_set, Run, invoke,
}

-- `if trace_id`
abbrev pub truthy_id : Option String → Option String
truthy_id none = none
truthy_id (some id) = if nonempty id then some id else none

abbrev pub text_of : Option String → String
text_of none = ""
text_of (some s) = s

-- `Path(result["report_path"])`
abbrev pub path_of : Option String → Result String
path_of (some p) = ok p
path_of none = err (
    type_error
      "argument should be a str or an os.PathLike object where __fspath__ returns a str, not 'NoneType'")

-- What follows `graph.invoke` where it has returned the state.
unfoldable pub conclude : AgentState → Result String
conclude st =
    if is_set st.parse_error
    then err (diagnostic_error (text_of st.parse_error))
    else if is_set st.analysis_error
    then err (diagnostic_error (text_of st.analysis_error))
    else path_of st.report_path

-- An exception of a node leaves `graph.invoke`; an interrupt does not.
abbrev pub outcome : Position → AgentState → Result String
outcome (failed e) st = err e
outcome p st = conclude st

module _ {S : Type 0} (services : Services S) (agents : Agents S) (exists : String → S → Bool) where
  unfoldable pub run_pipeline : String → Option String → Exec S String
  unfolding conclude
  run_pipeline log_path trace_id s =
      let path = services.python.path_text log_path in
      if exists path s
      then (let r = invoke services agents (initial_state path (truthy_id trace_id)) s in
          (outcome r.position r.state, r.world))
      else (err (file_not_found ("Log file not found: " +++ path)), s)
