-- ===== src/Api/Resume.antt =====
-- autosentinel/api/main.py: the route that resumes a suspended incident. The compiled graph on a
-- checkpointer is an object of langgraph; the logger is left out.
use auto_sentinel.Prelude.{String, ◌≡◌, refl, Bool, Option, none, some, List}
use auto_sentinel.Prelude.Strings.{◌+++◌}
use auto_sentinel.Effects.{ok, Exec, pure, ◌>>=◌}
use auto_sentinel.Python.{Python}
use auto_sentinel.Python.Json.{Value, text, object, field, end}
use auto_sentinel.State.{AgentState, ExecutionResult}
use auto_sentinel.Pipeline.Checkpoints.{Process, Savers, resolve_checkpointer}
use auto_sentinel.Api.Routes.{Reply, response, http_error}

pub record ResumeRequest : Type 0 where
  pub decision : String
  pub reviewer_notes : String

-- The dict that the route returns.
pub record ResumeResponse : Type 0 where
  pub incident_id : String
  pub trace_id : String
  pub decision : String
  pub approval_required : Bool
  pub security_verdict : Option String
  pub execution_status : Option String
  pub agent_trace : List String
  pub report_path : Option String

-- `graph.get_state(cfg).values`, which is empty where the saver has no checkpoint of the thread, and
-- `graph.invoke(Command(resume=...), cfg)`.
pub record Graph (Saver S : Type 0) : Type 0 where
  pub get_state : Saver → String → S → Option AgentState
  pub invoke_resume : Saver → Value → String → Exec S AgentState

-- `body.model_dump()`
abbrev pub dump_request : ResumeRequest → Value
dump_request r =
    object (field "decision" (text r.decision) (field "reviewer_notes" (text r.reviewer_notes) end))

-- `result.get("trace_id", incident_id)`: every node but `dispatch` leaves the key as it is.
abbrev pub id_or : Option String → String → String
id_or none incident_id = incident_id
id_or (some id) incident_id = id

-- `execution_result.get("status")`
abbrev pub status_or_none : Option ExecutionResult → Option String
status_or_none none = none
status_or_none (some r) = some r.status

abbrev pub resumed_as : String → ResumeRequest → AgentState → ResumeResponse
resumed_as incident_id body st = record {
  incident_id = incident_id;
  trace_id = id_or st.trace_id incident_id;
  decision = body.decision;
  approval_required = st.approval_required;
  security_verdict = st.security_verdict;
  execution_status = status_or_none st.execution_result;
  agent_trace = st.agent_trace;
  report_path = st.report_path;
}

module _ {Saver S : Type 0} (py : Python) (savers : Savers Saver S) (graph : Graph Saver S)
    (dsn : Option String) where
  -- A call of the graph leaves the globals of the process.
  abbrev pub on_world : {A : Type 0} → Exec S A → Exec (Process Saver S) A
  on_world m p = let (r, w) = m p.world in (r, record p { world = w })

  -- What the route does once it has looked for the snapshot.
  abbrev pub from_snapshot :
      String
      → ResumeRequest
      → Saver
      → Option AgentState
      → Exec (Process Saver S) (Reply ResumeResponse)
  from_snapshot incident_id body saver none =
      pure (http_error 404 ("no resumable incident " +++ py.repr incident_id))
  from_snapshot incident_id body saver (some snapshot) = do
    result ← on_world (graph.invoke_resume saver (dump_request body) incident_id)
    pure (response (resumed_as incident_id body result))

  abbrev pub with_saver :
      String → ResumeRequest → Saver → Exec (Process Saver S) (Reply ResumeResponse)
  with_saver incident_id body saver p =
      from_snapshot incident_id body saver (graph.get_state saver incident_id p.world) p

  -- `resume_incident`: the graph is built anew for each request.
  unfoldable pub resume_incident :
      String → ResumeRequest → Exec (Process Saver S) (Reply ResumeResponse)
  unfolding resolve_checkpointer
  resume_incident incident_id body = do
    saver ← resolve_checkpointer savers dsn none
    with_saver incident_id body saver

-- A saver in memory starts without checkpoints, wherever it is made.
abbrev pub StartsEmpty : {Saver S : Type 0} → Savers Saver S → Graph Saver S → Type 0
StartsEmpty {Saver} {S} savers graph =
    (w : S) (incident_id : String)
    → let (saver, after) = savers.memory_saver w in graph.get_state saver incident_id after ≡ none

-- The variable is absent or empty.
abbrev pub IsUnset : Option String → Type 0
IsUnset none = Unit
IsUnset (some dsn) = dsn ≡ ""

not_found :
    {Saver S : Type 0} (py : Python) (savers : Savers Saver S) (graph : Graph Saver S)
    (dsn : Option String) (incident_id : String) (body : ResumeRequest) (p : Process Saver S)
    (saver : Saver) (found : Option AgentState)
    → found ≡ none
    → from_snapshot py savers graph dsn incident_id body saver found p
      ≡ (ok (http_error 404 ("no resumable incident " +++ py.repr incident_id)), p)
not_found py savers graph dsn incident_id body p saver found h = rw h refl

-- Without a DSN in the environment, every request to resume is answered with 404 and changes nothing
-- but the world in which a saver is made, whatever incidents have been suspended: the saver that the
-- route asks is a new one, which has no checkpoints.
pub resume_without_dsn :
    {Saver S : Type 0} (py : Python) (savers : Savers Saver S) (graph : Graph Saver S)
    (dsn : Option String) (incident_id : String) (body : ResumeRequest) (p : Process Saver S)
    → StartsEmpty savers graph
    → IsUnset dsn
    → resume_incident py savers graph dsn incident_id body p ≡ (
      ok (http_error 404 ("no resumable incident " +++ py.repr incident_id)),
      record p { world = (savers.memory_saver p.world).1 },
    )
unfolding resume_incident resolve_checkpointer
resume_without_dsn py savers graph none incident_id body p empty h =
    let (saver, w) = savers.memory_saver p.world in
    not_found py savers graph none incident_id body (record p { world = w }) saver
      (graph.get_state saver incident_id w) (empty p.world incident_id)
resume_without_dsn py savers graph (some dsn) incident_id body p empty h =
    let (saver, w) = savers.memory_saver p.world in
    rw h (
      not_found py savers graph (some dsn) incident_id body (record p { world = w }) saver
        (graph.get_state saver incident_id w) (empty p.world incident_id))
