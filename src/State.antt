-- ===== src/State.antt =====
-- autosentinel/models.py: the state that the nodes of the pipeline share, and the partial updates
-- that they return. A key that is absent and a key that holds None are both `none`, except where
-- the code tells them apart.
use auto_sentinel.Prelude.{ℕ, String, Bool, false, Option, none, some, List, [], ◌∷◌, ◌++◌}
use auto_sentinel.Prelude.Int.{ℤ}
use auto_sentinel.Python.Json.{Value}
use auto_sentinel.Llm.Client.{Float}

-- The fields hold whatever the log's JSON held.
pub record ErrorLog : Type 0 where
  pub timestamp : Value
  pub service_name : Value
  pub error_type : Value
  pub message : Value
  pub stack_trace : Value

pub record AnalysisResult : Type 0 where
  pub error_category : String
  pub root_cause_hypothesis : String
  pub confidence : Float
  pub remediation_steps : List String

-- The hold-out evaluation passes a text in place of an `AnalysisResult`.
pub data Analysis : Type 0 where
  raw : String → Analysis
  result : AnalysisResult → Analysis

pub record ExecutionResult : Type 0 where
  pub status : String
  pub return_code : Option ℤ
  pub stdout : String
  pub stderr : String
  pub duration_ms : ℕ
  pub error : Option String

-- `fix_normalization`
pub record Normalization : Type 0 where
  pub outcome : String
  pub reason : Option String

pub record AgentState : Type 0 where
  pub log_path : String
  pub error_log : Option ErrorLog
  pub parse_error : Option String
  pub analysis_result : Option Analysis
  pub analysis_error : Option String
  pub fix_script : Option String
  pub execution_result : Option ExecutionResult
  pub execution_error : Option String
  pub report_text : Option String
  pub report_path : Option String
  pub error_category : Option String
  pub fix_artifact : Option String
  pub security_verdict : Option String
  pub routing_decision : Option String
  pub specialist : Option String
  pub agent_trace : List String
  pub approval_required : Bool
  pub trace_id : Option String
  pub cost_accumulated : Option Float
  pub security_classifier_model : Option String
  pub cost_exhausted : Bool
  pub fix_normalization : Option Normalization

-- One key of a dict that a node returns; the keys are those that some node writes.
pub data Write : Type 0 where
  error_log : Option ErrorLog → Write
  parse_error : Option String → Write
  error_category : String → Write
  specialist : String → Write
  routing_decision : String → Write
  fix_artifact : String → Write
  security_verdict : String → Write
  security_classifier_model : String → Write
  approval_required : Bool → Write
  execution_result : Option ExecutionResult → Write
  execution_error : Option String → Write
  fix_normalization : Normalization → Write
  report_text : String → Write
  report_path : String → Write
  trace_id : String → Write
  cost_accumulated : Float → Write
  cost_exhausted : Bool → Write
  agent_trace : List String → Write

abbrev pub Update : Type 0
Update = List Write

-- A key's reducer: `agent_trace` is annotated with `operator.add`, every other key is replaced.
unfoldable pub write : Write → AgentState → AgentState
write (Write.error_log x) s = record s { error_log = x }
write (Write.parse_error x) s = record s { parse_error = x }
write (Write.error_category x) s = record s { error_category = some x }
write (Write.specialist x) s = record s { specialist = some x }
write (Write.routing_decision x) s = record s { routing_decision = some x }
write (Write.fix_artifact x) s = record s { fix_artifact = some x }
write (Write.security_verdict x) s = record s { security_verdict = some x }
write (Write.security_classifier_model x) s = record s { security_classifier_model = some x }
write (Write.approval_required x) s = record s { approval_required = x }
write (Write.execution_result x) s = record s { execution_result = x }
write (Write.execution_error x) s = record s { execution_error = x }
write (Write.fix_normalization x) s = record s { fix_normalization = some x }
write (Write.report_text x) s = record s { report_text = some x }
write (Write.report_path x) s = record s { report_path = some x }
write (Write.trace_id x) s = record s { trace_id = some x }
write (Write.cost_accumulated x) s = record s { cost_accumulated = some x }
write (Write.cost_exhausted x) s = record s { cost_exhausted = x }
write (Write.agent_trace x) s = record s { agent_trace = s.agent_trace ++ x }

-- The state after a node's update.
unfoldable pub merge : Update → AgentState → AgentState
unfolding write
merge [] s = s
merge (x ∷ xs) s = merge xs (write x s)

-- The state that `run_pipeline` starts from.
unfoldable pub initial_state : String → Option String → AgentState
initial_state path id = record {
  log_path = path;
  error_log = none;
  parse_error = none;
  analysis_result = none;
  analysis_error = none;
  fix_script = none;
  execution_result = none;
  execution_error = none;
  report_text = none;
  report_path = none;
  error_category = none;
  fix_artifact = none;
  security_verdict = none;
  routing_decision = none;
  specialist = none;
  agent_trace = [];
  approval_required = false;
  trace_id = id;
  cost_accumulated = none;
  security_classifier_model = none;
  cost_exhausted = false;
  fix_normalization = none;
}
