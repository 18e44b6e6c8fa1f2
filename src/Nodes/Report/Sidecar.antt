-- ===== src/Nodes/Report/Sidecar.antt =====
-- The machine-readable result of autosentinel/nodes/format_report.py. `format_report` has raised on
-- an analysis that is a text before any of these is called.
use auto_sentinel.Prelude.{
  String, Bool, false, ◌||◌, Option, none, some, List, [], ◌∷◌, if◌then◌else◌,
}
use auto_sentinel.Prelude.Strings.{◌==◌, ◌+++◌, nonempty, join}
use auto_sentinel.Python.{Python}
use auto_sentinel.Python.Json.{Value, text, object, field, end}
use auto_sentinel.State.{AgentState, ErrorLog, AnalysisResult}

-- `table.get(key)`, and `None` where the key is None.
unfoldable pub look_up : List (String × String) → Option String → Option String
look_up table none = none
look_up [] (some k) = none
look_up ((j, v) ∷ table) (some k) = if k == j then some v else look_up table (some k)

abbrev pub or_text : String → Option String → String
or_text d none = d
or_text d (some s) = s

-- `_ERROR_CATEGORY_MAP`
abbrev pub error_category_map : List (String × String)
error_category_map =
    ("CODE", "runtime") ∷ ("INFRA", "infra") ∷ ("CONFIG", "config") ∷ ("SECURITY", "unknown") ∷ []

-- `_SPECIALIST_MAP`
abbrev pub specialist_map : List (String × String)
specialist_map = ("code_fixer", "runtime") ∷ ("infra_sre", "infra") ∷ []

-- `_V1_CATEGORY_MAP`
abbrev pub v1_category_map : List (String × String)
v1_category_map =
    ("connectivity", "infra")
    ∷ ("resource_exhaustion", "infra")
    ∷ ("configuration", "config")
    ∷ ("application_logic", "runtime")
    ∷ []

-- `_RISK_MAP`
abbrev pub risk_map : List (String × String)
risk_map = ("SAFE", "low") ∷ ("CAUTION", "medium") ∷ ("HIGH_RISK", "high") ∷ []

abbrev pub v1_category : Option AnalysisResult → String
v1_category none = "unknown"
v1_category (some r) = or_text "unknown" (look_up v1_category_map (some r.error_category))

-- `_derive_category`
unfoldable pub derive_category : AgentState → Option AnalysisResult → String
unfolding look_up
derive_category st analysis =
    let by_specialist = or_text (v1_category analysis) (look_up specialist_map st.specialist) in
    or_text by_specialist (look_up error_category_map st.error_category)

abbrev pub is_high_risk : Option String → Bool
is_high_risk none = false
is_high_risk (some v) = v == "HIGH_RISK"

-- `_derive_severity`
unfoldable pub derive_severity : AgentState → String
derive_severity st =
    if is_high_risk st.security_verdict || st.approval_required then "high" else "medium"

-- `a or b`, where `a` may be None or empty.
abbrev pub truthy_or : Option String → String → String
truthy_or none d = d
truthy_or (some s) d = if nonempty s then s else d

abbrev pub hypothesis_of : Option AnalysisResult → Option String
hypothesis_of none = none
hypothesis_of (some r) = some r.root_cause_hypothesis

-- `_derive_summary`
unfoldable pub derive_summary : Python → AgentState → ErrorLog → Option AnalysisResult → String
derive_summary py st log analysis = truthy_or (hypothesis_of analysis) (
    truthy_or st.routing_decision (
      py.show log.error_type
      +++ " in "
      +++ py.show log.service_name
      +++ ": "
      +++ py.show log.message))

abbrev pub fix_text : AgentState → String
fix_text st = truthy_or st.fix_artifact (truthy_or st.fix_script "")

abbrev pub plan_of_steps : AgentState → List String → String
plan_of_steps st [] = fix_text st
plan_of_steps st (x ∷ xs) = join "\n" (x ∷ xs)

-- `_derive_fix`: its plan and its risk; the diff is always empty.
unfoldable pub derive_fix_plan : AgentState → Option AnalysisResult → String
derive_fix_plan st none = fix_text st
derive_fix_plan st (some r) = plan_of_steps st r.remediation_steps

unfoldable pub derive_risk : AgentState → String
unfolding look_up
derive_risk st = or_text "medium" (look_up risk_map st.security_verdict)

-- The JSON object that `_write_result_sidecar` dumps.
unfoldable pub sidecar : Python → AgentState → ErrorLog → Option AnalysisResult → String → Value
unfolding derive_category derive_severity derive_summary derive_fix_plan derive_risk
sidecar py st log analysis report_path = object (
    field "trace_id" (text (truthy_or st.trace_id (py.path_stem st.log_path))) (
      field "status" (text "completed") (
        field "diagnosis"
          (object (
            field "category" (text (derive_category st analysis)) (
              field "severity" (text (derive_severity st))
                (field "summary" (text (derive_summary py st log analysis)) end))))
          (field "fix"
            (object (
              field "fix_plan" (text (derive_fix_plan st analysis))
                (field "risk_level" (text (derive_risk st)) (field "code_diff" (text "") end))))
            (field "service_name" log.service_name
              (field "error_type" log.error_type (field "report_path" (text report_path) end)))))))
