-- ===== src/Nodes/Report.antt =====
-- autosentinel/nodes/format_report.py: the markdown report and the result sidecar.
pub mod Sidecar
pub mod Vocabulary
use auto_sentinel.Prelude.{
  ℕ, suc, ◌+◌, String, Bool, true, false, ◌||◌, Option, none, some, List, [], ◌∷◌, if◌then◌else◌,
}
use auto_sentinel.Prelude.Int.{ℤ, pos}
use auto_sentinel.Prelude.Strings.{◌==◌, ◌+++◌, nonempty, join}
use auto_sentinel.Effects.{type_error, Result, ok, err, bind, Exec, pure, lift, ◌>>=◌, ◌>>◌}
use auto_sentinel.Python.{Python}
use auto_sentinel.Python.Json.{Value, integer}
use auto_sentinel.State.{
  AgentState, ErrorLog, Analysis, raw, result, AnalysisResult, ExecutionResult, Update, Write,
}
use auto_sentinel.Nodes.Files.{Files}
use Sidecar.{truthy_or, sidecar}

-- `analysis[…]`: a text cannot be indexed by a key, so a text ends the node with a TypeError.
unfoldable pub analysis_dict : Option Analysis → Result (Option AnalysisResult)
analysis_dict none = ok none
analysis_dict (some (raw s)) = err (type_error "string indices must be integers, not 'str'")
analysis_dict (some (result r)) = ok (some r)

-- `state["error_log"]`, indexed.
unfoldable pub log_dict : Option ErrorLog → Result ErrorLog
log_dict none = err (type_error "'NoneType' object is not subscriptable")
log_dict (some log) = ok log

module _ (py : Python) where
  abbrev pub show_int : ℤ → String
  show_int n = py.show (integer n)

  abbrev pub show_code : Option ℤ → String
  show_code none = "None"
  show_code (some n) = show_int n

  abbrev pub result_section : Option ExecutionResult → String
  result_section none = ""
  result_section (some r) =
      if r.status == "skipped"
      then "## Sandbox Execution\n\n**Status**: skipped (no fix script generated)\n"
      else "## Sandbox Execution\n\n**Status**: "
        +++ r.status
        +++ "\n**Return code**: "
        +++ show_code r.return_code
        +++ "\n**Duration**: "
        +++ show_int (pos r.duration_ms)
        +++ "ms\n\n### Output\n\n```\n"
        +++ r.stdout
        +++ "```\n\n### Errors\n\n```\n"
        +++ r.stderr
        +++ "```\n"

  -- `_sandbox_section`
  unfoldable pub sandbox_section : Option String → Option ExecutionResult → String
  sandbox_section none r = result_section r
  sandbox_section (some error) r =
      if nonempty error
      then "## Sandbox Execution\n\n**Status**: error\n**Reason**: " +++ error +++ "\n"
      else result_section r

  -- `_security_section`
  unfoldable pub security_section : AgentState → Option String → String
  security_section st none = ""
  security_section st (some verdict) =
      let display =
        if st.approval_required
        then "🚨 HIGH RISK — executed after human approval"
        else if verdict == "CAUTION"
        then "⚠ CAUTION"
        else verdict in
      let routing = truthy_or st.routing_decision "N/A" in
      "## Security Review\n\n**Verdict**: "
      +++ display
      +++ "\n**Routing**: "
      +++ routing
      +++ "\n**Agents**: "
      +++ join ", " st.agent_trace
      +++ "\n"

  -- `"\n".join(f"{i}. {step}" for i, step in enumerate(steps, 1))`
  abbrev pub numbered : ℕ → List String → List String
  numbered i [] = []
  numbered i (step ∷ steps) = (show_int (pos i) +++ ". " +++ step) ∷ numbered (suc i) steps

  module _ {S : Type 0} (files : Files S) where
    -- `_analysis_section`
    unfoldable pub analysis_section : Option AnalysisResult → String
    analysis_section none = ""
    analysis_section (some r) =
        "## Root Cause Analysis\n\n**Category**: "
        +++ r.error_category
        +++ "\n**Confidence**: "
        +++ files.percent r.confidence
        +++ "\n\n"
        +++ r.root_cause_hypothesis
        +++ "\n\n## Remediation Steps\n\n"
        +++ join "\n" (numbered 1 r.remediation_steps)
        +++ "\n\n"

    -- The text of the report.
    unfoldable pub report_of : AgentState → ErrorLog → Option AnalysisResult → String → String
    report_of st log analysis generated_at =
        "# Diagnostic Report: "
        +++ py.show log.service_name
        +++ "\n\n**Generated**: "
        +++ generated_at
        +++ "\n**Source log**: "
        +++ st.log_path
        +++ "\n\n## Error Summary\n\n- **Service**: "
        +++ py.show log.service_name
        +++ "\n- **Error type**: "
        +++ py.show log.error_type
        +++ "\n- **Timestamp**: "
        +++ py.show log.timestamp
        +++ "\n- **Message**: "
        +++ py.show log.message
        +++ "\n\n"
        +++ analysis_section analysis
        +++ sandbox_section st.execution_error st.execution_result
        +++ security_section st st.security_verdict
        +++ "---\n*Report generated by AutoSentinel Core Diagnostic Engine*\n"

    abbrev pub report_file : AgentState → String
    report_file st = "output/" +++ py.path_stem st.log_path +++ "-report.md"

    abbrev pub sidecar_file : AgentState → String
    sidecar_file st = "output/" +++ py.path_stem st.log_path +++ "-result.json"

    -- The end of `format_report`, with `_write_result_sidecar`.
    abbrev pub write_report : AgentState → String → Option AnalysisResult → ErrorLog → Exec S Update
    write_report st generated_at analysis log = do
      let report = report_of st log analysis generated_at
      let path = files.resolve (report_file st)
      files.make_dir "output"
      files.write_text (report_file st) report
      files.write_text (sidecar_file st) (py.dumps (sidecar py st log analysis path))
      pure (Write.report_text report ∷ Write.report_path path ∷ [])

    -- `format_report`
    unfoldable pub format_report : AgentState → Exec S Update
    format_report st = do
      generated_at ← λ s. (ok (files.utc_now s), s)
      analysis ← lift (analysis_dict st.analysis_result)
      log ← lift (log_dict st.error_log)
      write_report st generated_at analysis log
