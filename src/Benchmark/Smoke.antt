-- ===== src/Benchmark/Smoke.antt =====
-- autosentinel/benchmark.py: the loop of the smoke benchmark and its report.
pub mod Reports
use auto_sentinel.Prelude.{
  ℕ, zero, suc, ◌+◌, String, Bool, Option, none, some, List, [], ◌∷◌, if◌then◌else◌, length,
}
use auto_sentinel.Prelude.Int.{pos}
use auto_sentinel.Effects.{other_error, Result, ok, err, Exec, pure, lift, ◌>>=◌, ◌>>◌}
use auto_sentinel.Python.Json.{
  Value, null, boolean, integer, text, array, object, Items, nil, cons, field, end,
}
use auto_sentinel.Llm.Client.{Float}
use auto_sentinel.Pipeline.{Agents, Services}
use auto_sentinel.Benchmark.{BenchmarkScenario}
use auto_sentinel.Benchmark.Detail.{Detail, detail_run, run_detail}
use auto_sentinel.Benchmark.Scenarios.{Catalog, load_scenarios}

-- The floating-point operations of the report: `a / b`, `int(x)`, `round(x, 2)` and the JSON number.
pub record Arithmetic : Type 0 where
  pub quotient : ℕ → ℕ → Float
  pub truncate : Float → ℕ
  pub round_hundredths : Float → Float
  pub number : Float → Value

-- An item of `scenario_details`.
pub record ScenarioDetail : Type 0 where
  pub id : String
  pub category : String
  pub detail : Detail

pub record SmokeReport : Type 0 where
  pub scenario_count : ℕ
  pub resolution_rate : Float
  pub avg_ms : ℕ
  pub scenarios : List ScenarioDetail

-- `resolved_count`
abbrev pub resolved_count : List ScenarioDetail → ℕ
resolved_count [] = 0
resolved_count (x ∷ xs) = (if x.detail.resolved then 1 else 0) + resolved_count xs

-- `sum(r["duration_ms"] for r in results)`
abbrev pub total_ms : List ScenarioDetail → ℕ
total_ms [] = 0
total_ms (x ∷ xs) = x.detail.duration_ms + total_ms xs

abbrev pub texts : List String → Items
texts [] = nil
texts (s ∷ ss) = cons (text s) (texts ss)

abbrev pub option_text : Option String → Value
option_text none = null
option_text (some s) = text s

abbrev pub detail_value : ScenarioDetail → Value
detail_value x = object (
    field "id" (text x.id) (
      field "category" (text x.category) (
        field "resolved" (boolean x.detail.resolved) (
          field "duration_ms" (integer (pos x.detail.duration_ms)) (
            field "agent_trace" (array (texts x.detail.agent_trace)) (
              field "security_verdict" (option_text x.detail.security_verdict) (
                field "routing_decision" (option_text x.detail.routing_decision)
                  (field "was_interrupted" (boolean x.detail.was_interrupted) end))))))))

abbrev pub detail_values : List ScenarioDetail → Items
detail_values [] = nil
detail_values (x ∷ xs) = cons (detail_value x) (detail_values xs)

module _ (arithmetic : Arithmetic) where
  open arithmetic use {quotient, truncate, round_hundredths, number}

  -- `a / b`
  unfoldable pub divide : ℕ → ℕ → Result Float
  divide a zero = err (other_error "division by zero")
  divide a (suc b) = ok (quotient a (suc b))

  abbrev pub report_value : SmokeReport → Value
  report_value r = object (
      field "scenario_count" (integer (pos r.scenario_count)) (
        field "resolution_rate" (number r.resolution_rate) (
          field "avg_ms" (integer (pos r.avg_ms)) (
            field "resolved_definition"
              (text "report_text present AND execution_result.status == 'success'")
              (field "scenarios" (array (detail_values r.scenarios)) end)))))

  module _ {S : Type 0} (services : Services S) (agents : Agents S) (elapsed : S → S → ℕ)
      (catalog : Catalog S) where
    -- The loop of `run_benchmark`.
    unfoldable pub run_details : List BenchmarkScenario → Exec S (List ScenarioDetail)
    unfolding run_detail detail_run
    run_details [] = pure []
    run_details (x ∷ xs) = do
      detail ← λ s. (
        ok (run_detail services agents elapsed x.error_log_path s),
        (detail_run services agents elapsed x.error_log_path s).world,
      )
      rest ← run_details xs
      pure ((record { id = x.scenario_id; category = x.category; detail = detail }) ∷ rest)

    -- The report, from the number of scenarios and their details.
    abbrev pub report_of : ℕ → List ScenarioDetail → Exec S SmokeReport
    report_of count details = do
      mean ← lift (divide (total_ms details) count)
      rate ← lift (divide (resolved_count details) count)
      pure (record {
        scenario_count = count;
        resolution_rate = round_hundredths rate;
        avg_ms = truncate mean;
        scenarios = details;
      })

    abbrev pub written : SmokeReport → Exec S SmokeReport
    written report = do
      services.files.make_dir "output"
      services.files.write_text "output/benchmark-report.json"
          (services.python.dumps (report_value report))
      pure report

    -- `run_benchmark`
    unfoldable pub run_benchmark : Exec S SmokeReport
    unfolding run_details divide
    run_benchmark = do
      scenarios ← load_scenarios services.files catalog
      details ← run_details scenarios
      report ← report_of (length scenarios) details
      written report
