-- ===== src/Benchmark/Publish.antt =====
-- scripts/run_benchmark.py: `run` with the production agents, and the summary that it writes. The clock,
-- git, the environment and the floating-point operations are parameters. The rows of results.jsonl are
-- written one by one, and stand here as one text.
pub mod Totals
use auto_sentinel.Prelude.{
  ℕ, zero, suc, String, Option, none, some, List, [], ◌∷◌, if◌then◌else◌, length,
}
use auto_sentinel.Prelude.Int.{ℤ, pos}
use auto_sentinel.Prelude.Strings.{◌+++◌, strip, is_one_of}
use auto_sentinel.Effects.{Exc, ok, Exec, pure, lift, ◌>>=◌, ◌>>◌}
use auto_sentinel.Python.Json.{
  Value, boolean, integer, text, array, object, Items, nil, cons, field, end,
}
use auto_sentinel.Llm.Client.{Float}
use auto_sentinel.Llm.CostGuard.{CostGuardState}
use auto_sentinel.Pipeline.{Agents, Services}
use auto_sentinel.Scripts.Authorship.{Git, Ran, printed}
use auto_sentinel.Benchmark.{BenchmarkScenario, BenchmarkResult, run_all, total_cost}
use auto_sentinel.Benchmark.Summary.{verdicts, false_neg_ids, passed_count, category_count}
use auto_sentinel.Benchmark.Scenarios.{Catalog, load_scenarios}
use auto_sentinel.Benchmark.Smoke.{Arithmetic, texts, option_text}
use auto_sentinel.Benchmark.Percentile.{Interpolation, percentile}

-- What the runner uses and does not implement.
pub record Desk (S : Type 0) : Type 0 where
  -- `os.environ[key] = value`, `cost_guard_mod._singleton = None`, and the stamp of the run's id.
  pub set_env : String → String → S → S
  pub reset_guard : S → S
  pub stamp : S → String
  pub git : Git
  -- `json.dumps` of a row, and the double 0.0.
  pub dumps_line : Value → String
  pub zero_rate : Float

pub record Summary : Type 0 where
  pub run_id : String
  pub scenario_count : ℕ
  pub code : ℕ
  pub infra : ℕ
  pub security : ℕ
  pub config : ℕ
  pub p50 : ℕ
  pub p95 : ℕ
  pub total : ℤ
  pub resolution_rate : Float
  pub false_negatives : List String

-- `_git_short_sha`: any failure is `nogit`.
abbrev pub short_sha : Ran → String
short_sha (printed s) = strip s
short_sha other = "nogit"

-- `only`
abbrev pub selected : Option (List String) → List BenchmarkScenario → List BenchmarkScenario
selected none xs = xs
selected (some only) [] = []
selected (some only) (x ∷ xs) =
    if is_one_of x.scenario_id only then x ∷ selected (some only) xs else selected (some only) xs

-- `v2_latencies`
abbrev pub latencies : List (BenchmarkResult × Option String) → List ℕ
latencies [] = []
latencies ((r, verdict) ∷ rows) = r.latency_ms ∷ latencies rows

module _ {S : Type 0} (services : Services S) (agents : Agents S) (guard : S → CostGuardState)
    (elapsed : S → S → ℕ) (describe : Exc → String) (catalog : Catalog S) (desk : Desk S)
    (arithmetic : Arithmetic) (interpolation : Interpolation) where
  open arithmetic use {quotient, round_hundredths, number}

  -- `round(v2_passed / n, 2) if n else 0.0`
  abbrev pub rate_of : ℕ → ℕ → Float
  rate_of passed zero = desk.zero_rate
  rate_of passed (suc n) = round_hundredths (quotient passed (suc n))

  -- `r.model_dump(mode="json")`
  abbrev pub row_value : BenchmarkResult → Value
  row_value r = object (
      field "scenario_id" (text r.scenario_id) (
        field "actual_classification" (text r.actual_classification) (
          field "actual_resolution" (text r.actual_resolution) (
            field "passed" (boolean r.passed) (
              field "latency_ms" (integer (pos r.latency_ms)) (
                field "cost" (text (services.python.show_decimal r.cost)) (
                  field "currency" (text r.currency) (
                    field "trace_id" (text r.trace_id)
                      (field "error" (option_text r.error) end)))))))))

  abbrev pub jsonl : List (BenchmarkResult × Option String) → String
  jsonl [] = ""
  jsonl ((r, verdict) ∷ rows) = desk.dumps_line (row_value r) +++ "\n" +++ jsonl rows

  abbrev pub pipeline_value : Summary → Value
  pipeline_value x = object (
      field "latency_ms"
        (object (field "p50" (integer (pos x.p50)) (field "p95" (integer (pos x.p95)) end)))
        (field "total_cost" (text (services.python.show_decimal x.total)) (
          field "cost_currency" (text "CNY") (
            field "resolution_rate" (number x.resolution_rate) (
              field "resolved_definition"
                (text
                  "report_text present AND no execution_error AND execution_result.status == 'success'")
                end)))))

  abbrev pub summary_value : Summary → Value
  summary_value x = object (
      field "run_id" (text x.run_id) (
        field "scenario_count" (integer (pos x.scenario_count)) (
          field "category_distribution"
            (object (
              field "CODE" (integer (pos x.code)) (
                field "INFRA" (integer (pos x.infra)) (
                  field "SECURITY" (integer (pos x.security))
                    (field "CONFIG" (integer (pos x.config)) end)))))
            (field "pipeline" (pipeline_value x) (
              field "security_subset"
                (object (
                  field "count" (integer (pos x.security)) (
                    field "false_negative_count" (integer (pos (length x.false_negatives)))
                      (field "false_negative_scenario_ids" (array (texts x.false_negatives)) end))))
                end)))))

  abbrev pub summary_of :
      List BenchmarkScenario → List (BenchmarkResult × Option String) → Exec S Summary
  summary_of scenarios rows = do
    low ← lift (percentile interpolation (latencies rows) 50)
    high ← lift (percentile interpolation (latencies rows) 95)
    id ← λ s. (
      ok (desk.stamp s +++ "-" +++ short_sha (desk.git ("rev-parse" ∷ "--short" ∷ "HEAD" ∷ []))),
      s,
    )
    pure (record {
      run_id = id;
      scenario_count = length scenarios;
      code = category_count "CODE" scenarios;
      infra = category_count "INFRA" scenarios;
      security = category_count "SECURITY" scenarios;
      config = category_count "CONFIG" scenarios;
      p50 = low;
      p95 = high;
      total = total_cost rows;
      resolution_rate = rate_of (passed_count rows) (length scenarios);
      false_negatives = false_neg_ids scenarios (verdicts scenarios rows []);
    })

  abbrev pub published : String → List (BenchmarkResult × Option String) → Summary → Exec S Summary
  published root rows x = do
    services.files.make_dir (root +++ "/" +++ x.run_id)
    services.files.write_text (root +++ "/" +++ x.run_id +++ "/results.jsonl") (jsonl rows)
    services.files.write_text (root +++ "/" +++ x.run_id +++ "/summary.json")
        (services.python.dumps (summary_value x))
    pure x

  -- The budget is set, and the guard is made anew.
  abbrev pub prepared : String → Exec S (Unit {0})
  prepared budget s =
      (ok tt, desk.reset_guard (desk.set_env "AUTOSENTINEL_BUDGET_LIMIT_CNY" budget s))

  -- `run` without `use_mock`.
  unfoldable pub run : String → Option (List String) → String → Exec S Summary
  unfolding run_all percentile verdicts false_neg_ids ◌+++◌ strip is_one_of
  run budget only root = do
    prepared budget
    loaded ← load_scenarios services.files catalog
    rows ← run_all services agents guard elapsed describe (selected only loaded)
    x ← summary_of (selected only loaded) rows
    published root rows x
