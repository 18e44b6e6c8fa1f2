-- ===== src/Tests/Benchmark.antt =====
-- The theorems on scripts/run_benchmark.py at concrete scenarios.
use auto_sentinel.Prelude.{ℕ, ◌-◌, String, List, refl, true, none, some, [], ◌∷◌, ◌≡◌}
use auto_sentinel.Prelude.Int.{pos}
use auto_sentinel.Effects.{cny, Exc, other_error, ok, err, Exec, pure}
use auto_sentinel.State.{AgentState, Update, Write, merge}
use auto_sentinel.Llm.CostGuard.{CostGuardState}
use auto_sentinel.Nodes.ParseLog
use auto_sentinel.Nodes.Report
use auto_sentinel.Agents.Verifier.{outcome_of}
use auto_sentinel.Pipeline.{Agents}
use auto_sentinel.Benchmark.{BenchmarkScenario, BenchmarkResult, run_all, resolved}
use auto_sentinel.Benchmark.Honest.{HonestAgents}
use auto_sentinel.Benchmark.Ledger.{Accounted, run_all-Accounted}
use auto_sentinel.Benchmark.Summary.{false_neg_ids, verdicts}
use auto_sentinel.Benchmark.Summary.FalseNegatives.{FalseNegatives, run_all-FalseNegatives}
use auto_sentinel.Benchmark.Detail.{run_detail, detail_run}
use auto_sentinel.Benchmark.Detail.Agreement.{run_detail-resolved}
use auto_sentinel.Python.Json.{null}
use auto_sentinel.Benchmark.Scenarios.{Catalog, load_files}
use auto_sentinel.Benchmark.Percentile.{Interpolation, percentile}
use auto_sentinel.Benchmark.Percentile.Order.{OrderStatistic, percentile-OrderStatistic}
use auto_sentinel.Benchmark.Smoke.{Arithmetic, run_benchmark}
use auto_sentinel.Benchmark.Smoke.Reports.{Reported, run_benchmark-Reported}
use auto_sentinel.Tests.{World, idle, services}

abbrev quiet : AgentState → Exec World Update
quiet st = pure []

-- A supervisor whose call the guard books, and a fix that is held for approval and then succeeds.
abbrev pub agents : Agents World
agents = record {
  diagnosis = quiet;
  supervisor = λ st w. (ok [], record w { calls = 5 });
  code_fixer = quiet;
  infra_sre = quiet;
  security_reviewer = λ st. pure (Write.security_verdict "HIGH_RISK" ∷ []);
  verifier = λ st. pure (
      Write.execution_result (some (outcome_of "success" (some (pos 0)) "" "" 0))
      ∷ Write.execution_error none
      ∷ []);
  specialist_key = λ category. "code_fixer";
}

abbrev pub guard : World → CostGuardState
guard w = record {
  total_spent = pos w.calls;
  budget_limit = pos 150;
  currency = cny;
  call_count = w.calls;
  last_updated = none;
}

abbrev pub elapsed : World → World → ℕ
elapsed v w = 0

abbrev pub describe : Exc → String
describe e = "error"

abbrev pub scenario : BenchmarkScenario
scenario = record {
  scenario_id = "001_security_wipe";
  category = "SECURITY";
  error_log_path = "/logs/a.json";
  expected_classification = "SECURITY";
  expected_resolution_action = "rotate the key";
  expected_security_verdict = "HIGH_RISK";
  ground_truth_notes = "a key in the log";
  human_labeled_by = "operator";
  labeled_at = "2026-05-01";
}

run_all-Accounted_example :
    Accounted services agents guard elapsed describe
      (λ s. refl)
      idle
      (run_all services agents guard elapsed describe (scenario ∷ scenario ∷ []) idle)
run_all-Accounted_example =
    run_all-Accounted services agents guard elapsed describe (λ s. refl) (scenario ∷ scenario ∷ [])
      idle

agents-HonestAgents : HonestAgents agents
unfolding merge
agents-HonestAgents = record {
  diagnosis = λ st s. (refl, refl);
  supervisor = λ st s. (refl, refl);
  code_fixer = λ st s. (refl, refl);
  infra_sre = λ st s. (refl, refl);
  security_reviewer = λ st s. (refl, refl);
  verifier = λ st s. (refl, refl);
}

abbrev passed_result : BenchmarkResult
passed_result = record {
  scenario_id = "001_security_wipe";
  actual_classification = "UNKNOWN";
  actual_resolution = "(none)";
  passed = true;
  latency_ms = 0;
  cost = pos 5;
  currency = "CNY";
  trace_id = "0123456789abcdef0123456789abcdef";
  error = none;
}

abbrev lookup_scenario : BenchmarkScenario
lookup_scenario = record scenario { scenario_id = "002_code_lookup"; category = "CODE" }

run_all-FalseNegatives_example :
    FalseNegatives services agents guard elapsed describe
      (scenario ∷ lookup_scenario ∷ [])
      (run_all services agents guard elapsed describe (scenario ∷ lookup_scenario ∷ []) idle)
run_all-FalseNegatives_example =
    run_all-FalseNegatives services agents guard elapsed describe (scenario ∷ lookup_scenario ∷ [])
      idle ((refl, tt), (tt, tt))

-- A dangerous scenario whose run gave no verdict is a false negative.
one_missed :
    false_neg_ids (scenario ∷ []) (verdicts (scenario ∷ []) ((passed_result, none) ∷ []) [])
    ≡ "001_security_wipe" ∷ []
unfolding false_neg_ids verdicts
one_missed = refl

run_detail-resolved_example :
    (run_detail services agents elapsed "/logs/a.json" idle).resolved
    ≡ resolved (detail_run services agents elapsed "/logs/a.json" idle).final_result
run_detail-resolved_example =
    run_detail-resolved services agents elapsed agents-HonestAgents "/logs/a.json" idle

abbrev pub catalog : List String → Catalog World
catalog paths = record {
  yamls = λ s. paths;
  parse = λ raw. ok null;
  typed = λ v. some scenario;
  digit = λ c. true;
}

abbrev pub arithmetic : Arithmetic
arithmetic = record {
  quotient = λ a b. record { bits = a };
  truncate = λ x. x.bits;
  round_hundredths = λ x. x;
  number = λ x. null;
}

run_benchmark-Reported_example :
    Reported arithmetic services agents elapsed
      (catalog ("001.yaml" ∷ []))
      idle
      (run_benchmark arithmetic services agents elapsed (catalog ("001.yaml" ∷ [])) idle)
run_benchmark-Reported_example =
    run_benchmark-Reported arithmetic services agents elapsed (catalog ("001.yaml" ∷ [])) idle

no_scenario :
    run_benchmark arithmetic services agents elapsed (catalog []) idle
    ≡ (err (other_error "division by zero"), idle)
unfolding run_benchmark load_files
no_scenario = refl

-- The rank is the last but one, and the interpolation takes its second end.
abbrev pub interpolation : Interpolation
interpolation = record {
  rank = λ n pct. record { bits = n - 2 };
  floor = λ x. x.bits;
  between = λ a b k lo. b;
}

percentile-OrderStatistic_example :
    OrderStatistic interpolation 3
      (5 ∷ 9 ∷ 3 ∷ [])
      95
      (percentile interpolation (5 ∷ 9 ∷ 3 ∷ []) 95)
percentile-OrderStatistic_example = percentile-OrderStatistic interpolation (5 ∷ 9 ∷ 3 ∷ []) 95
