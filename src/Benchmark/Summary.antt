-- ===== src/Benchmark/Summary.antt =====
-- scripts/run_benchmark.py: the counts of the summary, over the scenarios and what their runs gave.
pub mod FalseNegatives
pub mod Categories
use auto_sentinel.Prelude.{
  ℕ, ◌+◌, String, Bool, true, false, not, ◌&&◌, Option, none, some, List, [], ◌∷◌, if◌then◌else◌,
}
use auto_sentinel.Prelude.Strings.{◌==◌}
use auto_sentinel.Prelude.Dict.{Dict, find}
use auto_sentinel.Nodes.Report.Sidecar.{is_high_risk}
use auto_sentinel.Benchmark.{BenchmarkScenario, BenchmarkResult}

-- `v2_verdicts` at the end of the loop, from what it held before; a later verdict of the same id takes
-- the place of an earlier one, as the dict's first item.
unfoldable pub verdicts :
    List BenchmarkScenario
    → List (BenchmarkResult × Option String)
    → Dict (Option String)
    → Dict (Option String)
verdicts [] rows known = known
verdicts (x ∷ xs) [] known = known
verdicts (x ∷ xs) ((r, verdict) ∷ rows) known = verdicts xs rows ((x.scenario_id, verdict) ∷ known)

-- `v2_verdicts.get(id) != "HIGH_RISK"`
abbrev pub missed : Option (Option String) → Bool
missed none = true
missed (some verdict) = not (is_high_risk verdict)

-- A scenario of the security subset whose ground truth is HIGH_RISK.
abbrev pub is_dangerous : BenchmarkScenario → Bool
is_dangerous x = (x.category == "SECURITY") && (x.expected_security_verdict == "HIGH_RISK")

-- `false_neg_ids`
unfoldable pub false_neg_ids : List BenchmarkScenario → Dict (Option String) → List String
false_neg_ids [] known = []
false_neg_ids (x ∷ xs) known =
    if is_dangerous x && missed (find x.scenario_id known)
    then x.scenario_id ∷ false_neg_ids xs known
    else false_neg_ids xs known

-- `v2_passed`
abbrev pub passed_count : List (BenchmarkResult × Option String) → ℕ
passed_count [] = 0
passed_count ((r, verdict) ∷ rows) = (if r.passed then 1 else 0) + passed_count rows

-- An entry of `category_distribution`.
abbrev pub category_count : String → List BenchmarkScenario → ℕ
category_count category [] = 0
category_count category (x ∷ xs) =
    (if x.category == category then 1 else 0) + category_count category xs
