-- ===== src/Benchmark/Summary/FalseNegatives.antt =====
-- The false negatives of scripts/run_benchmark.py, run by run.
use auto_sentinel.Prelude.{
  ℕ, String, ◌≡◌, refl, ◌∙◌, false, ◌&&◌, Option, some, List, [], ◌∷◌, if◌then◌else◌,
}
use auto_sentinel.Prelude.Strings.{◌==◌}
use auto_sentinel.Prelude.Dict.{Dict, find, find-here}
use auto_sentinel.Effects.{Exc, Result, ok, err, Exec, pure, continue}
use auto_sentinel.Llm.CostGuard.{CostGuardState}
use auto_sentinel.Pipeline.{Agents, Services}
use auto_sentinel.Benchmark.{BenchmarkScenario, BenchmarkResult, run_scenario, run_all}
use auto_sentinel.Benchmark.Summary.{verdicts, missed, is_dangerous, false_neg_ids}

-- The id is not the one of any of the scenarios.
abbrev pub Absent : String → List BenchmarkScenario → Type 0
Absent id [] = Unit
Absent id (x ∷ xs) = ((x.scenario_id == id) ≡ false) × Absent id xs

abbrev pub Distinct : List BenchmarkScenario → Type 0
Distinct [] = Unit
Distinct (x ∷ xs) = Absent x.scenario_id xs × Distinct xs

-- The ids of the dangerous scenarios whose own run gave another verdict than HIGH_RISK, or none.
abbrev pub missed_ids :
    List BenchmarkScenario → List (BenchmarkResult × Option String) → List String
missed_ids (x ∷ xs) ((r, verdict) ∷ rows) =
    if is_dangerous x && missed (some verdict)
    then x.scenario_id ∷ missed_ids xs rows
    else missed_ids xs rows
missed_ids xs rows = []

-- One row for each scenario.
abbrev Matched : List BenchmarkScenario → List (BenchmarkResult × Option String) → Type 0
Matched [] [] = Unit
Matched (x ∷ xs) (r ∷ rows) = Matched xs rows
Matched xs rows = ⊥

find-verdicts :
    (id : String) (xs : List BenchmarkScenario) (rows : List (BenchmarkResult × Option String))
    (known : Dict (Option String))
    → Absent id xs
    → find id (verdicts xs rows known) ≡ find id known
unfolding verdicts
find-verdicts id [] rows known h = refl
find-verdicts id (x ∷ xs) [] known h = refl
find-verdicts id (x ∷ xs) ((r, verdict) ∷ rows) known (h, hs) =
    find-verdicts id xs rows ((x.scenario_id, verdict) ∷ known) hs ∙ rw h refl

false_neg_ids-verdicts :
    (xs : List BenchmarkScenario) (rows : List (BenchmarkResult × Option String))
    (known : Dict (Option String))
    → Matched xs rows
    → Distinct xs
    → false_neg_ids xs (verdicts xs rows known) ≡ missed_ids xs rows
unfolding false_neg_ids verdicts
false_neg_ids-verdicts [] [] known m d = refl
false_neg_ids-verdicts [] (r ∷ rows) known m d = absurd m
false_neg_ids-verdicts (x ∷ xs) [] known m d = absurd m
false_neg_ids-verdicts (x ∷ xs) ((r, verdict) ∷ rows) known m (absent, d) =
    let mine =
      find-verdicts x.scenario_id xs rows ((x.scenario_id, verdict) ∷ known) absent
      ∙ find-here x.scenario_id verdict known in
    rw (mine, false_neg_ids-verdicts xs rows ((x.scenario_id, verdict) ∷ known) m d) refl

module _ {S : Type 0} (services : Services S) (agents : Agents S) (guard : S → CostGuardState)
    (elapsed : S → S → ℕ) (describe : Exc → String) where
  abbrev MatchedRun :
      List BenchmarkScenario → Result (List (BenchmarkResult × Option String)) × S → Type 0
  MatchedRun xs (err e, s) = Unit
  MatchedRun xs (ok rows, s) = Matched xs rows

  MatchedRun-cons :
      (x : BenchmarkScenario) (xs : List BenchmarkScenario)
      (q : Result (BenchmarkResult × Option String) × S)
      (m : Exec S (List (BenchmarkResult × Option String)))
      → ((s : S) → MatchedRun xs (m s))
      → MatchedRun (x ∷ xs) (continue q λ first. λ s. continue (m s) (λ rest. pure (first ∷ rest)))
  MatchedRun-cons x xs (err e, s) m h = tt
  MatchedRun-cons x xs (ok first, s) m h = added (m s) (h s)
    where
      added :
          (q : Result (List (BenchmarkResult × Option String)) × S)
          → MatchedRun xs q
          → MatchedRun (x ∷ xs) (continue q (λ rest. pure (first ∷ rest)))
      added (err e, w) k = tt
      added (ok rest, w) k = k

  MatchedRun-run_all :
      (xs : List BenchmarkScenario) (s : S)
      → MatchedRun xs (run_all services agents guard elapsed describe xs s)
  unfolding run_all
  MatchedRun-run_all [] s = tt
  MatchedRun-run_all (x ∷ xs) s =
      MatchedRun-cons x xs (run_scenario services agents guard elapsed describe x s)
        (run_all services agents guard elapsed describe xs) (MatchedRun-run_all xs)

  -- The false negatives of a benchmark that has returned.
  abbrev pub FalseNegatives :
      List BenchmarkScenario → Result (List (BenchmarkResult × Option String)) × S → Type 0
  FalseNegatives xs (err e, s) = Unit
  FalseNegatives xs (ok rows, s) = false_neg_ids xs (verdicts xs rows []) ≡ missed_ids xs rows

  FalseNegatives-matched :
      (xs : List BenchmarkScenario) (q : Result (List (BenchmarkResult × Option String)) × S)
      → MatchedRun xs q
      → Distinct xs
      → FalseNegatives xs q
  FalseNegatives-matched xs (err e, s) m d = tt
  FalseNegatives-matched xs (ok rows, s) m d = false_neg_ids-verdicts xs rows [] m d

  -- If no two scenarios share an id and the benchmark returns, the false negatives of the summary are
  -- the SECURITY scenarios labelled HIGH_RISK whose own run gave another verdict, or none at all: the
  -- dict of verdicts mixes up no runs.
  pub run_all-FalseNegatives :
      (xs : List BenchmarkScenario) (s : S)
      → Distinct xs
      → FalseNegatives xs (run_all services agents guard elapsed describe xs s)
  run_all-FalseNegatives xs s d =
      FalseNegatives-matched xs (run_all services agents guard elapsed describe xs s)
        (MatchedRun-run_all xs s) d
