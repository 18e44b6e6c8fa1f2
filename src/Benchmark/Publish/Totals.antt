-- ===== src/Benchmark/Publish/Totals.antt =====
-- The counts of the summary that scripts/run_benchmark.py writes.
use auto_sentinel.Prelude.{
  ℕ, ◌+◌, ◌≤◌, String, ◌≡◌, inl, inr, true, ◌&&◌, Bool-cases, Option, none, some, List, [], ◌∷◌,
  length, arith,
}
use auto_sentinel.Prelude.Dict.{Dict}
use auto_sentinel.Prelude.Strings.{nonempty, is_one_of}
use auto_sentinel.Prelude.Strings.Affixes.{and-split}
use auto_sentinel.Prelude.Strings.Members.{none_stands, stands_cases}
use auto_sentinel.Effects.{Exc, Result, ok, err, Exec, continue}
use auto_sentinel.Nodes.Files.{Files}
use auto_sentinel.Llm.CostGuard.{CostGuardState}
use auto_sentinel.Pipeline.{Agents, Services}
use auto_sentinel.Benchmark.{BenchmarkScenario, BenchmarkResult, run_all}
use auto_sentinel.Benchmark.Summary.{false_neg_ids, category_count, verdicts}
use auto_sentinel.Benchmark.Summary.Categories.{IsCategory, AllLabelled, category_count-length}
use auto_sentinel.Benchmark.Scenarios.{Catalog, is_scenario_id, scenario_valid, load_scenarios}
use auto_sentinel.Benchmark.Smoke.{Arithmetic}
use auto_sentinel.Benchmark.Smoke.Reports.{AllValid, ValidList, ValidList-load_files}
use auto_sentinel.Benchmark.Percentile.{Interpolation, percentile}
use auto_sentinel.Benchmark.Publish.{
  Desk, Summary, latencies, selected, summary_of, published, prepared, run,
}

IsCategory-member :
    (c : String) → is_one_of c ("CODE" ∷ "INFRA" ∷ "SECURITY" ∷ "CONFIG" ∷ []) ≡ true → IsCategory c
IsCategory-member c h = elim (stands_cases c "CODE" _ h) [
  | inl e ↦ inl e
  | inr h1 ↦ elim (stands_cases c "INFRA" _ h1) [
    | inl e ↦ inr (inl e)
    | inr h2 ↦ elim (stands_cases c "SECURITY" _ h2) [
      | inl e ↦ inr (inr (inl e))
      | inr h3 ↦ elim (stands_cases c "CONFIG" [] h3) [
        | inl e ↦ inr (inr (inr e))
        | inr none_left ↦ absurd (none_stands c none_left)
      ]
    ]
  ]
]

module _ {S : Type 0} (files : Files S) (catalog : Catalog S) where
  IsCategory-valid :
      (x : BenchmarkScenario) → scenario_valid files catalog x ≡ true → IsCategory x.category
  unfolding scenario_valid
  IsCategory-valid x h =
      let id = is_scenario_id files catalog x.scenario_id in
      let category = is_one_of x.category ("CODE" ∷ "INFRA" ∷ "SECURITY" ∷ "CONFIG" ∷ []) in
      let verdict = is_one_of x.expected_security_verdict ("SAFE" ∷ "CAUTION" ∷ "HIGH_RISK" ∷ []) in
      let (front, labelled) =
        and-split (id && category && verdict) (nonempty x.human_labeled_by) h in
      let (first, known) = and-split (id && category) verdict front in
      IsCategory-member x.category (and-split id category first).1

  AllLabelled-selected :
      (only : Option (List String)) (xs : List BenchmarkScenario)
      → AllValid files catalog xs
      → AllLabelled (selected only xs)
  AllLabelled-selected none [] h = tt
  AllLabelled-selected none (x ∷ xs) (v, h) = (IsCategory-valid x v, AllLabelled-selected none xs h)
  AllLabelled-selected (some only) [] h = tt
  AllLabelled-selected (some only) (x ∷ xs) (v, h) =
      elim (Bool-cases (is_one_of x.scenario_id only)) [
        | inl kept ↦ rw kept (IsCategory-valid x v, AllLabelled-selected (some only) xs h)
        | inr dropped ↦ rw dropped (AllLabelled-selected (some only) xs h)
      ]

length-false_neg_ids :
    (xs : List BenchmarkScenario) (known : Dict (Option String))
    → length (false_neg_ids xs known) ≤ category_count "SECURITY" xs
unfolding false_neg_ids
length-false_neg_ids [] known = omega arith
length-false_neg_ids (x ∷ xs) known = ground (arith, length-false_neg_ids xs known)

-- The four counts of the distribution add up to the number of the scenarios, and the false negatives are
-- no more than the scenarios of the security subset.
abbrev pub Totalled : Result Summary → Type 0
Totalled (err e) = Unit
Totalled (ok x) =
    (x.code + x.infra + x.security + x.config ≡ x.scenario_count)
    × (length x.false_negatives ≤ x.security)

module _ {S : Type 0} where
  -- A step of which only an exception is kept.
  Totalled-step :
      {A : Type 0} (q : Result A × S) (f : A → Exec S Summary)
      → ((a : A) (t : S) → Totalled (f a t).0)
      → Totalled (continue q f).0
  Totalled-step (ok a, t) f h = h a t
  Totalled-step (err e, t) f h = tt

  Totalled-inner :
      {A B : Type 0} (q : Result A × S) (f : A → Exec S B) (g : B → Exec S Summary)
      → ((a : A) (t : S) → Totalled (continue (f a t) g).0)
      → Totalled (continue (continue q f) g).0
  Totalled-inner (ok a, t) f g h = h a t
  Totalled-inner (err e, t) f g h = tt

module _ {S : Type 0} (services : Services S) (agents : Agents S) (guard : S → CostGuardState)
    (elapsed : S → S → ℕ) (describe : Exc → String) (catalog : Catalog S) (desk : Desk S)
    (arithmetic : Arithmetic) (interpolation : Interpolation) where
  abbrev publish : String → List (BenchmarkResult × Option String) → Summary → Exec S Summary
  publish = published services agents guard elapsed describe catalog desk arithmetic interpolation

  Totalled-published :
      (root : String) (rows : List (BenchmarkResult × Option String)) (x : Summary) (t : S)
      → Totalled (ok x)
      → Totalled (publish root rows x t).0
  Totalled-published root rows x t h = Totalled-step (services.files.make_dir _ t) _ λ a u.
      Totalled-step (services.files.write_text _ _ u) _
        λ b v. Totalled-step (services.files.write_text _ _ v) _ λ c w. h

  Totalled-summary :
      (root : String) (xs : List BenchmarkScenario) (rows : List (BenchmarkResult × Option String))
      (t : S)
      → AllLabelled xs
      → Totalled
          (continue
            (summary_of services agents guard elapsed describe catalog desk arithmetic interpolation
              xs rows t)
            (publish root rows)).0
  Totalled-summary root xs rows t h =
      Totalled-inner (percentile interpolation (latencies rows) 50, t) _ (publish root rows)
        λ low u.
          Totalled-inner (percentile interpolation (latencies rows) 95, u) _ (publish root rows)
            λ high v.
              Totalled-published root rows _ v
                (category_count-length xs h, length-false_neg_ids xs (verdicts xs rows []))

  Totalled-loaded :
      (only : Option (List String)) (root : String) (q : Result (List BenchmarkScenario) × S)
      → ValidList services.files catalog q.0
      → Totalled
          (continue q λ loaded t.
            continue
              (run_all services agents guard elapsed describe (selected only loaded) t)
              λ rows u.
                continue
                  (summary_of services agents guard elapsed describe catalog desk arithmetic
                    interpolation
                    (selected only loaded)
                    rows
                    u)
                  (publish root rows)).0
  Totalled-loaded only root (err e, t) v = tt
  Totalled-loaded only root (ok xs, t) v =
      Totalled-step (run_all services agents guard elapsed describe (selected only xs) t) _
        λ rows u.
          Totalled-summary root (selected only xs) rows u
            (AllLabelled-selected services.files catalog only xs v)

  -- If the benchmark returns a summary, the four counts of its distribution add up to its number of
  -- scenarios, which the schema of a loaded scenario ensures, and it names no more false negatives than
  -- the security subset has scenarios; with a choice of ids or without one.
  pub run-Totalled :
      (budget : String) (only : Option (List String)) (root : String) (s : S)
      → Totalled
          (run services agents guard elapsed describe catalog desk arithmetic interpolation budget
            only root s).0
  unfolding run
  run-Totalled budget only root s =
      let t =
        (prepared services agents guard elapsed describe catalog desk arithmetic interpolation
          budget s).1 in
      Totalled-loaded only root (load_scenarios services.files catalog t)
        (ValidList-load_files services.files catalog (catalog.yamls t) t)
