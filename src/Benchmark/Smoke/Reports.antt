-- ===== src/Benchmark/Smoke/Reports.antt =====
-- The report of the smoke benchmark of autosentinel/benchmark.py.
use auto_sentinel.Prelude.{
  ℕ, ◌≤◌, String, ◌≡◌, refl, ◌⊎◌, inl, inr, true, Bool-cases, Option, none, some, List, [], ◌∷◌,
  length, arith,
}
use auto_sentinel.Effects.{Exc, other_error, Result, ok, err, continue}
use auto_sentinel.Nodes.Files.{Files}
use auto_sentinel.Pipeline.{Agents, Services}
use auto_sentinel.Benchmark.{BenchmarkScenario}
use auto_sentinel.Benchmark.Detail.{detail_run, run_detail}
use auto_sentinel.Benchmark.Scenarios.{
  Catalog, scenario_valid, model_validate, load_one, load_files, load_scenarios,
}
use auto_sentinel.Benchmark.Smoke.{
  Arithmetic, ScenarioDetail, SmokeReport, report_value, divide, run_details, report_of, written,
  run_benchmark,
}

module _ {S : Type 0} (files : Files S) (catalog : Catalog S) where
  abbrev pub AllValid : List BenchmarkScenario → Type 0
  AllValid [] = Unit
  AllValid (x ∷ xs) = (scenario_valid files catalog x ≡ true) × AllValid xs

  abbrev Valid : Result BenchmarkScenario → Type 0
  Valid (ok x) = scenario_valid files catalog x ≡ true
  Valid (err e) = Unit

  abbrev pub ValidList : Result (List BenchmarkScenario) → Type 0
  ValidList (ok xs) = AllValid xs
  ValidList (err e) = Unit

  Valid-model_validate : (o : Option BenchmarkScenario) → Valid (model_validate files catalog o)
  Valid-model_validate none = tt
  Valid-model_validate (some x) = elim (Bool-cases (scenario_valid files catalog x)) [
    | inl v ↦ rw v v
    | inr bad ↦ rw bad tt
  ]

  Valid-parsed :
      (q : Result _) (t : S)
      → Valid (continue (q, t) (λ v s. (model_validate files catalog (catalog.typed v), s))).0
  Valid-parsed (ok v) t = Valid-model_validate (catalog.typed v)
  Valid-parsed (err e) t = tt

  Valid-read :
      (q : Result String × S)
      → Valid
          (continue q (λ raw s.
            continue
              (catalog.parse raw, s)
              (λ v s'. (model_validate files catalog (catalog.typed v), s')))).0
  Valid-read (ok raw, t) = Valid-parsed (catalog.parse raw) t
  Valid-read (err e, t) = tt

  ValidList-cons :
      (x : BenchmarkScenario) (q : Result (List BenchmarkScenario) × S)
      → scenario_valid files catalog x ≡ true
      → ValidList q.0
      → ValidList (continue q (λ xs s. (ok (x ∷ xs), s))).0
  ValidList-cons x (ok xs, t) v h = (v, h)
  ValidList-cons x (err e, t) v h = tt

  ValidList-first :
      (paths : List String) (q : Result BenchmarkScenario × S)
      → Valid q.0
      → ((s : S) → ValidList (load_files files catalog paths s).0)
      → ValidList
          (continue q
            (λ x s. continue (load_files files catalog paths s) (λ xs s'. (ok (x ∷ xs), s')))).0
  ValidList-first paths (ok x, t) v h = ValidList-cons x (load_files files catalog paths t) v (h t)
  ValidList-first paths (err e, t) v h = tt

  pub ValidList-load_files :
      (paths : List String) (s : S) → ValidList (load_files files catalog paths s).0
  unfolding load_files
  ValidList-load_files [] s = tt
  ValidList-load_files (path ∷ paths) s =
      ValidList-first paths (load_one files catalog path s) (Valid-read (files.read_text path s))
        (ValidList-load_files paths)

module _ (arithmetic : Arithmetic) {S : Type 0} (services : Services S) (agents : Agents S)
    (elapsed : S → S → ℕ) (catalog : Catalog S) where
  -- Each scenario has its row, in order, from a run in the world that the run before it has left.
  abbrev pub Rows : List BenchmarkScenario → S → List ScenarioDetail → Type 0
  Rows [] s [] = Unit
  Rows (x ∷ xs) s (d ∷ ds) =
      (d.id ≡ x.scenario_id)
      × (d.category ≡ x.category)
      × (d.detail ≡ run_detail services agents elapsed x.error_log_path s)
      × Rows xs (detail_run services agents elapsed x.error_log_path s).world ds
  Rows xs s ds = ⊥

  run_details-Rows :
      (xs : List BenchmarkScenario) (s : S)
      → (ds : List ScenarioDetail) × (t : S) × (run_details arithmetic services agents elapsed
            catalog xs s
          ≡ (ok ds, t))
        × Rows xs s ds
  unfolding run_details
  run_details-Rows [] s = ([], s, refl, tt)
  run_details-Rows (x ∷ xs) s =
      let (ds, t, e, rows) =
        run_details-Rows xs (detail_run services agents elapsed x.error_log_path s).world in
      let d = run_detail services agents elapsed x.error_log_path s in
      (
        (record { id = x.scenario_id; category = x.category; detail = d }) ∷ ds,
        t,
        rw e refl,
        (refl, refl, refl, rows),
      )

  abbrev loaded : S → Result (List BenchmarkScenario) × S
  loaded = load_scenarios services.files catalog

  -- The disk refused the directory or the file.
  abbrev pub DiskRaised : Exc → Type 0
  DiskRaised e =
      ((s : S) × ((services.files.make_dir "output" s).0 ≡ err e))
      ⊎ ((raw : String) × (s : S) × ((services.files.write_text "output/benchmark-report.json" raw
              s).0
            ≡ err e))

  -- What a run of the benchmark from a world comes to.
  abbrev pub Reported : S → Result SmokeReport × S → Type 0
  Reported s (ok r, u) =
      (xs : List BenchmarkScenario) × (t : S) × (loaded s ≡ (ok xs, t))
      × AllValid services.files catalog xs
      × (1 ≤ length xs)
      × (r.scenario_count ≡ length xs)
      × Rows xs t r.scenarios
  Reported s (err e, u) =
      ((t : S) × (loaded s ≡ (err e, t)))
      ⊎ (((t : S) × (loaded s ≡ (ok [], t)) × (e ≡ other_error "division by zero")) ⊎ DiskRaised e)

  Reported-kept :
      (s : S) (r : SmokeReport) (q : Result (Unit {0}) × S)
      → Reported s (ok r, q.1)
      → ((e : Exc) → q.0 ≡ err e → DiskRaised e)
      → Reported s (continue q (λ done t. (ok r, t)))
  Reported-kept s r (ok done, t) h d = h
  Reported-kept s r (err e, t) h d = inr (inr (d e refl))

  Reported-made :
      (s : S) (r : SmokeReport) (q : Result (Unit {0}) × S)
      → ((u : S) → Reported s (ok r, u))
      → ((e : Exc) → q.0 ≡ err e → DiskRaised e)
      → Reported s (
          continue q (λ done t.
            continue
              (services.files.write_text "output/benchmark-report.json"
                (services.python.dumps (report_value arithmetic r))
                t)
              (λ done' t'. (ok r, t'))))
  Reported-made s r (ok done, t) h d =
      Reported-kept s r
        (services.files.write_text "output/benchmark-report.json"
          (services.python.dumps (report_value arithmetic r)) t)
        (h t) (λ e x. inr (_, t, x))
  Reported-made s r (err e, t) h d = inr (inr (d e refl))

  Reported-details :
      (s : S) (xs : List BenchmarkScenario) (ds : List ScenarioDetail) (t u : S)
      → loaded s ≡ (ok xs, t)
      → AllValid services.files catalog xs
      → Rows xs t ds
      → Reported s (
          continue
            (report_of arithmetic services agents elapsed catalog (length xs) ds u)
            (written arithmetic services agents elapsed catalog))
  unfolding divide
  Reported-details s [] ds t u e v rows = inr (inl (t, e, refl))
  Reported-details s (x ∷ xs) ds t u e v rows =
      Reported-made s _ (services.files.make_dir "output" u)
        (λ w. (x ∷ xs, t, e, v, omega arith, refl, rows)) (λ e x. inl (u, x))

  Reported-loaded :
      (s : S) (q : Result (List BenchmarkScenario) × S)
      → loaded s ≡ q
      → ValidList services.files catalog q.0
      → Reported s (
          continue q (λ xs t.
            continue (run_details arithmetic services agents elapsed catalog xs t) (λ ds u.
              continue
                (report_of arithmetic services agents elapsed catalog (length xs) ds u)
                (written arithmetic services agents elapsed catalog))))
  Reported-loaded s (err e, t) h v = inl (t, h)
  Reported-loaded s (ok xs, t) h v =
      let (ds, u, e, rows) = run_details-Rows xs t in rw e (Reported-details s xs ds t u h v rows)

  -- A report of the smoke benchmark has one row for each scenario of the directory, in the order of the
  -- files, and each row tells of a run in the world that the run before it has left, whatever those runs
  -- came to; the scenarios fit the schema, and there is one at least. It raises what the loading raised,
  -- or what the disk raised when the report was written, or a ZeroDivisionError where the directory has
  -- no scenario.
  pub run_benchmark-Reported :
      (s : S) → Reported s (run_benchmark arithmetic services agents elapsed catalog s)
  unfolding run_benchmark
  run_benchmark-Reported s =
      Reported-loaded s (loaded s) refl
        (ValidList-load_files services.files catalog (catalog.yamls s) s)
