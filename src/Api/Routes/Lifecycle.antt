-- ===== src/Api/Routes/Lifecycle.antt =====
-- An alert from its submission to its result, through autosentinel/api.
use auto_sentinel.Prelude.{
  String, ◌≡◌, refl, sym, ◌⊎◌, inl, inr, true, false, Bool-cases, Option, none, some, List, [], ◌∷◌,
  ◌++◌, if◌then◌else◌,
}
use auto_sentinel.Prelude.Strings.{nonempty}
use auto_sentinel.Effects.{Exc, message, Result, ok, err, Exec}
use auto_sentinel.Python.{Python}
use auto_sentinel.Python.Json.{text, lookup}
use auto_sentinel.Llm.Protocol.{is_trace_id}
use auto_sentinel.Api.Results.{Store, failed_result, result_path, incoming_path, text_or}
use auto_sentinel.Api.Worker.{AlertJob, given_id, process}
use auto_sentinel.Api.Routes.{
  AlertPayload, AlertJobResponse, AlertStatusResponse, Reply, response, http_error, status_of,
  get_alert_status, job_of,
}

-- What the gateway relies on: a text that was written is there and is read back, and `str` of a text
-- is the text.
pub record Durable {S : Type 0} (py : Python) (store : Store S) : Type 0 where
  pub exists_written :
      (path raw : String) (s s' : S)
      → store.files.write_text path raw s ≡ (ok tt, s')
      → store.exists path s' ≡ true
  pub read_written :
      (path raw : String) (s s' : S)
      → store.files.write_text path raw s ≡ (ok tt, s')
      → (store.files.read_text path s').0 ≡ ok raw
  pub show_text : (s : String) → py.show (text s) ≡ s

-- The response for a job that has failed.
abbrev pub failed_status : AlertJob → AlertStatusResponse
failed_status job = record {
  job_id = job.job_id;
  trace_id = text_or job.trace_id job.job_id;
  status = "failed";
  diagnosis = none;
  fix = none;
  report_path = none;
}

module _ {S : Type 0} (py : Python) (store : Store S) where
  -- How a submission ends.
  abbrev pub Ingested :
      Option String
      → AlertPayload
      → List AlertJob
      → Result (Reply AlertJobResponse × List AlertJob) × S
      → Type 0
  Ingested header payload queue (ok (response r, q), s) =
      (store.exists (incoming_path r.job_id) s ≡ true)
      × (r.trace_id ≡ r.job_id)
      × (r.status ≡ "accepted")
      × ((now : String) × (q ≡ queue ++ job_of py store r.job_id payload now ∷ []))
      × ((header ≡ none) ⊎ ((header ≡ some r.job_id) × (is_trace_id r.job_id ≡ true)))
  Ingested header payload queue (ok (http_error code why, q), s) =
      (code ≡ 400) × (q ≡ queue) × ((id : String) × (header ≡ some id) × (is_trace_id id ≡ false))
  Ingested header payload queue (err e, s) = Unit

module _ {S : Type 0} (py : Python) (store : Store S) (durable : Durable py store) where
  shown_text :
      (x default : String)
      → (nonempty x ≡ true) ⊎ (x ≡ default)
      → (if nonempty x then py.show (text x) else default) ≡ x
  shown_text x default h = elim (Bool-cases (nonempty x)) [
    | inl filled ↦ rw (filled, durable.show_text x) refl
    | inr empty ↦ elim h [
      | inl filled ↦ rw (filled, durable.show_text x) refl
      | inr same ↦ rw empty (sym same)
    ]
  ]

  shown_id :
      (job : AlertJob)
      → (if nonempty (text_or job.trace_id job.job_id)
          then py.show (text (text_or job.trace_id job.job_id))
          else job.job_id)
        ≡ text_or job.trace_id job.job_id
  shown_id job =
      shown_text (text_or job.trace_id job.job_id) job.job_id
        (elim (Bool-cases (nonempty job.trace_id)) [
          | inl given ↦ inl (rw (given, given) refl)
          | inr empty ↦ inr (rw empty refl)
        ])

  status_of_failed :
      (job : AlertJob) (error : String)
      → status_of py store job.job_id (failed_result job.job_id job.trace_id job.service_name error)
        ≡ ok (failed_status job)
  unfolding status_of lookup
  status_of_failed job error = rw (shown_id job, durable.show_text "failed") (refl)

  status_of_written :
      (job : AlertJob) (error : String) (s s' : S)
      → store.files.write_text
          (result_path job.job_id)
          (py.dumps (failed_result job.job_id job.trace_id job.service_name error))
          s
        ≡ (ok tt, s')
      → (let v = failed_result job.job_id job.trace_id job.service_name error in
          py.loads (py.dumps v) ≡ ok v)
      → (get_alert_status py store job.job_id s').0 ≡ ok (response (failed_status job))
  unfolding get_alert_status
  status_of_written job error s s' w back =
      let v = failed_result job.job_id job.trace_id job.service_name error in
      let path = result_path job.job_id in
      rw
        (
          durable.exists_written path (py.dumps v) s s' w,
          durable.read_written path (py.dumps v) s s' w,
          back,
          status_of_failed job error,
        )
        refl

  -- If the pipeline of a job raises, whatever the exception, and the disk takes the
  -- result file and JSON reads it back, then
  -- the status route reports the job as failed, with the job's trace id and no diagnosis or fix.
  pub failed_job_status :
      (run_pipeline : String → Option String → Exec S String) (job : AlertJob) (e : Exc)
      (s s₁ s₂ s₃ : S)
      → run_pipeline job.log_path (given_id job) s ≡ (err e, s₁)
      → store.files.make_dir "output" s₁ ≡ (ok tt, s₂)
      → store.files.write_text
          (result_path job.job_id)
          (py.dumps
            (failed_result job.job_id job.trace_id job.service_name (message py.show_decimal e)))
          s₂
        ≡ (ok tt, s₃)
      → (let v =
            failed_result job.job_id job.trace_id job.service_name (message py.show_decimal e) in
          py.loads (py.dumps v) ≡ ok v)
      → (process py store run_pipeline job s ≡ (ok tt, s₃))
        × ((get_alert_status py store job.job_id s₃).0 ≡ ok (response (failed_status job)))
  unfolding process
  failed_job_status run_pipeline job e s s₁ s₂ s₃ raised made written back = (
    rw (raised, made, written) refl,
    status_of_written job (message py.show_decimal e) s₂ s₃ written back,
  )
