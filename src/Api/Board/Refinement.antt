-- ===== src/Api/Board/Refinement.antt =====
-- The worker of autosentinel/api/queue.py settles the jobs of its queue on the board.
use auto_sentinel.Prelude.{
  String, ◌≡◌, refl, ◌∙◌, subst, Bool, Bool-cases, inl, inr, Option, List, [], ◌∷◌,
}
use auto_sentinel.Prelude.Strings.{◌==◌, eq_iff}
use auto_sentinel.Effects.{message, Exec, Result, ok, err, continue}
use auto_sentinel.Effects.Frame.{continue-ok}
use auto_sentinel.Pipeline.{Agents, Services}
use auto_sentinel.Entry.{run_pipeline}
use auto_sentinel.Entry.Quiet.{QuietAgents}
use auto_sentinel.Api.Results.{Store, result_path, failed_result, write_failed_result}
use auto_sentinel.Api.Worker.{AlertJob, given_id, report_failure, process, worker}
use auto_sentinel.Api.Board.{
  IsNamed, AllNamed, ids, Board, answered, settled, settled_all, view, others, Disk,
}
use auto_sentinel.Api.Board.Pages.{Unseen-make_dir, view-written_result, Respects-write_result}
use auto_sentinel.Api.Board.Runs.{store_of, UnseenCalls, le_run_pipeline, answers_run_pipeline}

-- A job whose id is answered, while the other statuses stay, has been settled.
settled_of :
    {S : Type 0} (store : Store S) (id : String) (s t : S)
    → view store t id ≡ answered
    → (others store id).Le s t
    → (j : String) → view store t j ≡ settled id (view store s) j
settled_of store id s t done rest j = elim (Bool-cases (id == j)) [
  | inl same ↦ rw same (subst (λ k. view store t k ≡ answered) ((eq_iff id j).0 same) done)
  | inr other ↦ rw other (rest j other)
]

module _ {S : Type 0} (services : Services S) (agents : Agents S) (exists : String → S → Bool)
    (listed : S → List String) (disk : Disk (store_of services exists listed))
    (unseen : UnseenCalls (store_of services exists listed) services agents)
    (quiet : QuietAgents agents) where
  abbrev board_store : Store S
  board_store = store_of services exists listed

  abbrev pub pipeline : String → Option String → Exec S String
  pipeline = run_pipeline services agents exists

  abbrev failure_world : String → String → S → S
  failure_world id raw s =
      (services.files.write_text (result_path id) raw (services.files.make_dir "output" s).1).1

  write_failed_result-takes :
      (id trace_id service error : String) (s : S)
      → let raw = services.python.dumps (failed_result id trace_id service error) in
        write_failed_result services.python board_store id trace_id service error s
        ≡ (ok tt, failure_world id raw s)
  unfolding write_failed_result
  write_failed_result-takes id trace_id service error s =
      let raw = services.python.dumps (failed_result id trace_id service error) in
      let t = (services.files.make_dir "output" s).1 in
      rw
        (
          continue-ok (services.files.make_dir "output" s) tt
              (λ done. services.files.write_text (result_path id) raw) (disk.makes "output" s),
          disk.takes (result_path id) raw t,
        )
        refl

  le_failure : (id raw : String) (s : S) → (others board_store id).Le s (failure_world id raw s)
  le_failure id raw s =
      let f = others board_store id in
      let t = (services.files.make_dir "output" s).1 in
      f.le_trans s t (failure_world id raw s) (λ j h. Unseen-make_dir board_store disk "output" s j)
        (Respects-write_result board_store disk id raw t)

  -- The call has returned, and the job is settled.
  abbrev pub Settles : AlertJob → S → Result (Unit {0}) × S → Type 0
  Settles job s q =
      (q.0 ≡ ok tt)
      × ((j : String) → view board_store q.1 j ≡ settled job.job_id (view board_store s) j)

  -- The same of all jobs of a queue.
  abbrev pub SettlesAll : List AlertJob → S → Result (Unit {0}) × S → Type 0
  SettlesAll jobs s q =
      (q.0 ≡ ok tt)
      × ((j : String) → view board_store q.1 j ≡ settled_all (ids jobs) (view board_store s) j)

  Settles-report_failure :
      (job : AlertJob) (s : S) (r : Result String) (t : S)
      → (others board_store job.job_id).Le s t
      → ((x : String) → r ≡ ok x → view board_store t job.job_id ≡ answered)
      → Settles job s (report_failure services.python board_store pipeline job r t)
  Settles-report_failure job s (ok x) t near done =
      (refl, settled_of board_store job.job_id s t (done x refl) near)
  Settles-report_failure job s (err e) t near done =
      let error = message services.python.show_decimal e in
      let raw =
        services.python.dumps (failed_result job.job_id job.trace_id job.service_name error) in
      let u = failure_world job.job_id raw t in
      rw (write_failed_result-takes job.job_id job.trace_id job.service_name error t) (
        refl,
        settled_of board_store job.job_id s u
            (view-written_result board_store disk job.job_id raw _)
            ((others board_store job.job_id).le_trans s t u near (le_failure job.job_id raw t)),
      )

  pub Settles-process :
      (job : AlertJob) (s : S)
      → IsNamed services.python job
      → Settles job s (process services.python board_store pipeline job s)
  unfolding process
  Settles-process job s named =
      let (r, t) = pipeline job.log_path (given_id job) s in
      Settles-report_failure job s r t
        (le_run_pipeline services agents exists listed disk unseen quiet job (given_id job) s named)
        (λ x.
          answers_run_pipeline services agents exists listed disk unseen quiet job (given_id job) s
            x named)

  settled_all-pointwise :
      (js : List String) (b c : Board)
      → ((j : String) → b j ≡ c j)
      → (j : String) → settled_all js b j ≡ settled_all js c j
  settled_all-pointwise [] b c h j = h j
  settled_all-pointwise (id ∷ js) b c h j =
      settled_all-pointwise js (settled id b) (settled id c) (λ k. rw (h k) refl) j

  SettlesAll-continue :
      (job : AlertJob) (jobs : List AlertJob) (s : S) (q : Result (Unit {0}) × S)
      → Settles job s q
      → ((t : S) → SettlesAll jobs t (worker services.python board_store pipeline jobs t))
      → SettlesAll
          (job ∷ jobs)
          s
          (continue q (λ done. worker services.python board_store pipeline jobs))
  SettlesAll-continue job jobs s (ok done, t) (e, h) k =
      let (returns, rest) = k t in
      (
        returns,
        λ j.
            rest j
            ∙ settled_all-pointwise (ids jobs) (view board_store t)
                (settled job.job_id (view board_store s)) h j,
      )
  SettlesAll-continue job jobs s (err x, t) (e, h) k = absurd (cc)

  -- The worker goes through any queue without an exception, and each of its jobs is then answered by a
  -- result, whatever the pipeline did: returned, raised, stopped at the gate, or ran out of budget. The
  -- statuses of all other ids stay. The disk takes what is written, the agents leave the alerts, the
  -- results and the report's path alone, and each job's log has its id for a stem.
  pub worker-SettlesAll :
      (jobs : List AlertJob) (s : S)
      → AllNamed services.python jobs
      → SettlesAll jobs s (worker services.python board_store pipeline jobs s)
  unfolding worker
  worker-SettlesAll [] s named = (refl, λ j. refl)
  worker-SettlesAll (job ∷ jobs) s (named, rest) =
      SettlesAll-continue job jobs s (process services.python board_store pipeline job s)
        (Settles-process job s named) (λ t. worker-SettlesAll jobs t rest)
