-- ===== src/Api/Board/Runs.antt =====
-- What a run of the pipeline changes of the board: the status of its own job, and only to `answered`.
use auto_sentinel.Prelude.{String, ◌≡◌, refl, ◌∙◌, Bool, Bool-cases, inl, inr, Option, List}
use auto_sentinel.Effects.{Exc, Exec, Result, ok, err, pure, continue, ◌>>◌}
use auto_sentinel.Effects.Frame.{Respects, continue-ok}
use auto_sentinel.State.{AgentState, AnalysisResult, ErrorLog, Update, initial_state}
use auto_sentinel.Nodes.Report
use auto_sentinel.Nodes.Report.{analysis_dict, log_dict, write_report}
use auto_sentinel.Pipeline.{Agents, Services}
use auto_sentinel.Pipeline.Frame.{FramedRun, AboveRun-invoke}
use auto_sentinel.Entry.{truthy_id, run_pipeline}
use auto_sentinel.Entry.Quiet.{QuietAgents}
use auto_sentinel.Entry.Delivery.{invoke_written}
use auto_sentinel.Api.Results.{Store, result_path}
use auto_sentinel.Api.Results.Paths.{report_path_of}
use auto_sentinel.Api.Worker.{AlertJob}
use auto_sentinel.Api.Board.{IsNamed, answered, view, others, Disk, Unseen}
use auto_sentinel.Api.Board.Pages.{
  Unseen-make_dir, Unseen-read_text, Unseen-report, view-written_result, Respects-write_result,
  Respects-Unseen,
}

-- The gateway's store, on the files of the pipeline.
abbrev pub store_of : {S : Type 0} → Services S → (String → S → Bool) → (S → List String) → Store S
store_of services exists listed = record {
  files = services.files;
  exists = exists;
  listed = listed;
}

-- Agents and other calls of a run that leave the alerts and the results alone.
pub record UnseenCalls {S : Type 0} (store : Store S) (services : Services S) (agents : Agents S)
    : Type 0 where
  pub token_hex : Unseen store services.token_hex
  pub spent : Unseen store services.spent
  pub diagnosis : (st : AgentState) → Unseen store (agents.diagnosis st)
  pub supervisor : (st : AgentState) → Unseen store (agents.supervisor st)
  pub code_fixer : (st : AgentState) → Unseen store (agents.code_fixer st)
  pub infra_sre : (st : AgentState) → Unseen store (agents.infra_sre st)
  pub security_reviewer : (st : AgentState) → Unseen store (agents.security_reviewer st)
  pub verifier : (st : AgentState) → Unseen store (agents.verifier st)

module _ {S : Type 0} (services : Services S) (agents : Agents S) (exists : String → S → Bool)
    (listed : S → List String) (disk : Disk (store_of services exists listed))
    (unseen : UnseenCalls (store_of services exists listed) services agents)
    (quiet : QuietAgents agents) where
  abbrev store : Store S
  store = store_of services exists listed

  -- The files of a report, with the update that the node returns.
  abbrev saved : String → String → String → String → Update → Exec S Update
  saved p report q result u = do
    services.files.make_dir "output"
    services.files.write_text p report
    services.files.write_text q result
    pure u

  abbrev saved_world : String → String → String → String → S → S
  saved_world p report q result s =
      (services.files.write_text q result
        (services.files.write_text p report (services.files.make_dir "output" s).1).1).1

  saved_lem :
      (p report q result : String) (u : Update) (s : S)
      → saved p report q result u s ≡ (ok u, saved_world p report q result s)
  saved_lem p report q result u s =
      let s₁ = (services.files.make_dir "output" s).1 in
      let s₂ = (services.files.write_text p report s₁).1 in
      continue-ok (services.files.make_dir "output" s) tt _ (disk.makes "output" s)
      ∙ continue-ok (services.files.write_text p report s₁) tt _ (disk.takes p report s₁)
      ∙ continue-ok (services.files.write_text q result s₂) tt _ (disk.takes q result s₂)

  -- What holds after the files are saved holds after the node, unless a value is missing.
  format_report_ends :
      (P : Result Update × S → Type 0) (st : AgentState) (s : S)
      → ((e : Exc) → P (err e, s))
      → ((report result : String) (u : Update)
          → P (
            ok u,
            saved_world
                (report_path_of (services.python.path_stem st.log_path))
                report
                (result_path (services.python.path_stem st.log_path))
                result
                s,
          ))
      → P (Report.format_report services.python services.files st s)
  unfolding Report.format_report
  format_report_ends P st s bad good =
      with_analysis (analysis_dict st.analysis_result) (log_dict st.error_log)
    where
      with_log :
          (a : Option AnalysisResult) (q : Result ErrorLog)
          → P (
              continue
                (q, s)
                (write_report services.python services.files st (services.files.utc_now s) a))
      with_log a (err e) = bad e
      with_log a (ok log) = rw (saved_lem _ _ _ _ _ s) (good _ _ _)

      with_analysis :
          (a : Result (Option AnalysisResult)) (q : Result ErrorLog)
          → P (
              continue
                (a, s)
                λ analysis t.
                  continue
                    (q, t)
                    (write_report services.python services.files st
                      (services.files.utc_now s)
                      analysis))
      with_analysis (err e) q = bad e
      with_analysis (ok a) q = with_log a q

  le_saved :
      (id report result : String) (s : S)
      → (others store id).Le s (saved_world (report_path_of id) report (result_path id) result s)
  le_saved id report result s =
      let f = others store id in
      let s₁ = (services.files.make_dir "output" s).1 in
      let s₂ = (services.files.write_text (report_path_of id) report s₁).1 in
      let s₃ = (services.files.write_text (result_path id) result s₂).1 in
      f.le_trans s s₁ s₃ (λ j h. Unseen-make_dir store disk "output" s j)
        (f.le_trans s₁ s₂ s₃ (λ j h. Unseen-report store disk id report s₁ j)
          (Respects-write_result store disk id result s₂))

  Respects-format_report :
      (st : AgentState) (id : String)
      → services.python.path_stem st.log_path ≡ id
      → Respects (others store id) (Report.format_report services.python services.files st)
  Respects-format_report st id e s =
      let f = others store id in
      format_report_ends (λ q. f.Le s q.1) st s (λ x. f.le_refl s)
        (λ report result u. rw e (le_saved id report result s))

  framed :
      (path id : String)
      → services.python.path_stem path ≡ id
      → FramedRun (others store id) services agents path
  framed path id e = record {
    token_hex = Respects-Unseen store disk id services.token_hex unseen.token_hex;
    spent = Respects-Unseen store disk id services.spent unseen.spent;
    read_text =
        Respects-Unseen store disk id (services.files.read_text path)
          (Unseen-read_text store disk path);
    format_report = λ st h. Respects-format_report st id (rw h e);
    diagnosis = λ st. Respects-Unseen store disk id (agents.diagnosis st) (unseen.diagnosis st);
    supervisor = λ st. Respects-Unseen store disk id (agents.supervisor st) (unseen.supervisor st);
    code_fixer = λ st. Respects-Unseen store disk id (agents.code_fixer st) (unseen.code_fixer st);
    infra_sre = λ st. Respects-Unseen store disk id (agents.infra_sre st) (unseen.infra_sre st);
    security_reviewer = λ st.
        Respects-Unseen store disk id (agents.security_reviewer st) (unseen.security_reviewer st);
    verifier = λ st. Respects-Unseen store disk id (agents.verifier st) (unseen.verifier st);
  }

  answers_format_report :
      (st : AgentState) (s : S) (u : Update) (id : String)
      → services.python.path_stem st.log_path ≡ id
      → (Report.format_report services.python services.files st s).0 ≡ ok u
      → view store (Report.format_report services.python services.files st s).1 id ≡ answered
  answers_format_report st s u id e =
      format_report_ends (λ q. q.0 ≡ ok u → view store q.1 id ≡ answered) st s (λ x h. absurd (cc))
        (λ report result v h. rw e (view-written_result store disk id result _))

  -- A run on a job's log leaves the statuses of the other jobs.
  pub le_run_pipeline :
      (job : AlertJob) (id : Option String) (s : S)
      → IsNamed services.python job
      → (others store job.job_id).Le s (run_pipeline services agents exists job.log_path id s).1
  unfolding run_pipeline initial_state
  le_run_pipeline job id s named =
      let path = services.python.path_text job.log_path in
      elim (Bool-cases (exists path s)) [
        | inl there ↦
            rw there
              (AboveRun-invoke (others store job.job_id) services agents path
                (framed path job.job_id named) (initial_state path (truthy_id id)) s refl).1
        | inr missing ↦ rw missing ((others store job.job_id).le_refl s)
      ]

  -- If it returns, the job has its result.
  pub answers_run_pipeline :
      (job : AlertJob) (id : Option String) (s : S) (x : String)
      → IsNamed services.python job
      → (run_pipeline services agents exists job.log_path id s).0 ≡ ok x
      → view store (run_pipeline services agents exists job.log_path id s).1 job.job_id ≡ answered
  unfolding run_pipeline initial_state
  answers_run_pipeline job id s x named h =
      let path = services.python.path_text job.log_path in
      elim (Bool-cases (exists path s)) [
        | inl there ↦ rw there (
            invoke_written services agents quiet path (λ t. view store t job.job_id ≡ answered)
              (λ st t u e. answers_format_report st t u job.job_id (rw e named))
              (initial_state path (truthy_id id)) s x refl refl (rw there at h))
        | inr missing ↦ absurd (cc (rw missing at h))
      ]
