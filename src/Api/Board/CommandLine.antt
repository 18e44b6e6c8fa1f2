-- ===== src/Api/Board/CommandLine.antt =====
-- What the exit code of autosentinel/__main__.py says of the files.
use auto_sentinel.Prelude.{String, ◌≡◌, refl, Bool, false, none, List, [], ◌∷◌, arith}
use auto_sentinel.Prelude.Strings.{◌+++◌}
use auto_sentinel.Effects.{Exc, file_not_found, diagnostic_error, Result, ok, err}
use auto_sentinel.Pipeline.{Agents, Services}
use auto_sentinel.Entry.{run_pipeline}
use auto_sentinel.Entry.CommandLine.{exits, process_code, running, handled, main}
use auto_sentinel.Entry.Quiet.{QuietAgents}
use auto_sentinel.Api.Worker.{AlertJob}
use auto_sentinel.Api.Board.{answered, view, Disk}
use auto_sentinel.Api.Board.Runs.{store_of, UnseenCalls, answers_run_pipeline}

code-raised : (e : Exc) → process_code (handled (err e)).ending ≡ 1
unfolding handled
code-raised (file_not_found why) = refl
code-raised (diagnostic_error why) = refl
code-raised e = refl

handled-zero : (r : Result String) → process_code (handled r).ending ≡ 0 → (x : String) × (r ≡ ok x)
handled-zero (ok x) h = (x, refl)
handled-zero (err e) h = absurd (omega (arith, h, code-raised e))

module _ {S : Type 0} (services : Services S) (agents : Agents S) (exists : String → S → Bool)
    (listed : S → List String) (disk : Disk (store_of services exists listed))
    (unseen : UnseenCalls (store_of services exists listed) services agents)
    (quiet : QuietAgents agents) where
  abbrev log_of : String → String
  log_of log_path = services.python.path_text log_path

  -- A job for the log of a command line.
  abbrev job_for : String → AlertJob
  job_for log_path = record {
    job_id = services.python.path_stem (log_of log_path);
    log_path = log_path;
    service_name = "";
    enqueued_at = "";
    trace_id = "";
  }

  -- After the exit code 0 of the command line, the result file of the log's name is there. The disk takes
  -- what is written, and the agents leave the alerts, the results and the report's path alone.
  pub main-answered :
      (log_path : String) (s : S)
      → process_code (main services agents exists log_path s).0.ending ≡ 0
      → view
          (store_of services exists listed)
          (main services agents exists log_path s).1
          (services.python.path_stem (log_of log_path))
        ≡ answered
  unfolding main
  main-answered log_path s zero =
      let (x, e) = handled-zero (run_pipeline services agents exists log_path none s).0 zero in
      answers_run_pipeline services agents exists listed disk unseen quiet (job_for log_path) none s
        x refl e

  -- A log that is not there ends the command with the code 1 and a message that names it, and nothing
  -- else happens.
  pub main-missing :
      (log_path : String) (s : S)
      → exists (log_of log_path) s ≡ false
      → main services agents exists log_path s ≡ (
        record {
          ending = exits 1;
          out = running ∷ [];
          errors = ("[AutoSentinel] Error: Log file not found: " +++ log_of log_path) ∷ [];
        },
        s,
      )
  unfolding main handled
  main-missing log_path s missing = rw missing refl
