-- ===== src/Api/Worker.antt =====
-- autosentinel/api/queue.py: what the worker does with one job of its queue. Logging is left out.
use auto_sentinel.Prelude.{String, Option, none, some, List, [], ◌∷◌, if◌then◌else◌}
use auto_sentinel.Prelude.Strings.{nonempty}
use auto_sentinel.Effects.{message, Result, ok, err, Exec, pure, ◌>>=◌, try_with}
use auto_sentinel.Python.{Python}
use auto_sentinel.Api.Results.{Store, write_failed_result}

pub record AlertJob : Type 0 where
  pub job_id : String
  pub log_path : String
  pub service_name : String
  pub enqueued_at : String
  pub trace_id : String

-- `job.trace_id or None`
abbrev pub given_id : AlertJob → Option String
given_id job = if nonempty job.trace_id then some job.trace_id else none

module _ {S : Type 0} (py : Python) (store : Store S)
    (run_pipeline : String → Option String → Exec S String) where
  abbrev pub report_failure : AlertJob → Result String → Exec S (Unit {0})
  report_failure job (ok path) = pure tt
  report_failure job (err e) =
      write_failed_result py store job.job_id job.trace_id job.service_name
        (message py.show_decimal e)

  -- The body of the worker's loop.
  unfoldable pub process : AlertJob → Exec S (Unit {0})
  unfolding write_failed_result
  process job = try_with (run_pipeline job.log_path (given_id job)) (report_failure job)

  -- The loop on the jobs that the queue holds, up to the first exception.
  unfoldable pub worker : List AlertJob → Exec S (Unit {0})
  unfolding process
  worker [] = pure tt
  worker (job ∷ jobs) = process job >>= λ done. worker jobs
