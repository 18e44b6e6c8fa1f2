-- ===== src/Tests/Tracing.antt =====
-- The theorem on autosentinel/tracing.py at a dashboard that refuses the trace.
use auto_sentinel.Prelude.{◌≡◌, refl, true, some, ◌+◌}
use auto_sentinel.Effects.{os_error, err, pure}
use auto_sentinel.Entry.{run_pipeline}
use auto_sentinel.Entry.Tracing.{
  Dashboard, open_for, open_parent_trace, langfuse_client, traced_run_pipeline,
  traced_run_pipeline-run_pipeline,
}
use auto_sentinel.Tests.{World, idle, services}
use auto_sentinel.Tests.Pipeline.{cautious}

-- A dashboard that has its keys and cannot be reached.
abbrev dashboard : Dashboard World
dashboard = record {
  settings =
      pure (
        some
          (record { langfuse_host = "h"; langfuse_public_key = "p"; langfuse_secret_key = "s" }));
  connect = λ c. pure tt;
  trace = λ id name tags w. (err (os_error "refused"), record w { calls = w.calls + 1 });
  flush = pure tt;
  log_exception = λ why e w. record w { written = w.written + 1 };
}

traced_run_pipeline-run_pipeline_example :
    traced_run_pipeline dashboard services cautious
      (λ path w. true)
      "/logs/a.json"
      (some "0123456789abcdef0123456789abcdef")
      idle
    ≡ run_pipeline services cautious
        (λ path w. true)
        "/logs/a.json"
        (some "0123456789abcdef0123456789abcdef")
        (open_for dashboard (some "0123456789abcdef0123456789abcdef") idle).1
traced_run_pipeline-run_pipeline_example =
    traced_run_pipeline-run_pipeline dashboard services cautious (λ path w. true) "/logs/a.json"
      (some "0123456789abcdef0123456789abcdef") idle refl refl

-- The failed trace is logged.
trace_is_logged :
    (open_for dashboard (some "0123456789abcdef0123456789abcdef") idle).1
    ≡ record idle { calls = 1; written = 1 }
unfolding open_parent_trace langfuse_client
trace_is_logged = refl
