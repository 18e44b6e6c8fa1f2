-- ===== src/Tests/Gateway.antt =====
-- The theorems on autosentinel/api and autosentinel/__init__.py at concrete calls, over a disk that is
-- a dict of texts.
use auto_sentinel.Prelude.{
  String, ◌≡◌, refl, sym, ap, Bool, true, false, Option, none, some, [], ◌∷◌, if◌then◌else◌,
}
use auto_sentinel.Prelude.Dict.{Dict, find, find-here}
use auto_sentinel.Prelude.Strings.{◌==◌}
use auto_sentinel.Effects.{
  message, type_error, json_decode_error, file_not_found, Result, ok, err, Exec, pure,
}
use auto_sentinel.Python.{Python}
use auto_sentinel.Python.Json.{Value, text}
use auto_sentinel.Nodes.Files.{Files}
use auto_sentinel.Api.Results.{Store, failed_result, result_path}
use auto_sentinel.Api.Worker.{AlertJob, process}
use auto_sentinel.Api.Routes.{AlertPayload, response, get_alert_status}
use auto_sentinel.Api.Routes.Lifecycle.{Durable, failed_status, failed_job_status}
use auto_sentinel.Tests

abbrev pub Disk : Type 0
Disk = Dict String

abbrev pub is_there : Option String → Bool
is_there none = false
is_there (some s) = true

abbrev pub content : Option String → Result String
content none = err (file_not_found "no such file")
content (some s) = ok s

abbrev pub disk_files : Files Disk
disk_files = record {
  read_text = λ path d. (content (find path d), d);
  write_text = λ path raw d. (ok tt, (path, raw) ∷ d);
  make_dir = λ path. pure tt;
  resolve = λ path. path;
  utc_now = λ d. "2026-01-01T00:00:00Z";
  percent = λ c. "90%";
}

abbrev store : Store Disk
store = record {
  files = disk_files;
  exists = λ path d. is_there (find path d);
  listed = λ d. "a" ∷ [];
}

abbrev job : AlertJob
job = record {
  job_id = "a";
  log_path = "data/incoming/a.json";
  service_name = "auth";
  enqueued_at = "2026-01-01T00:00:00Z";
  trace_id = "a";
}

abbrev result : Value
result = failed_result "a" "a" "auth" "boom"

abbrev shown_value : Value → String
shown_value (text s) = s
shown_value other = "value"

-- A JSON reader and writer that know one result.
abbrev python : Python
python = record Tests.python {
  loads = λ s. if s == "result" then ok result else err (json_decode_error "Expecting value");
  dumps = λ v. "result";
  show = shown_value;
}

store-Durable : Durable python store
store-Durable = record {
  exists_written = λ path raw d d' h.
      let e : (path, raw) ∷ d ≡ d' = ap (λ (p : Result (Unit {0}) × Disk). p.1) h in
      rw (sym e, find-here path raw d) refl;
  read_written = λ path raw d d' h.
      let e : (path, raw) ∷ d ≡ d' = ap (λ (p : Result (Unit {0}) × Disk). p.1) h in
      rw (sym e, find-here path raw d) refl;
  show_text = λ s. refl;
}

abbrev crash : String → Option String → Exec Disk String
crash path id d = (err (type_error "boom"), d)

failed_job_status_example :
    (process python store crash job [] ≡ (ok tt, (result_path "a", "result") ∷ []))
    × ((get_alert_status python store "a" ((result_path "a", "result") ∷ [])).0
        ≡ ok (response (failed_status job)))
unfolding message
failed_job_status_example =
    failed_job_status python store store-Durable crash job (type_error "boom") [] [] []
      ((result_path "a", "result") ∷ []) refl refl refl refl

abbrev pub payload : AlertPayload
payload = record {
  service_name = "auth";
  error_type = "KeyError";
  message = "no token";
  timestamp = "2026-01-01";
  stack_trace = none;
}
