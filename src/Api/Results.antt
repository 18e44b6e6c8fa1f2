-- ===== src/Api/Results.antt =====
-- autosentinel/api/results.py: the result files and the alerts on disk.
pub mod Paths
use auto_sentinel.Prelude.{String, Bool, Option, none, some, List, if◌then◌else◌}
use auto_sentinel.Prelude.Strings.{◌+++◌, nonempty}
use auto_sentinel.Effects.{
  os_error, file_not_found, Result, ok, err, Exec, pure, lift, ◌>>=◌, ◌>>◌, try_with,
}
use auto_sentinel.Python.{Python}
use auto_sentinel.Python.Json.{Value, null, text, object, field, end}
use auto_sentinel.Nodes.Files.{Files}

-- What the gateway uses of the file system.
pub record Store (S : Type 0) : Type 0 where
  pub files : Files S
  -- `Path(path).exists()`
  pub exists : String → S → Bool
  -- `sorted(_OUTPUT.glob("*-result.json"))`, each name without the suffix.
  pub listed : S → List String

abbrev pub result_path : String → String
result_path job_id = "output/" +++ job_id +++ "-result.json"

abbrev pub incoming_path : String → String
incoming_path job_id = "data/incoming/" +++ job_id +++ ".json"

abbrev pub text_or : String → String → String
text_or s d = if nonempty s then s else d

-- The payload of `write_failed_result`.
abbrev pub failed_result : String → String → String → String → Value
failed_result job_id trace_id service_name error = object (
    field "trace_id" (text (text_or trace_id job_id)) (
      field "status" (text "failed") (
        field "diagnosis" null (
          field "fix" null (
            field "service_name" (text service_name)
              (field "error_type" null (field "error" (text error) end)))))))

-- `except OSError`; a missing file is one.
abbrev pub swallow_os_error : {S : Type 0} → Result (Unit {0}) → Exec S (Unit {0})
swallow_os_error (err (os_error e)) = pure tt
swallow_os_error (err (file_not_found e)) = pure tt
swallow_os_error r = lift r

module _ {S : Type 0} (py : Python) (store : Store S) where
  -- `load_result`
  unfoldable pub load_result : String → Exec S (Option Value)
  load_result job_id s =
      if store.exists (result_path job_id) s
      then (do
        raw ← store.files.read_text (result_path job_id)
        v ← lift (py.loads raw)
        pure (some v))
          s
      else (ok none, s)

  -- `write_failed_result`
  unfoldable pub write_failed_result : String → String → String → String → Exec S (Unit {0})
  write_failed_result job_id trace_id service_name error =
      try_with
        (do
          store.files.make_dir "output"
          store.files.write_text (result_path job_id)
              (py.dumps (failed_result job_id trace_id service_name error)))
        swallow_os_error
