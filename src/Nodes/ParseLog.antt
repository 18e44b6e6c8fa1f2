-- ===== src/Nodes/ParseLog.antt =====
-- autosentinel/nodes/parse_log.py
pub mod Outcome
pub mod Shape
use auto_sentinel.Prelude.{String, Option, none, some, List, [], ◌∷◌, if◌then◌else◌}
use auto_sentinel.Prelude.Strings.{◌+++◌, join}
use auto_sentinel.Effects.{
  Exc, file_not_found, json_decode_error, Result, ok, err, bind, Exec, pure, raise, ◌>>=◌, try_with,
}
use auto_sentinel.Python.{Python}
use auto_sentinel.Python.Json.{Value, null, truthy, get}
use auto_sentinel.State.{AgentState, ErrorLog, Update, Write}
use auto_sentinel.Nodes.Files.{Files}

-- `_REQUIRED_FIELDS`
abbrev pub required_fields : List String
required_fields = "timestamp" ∷ "service_name" ∷ "error_type" ∷ "message" ∷ []

-- `[f for f in fields if not loaded.get(f)]`
unfoldable pub missing : Value → List String → Result (List String)
missing loaded [] = ok []
missing loaded (f ∷ fs) =
    let rest = missing loaded fs in
    bind (get loaded f null) λ v. bind rest λ more. ok (if truthy v then more else f ∷ more)

-- `ErrorLog(...)`: the required keys are there, and the trace may be absent.
unfoldable pub error_log_of : Value → Result ErrorLog
error_log_of loaded = bind (get loaded "timestamp" null) λ timestamp.
    bind (get loaded "service_name" null) λ service_name.
      bind (get loaded "error_type" null) λ error_type. bind (get loaded "message" null) λ message.
        bind (get loaded "stack_trace" null) λ stack_trace. ok (record {
          timestamp = timestamp;
          service_name = service_name;
          error_type = error_type;
          message = message;
          stack_trace = stack_trace;
        })

abbrev pub failed : String → Update
failed why = Write.error_log none ∷ Write.parse_error (some why) ∷ []

abbrev pub parsed : ErrorLog → Update
parsed log = Write.error_log (some log) ∷ Write.parse_error none ∷ []

module _ (py : Python) where
  abbrev pub checked : String → Value → List String → Result Update
  checked path loaded [] = bind (error_log_of loaded) λ log. ok (parsed log)
  checked path loaded (f ∷ fs) =
      ok (
        failed
          ("Missing required fields in " +++ py.path_name path +++ ": " +++ join ", " (f ∷ fs)))

  abbrev pub decoded : String → Result Value → Result Update
  decoded path (ok loaded) = bind (missing loaded required_fields) (checked path loaded)
  decoded path (err (json_decode_error e)) =
      ok (failed ("Invalid JSON in " +++ py.path_name path +++ ": " +++ e))
  decoded path (err e) = err e

  -- What follows `read_text`.
  unfoldable pub parse_text : String → Result String → Result Update
  unfolding missing error_log_of get
  parse_text path (ok raw) = decoded path (py.loads raw)
  parse_text path (err (file_not_found e)) =
      ok (failed ("Log file not found: " +++ py.path_text path))
  parse_text path (err e) = err e

  unfoldable pub parse_log : {S : Type 0} → Files S → AgentState → Exec S Update
  unfolding parse_text
  parse_log files st s =
      let (r, s') = files.read_text st.log_path s in (parse_text st.log_path r, s')
