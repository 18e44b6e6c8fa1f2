-- ===== src/Api/Logging.antt =====
-- autosentinel/api/logging.py: the lines that the gateway logs, and its loggers. The clock and the writer
-- of JSON on one line are parameters.
use auto_sentinel.Prelude.{
  ℕ, zero, suc, String, ◌≡◌, refl, Bool, true, false, Option, none, some, if◌then◌else◌, ◌∷◌,
}
use auto_sentinel.Prelude.Strings.{◌+++◌, starts, drop, size}
use auto_sentinel.Prelude.Dict.{Dict, find, find-here}
use auto_sentinel.Python.Json.{Value, text, object, field, end, value_or}
use Prim.Native.String.{String}

-- A log record, with the attributes that `extra` may have set.
pub record LogRecord : Type 0 where
  pub levelname : String
  pub name : String
  pub message : String
  pub correlation_id : Option Value
  pub trace_id : Option Value
  pub event : Option Value
  pub event_payload : Option Value

-- `s.replace(old, "", 1)`
unfoldable pub remove_first : String → String → String
unfolding starts
remove_first old String.[] = if starts old "" then drop (size old) "" else ""
remove_first old (String.◌∷◌ c s) =
    if starts old (String.◌∷◌ c s)
    then drop (size old) (String.◌∷◌ c s)
    else String.◌∷◌ c (remove_first old s)

-- The dict that `JSONFormatter.format` writes.
unfoldable pub entry : String → LogRecord → Value
unfolding remove_first
entry now r = object (
    field "timestamp" (text now) (
      field "severity" (text r.levelname) (
        field "component" (text (remove_first "autosentinel." r.name)) (
          field "correlation_id" (value_or (text "") r.correlation_id) (
            field "trace_id" (value_or (text "") r.trace_id) (
              field "event" (value_or (text r.message) r.event)
                (field "event_payload" (value_or (object end) r.event_payload) end)))))))

-- `JSONFormatter.format`
abbrev pub format : (Value → String) → String → LogRecord → String
format dumps now r = dumps (entry now r)

-- A logger: how many handlers it has, its level and whether it passes records on.
pub record Logger : Type 0 where
  pub handlers : ℕ
  pub level : String
  pub propagate : Bool

abbrev pub fresh : Logger
fresh = record { handlers = 0; level = "NOTSET"; propagate = true }

abbrev pub logger_or : Option Logger → Logger
logger_or none = fresh
logger_or (some l) = l

-- A logger without handlers gets one; another one is left as it is.
abbrev pub configured : ℕ → Logger → Logger
configured zero l = record { handlers = 1; level = "DEBUG"; propagate = false }
configured (suc n) l = l

abbrev pub logger_name : String → String
logger_name component = "autosentinel." +++ component

-- `get_logger`, on the loggers that the process has.
unfoldable pub get_logger : String → Dict Logger → Logger × Dict Logger
unfolding ◌+++◌
get_logger component loggers =
    let l = logger_or (find (logger_name component) loggers) in
    let l' = configured l.handlers l in (l', (logger_name component, l') ∷ loggers)

-- A second call returns the same logger, and adds no handler.
pub get_logger-again :
    (component : String) (loggers : Dict Logger)
    → let (l, later) = get_logger component loggers in (get_logger component later).0 ≡ l
unfolding get_logger
get_logger-again component loggers =
    let l = logger_or (find (logger_name component) loggers) in
    rw (find-here (logger_name component) (configured l.handlers l) loggers)
      (kept l.handlers l refl)
  where
    kept :
        (n : ℕ) (l : Logger)
        → l.handlers ≡ n
        → configured (configured n l).handlers (configured n l) ≡ configured n l
    kept zero l h = refl
    kept (suc n) l h = rw h refl
