-- ===== src/Api/Routes.antt =====
-- autosentinel/api/main.py: the routes that accept an alert and report its status, with the models of
-- autosentinel/api/models.py. The queue is a list, its oldest job first; an HTTP error is a value.
pub mod Lifecycle
use auto_sentinel.Prelude.{
  ℕ, String, Bool, true, false, Option, none, some, List, [], ◌∷◌, ◌++◌, if◌then◌else◌,
}
use auto_sentinel.Prelude.Strings.{◌+++◌}
use auto_sentinel.Effects.{
  value_error, type_error, Result, ok, err, bind, Exec, pure, lift, ◌>>=◌, ◌>>◌,
}
use auto_sentinel.Python.{Python}
use auto_sentinel.Python.Json.{Value, null, text, object, field, end, truthy, lookup, get}
use auto_sentinel.Llm.Protocol.{is_trace_id}
use auto_sentinel.Api.Results.{Store, load_result, incoming_path}
use auto_sentinel.Api.Worker.{AlertJob}

pub record AlertPayload : Type 0 where
  pub service_name : String
  pub error_type : String
  pub message : String
  pub timestamp : String
  pub stack_trace : Option String

pub record AlertJobResponse : Type 0 where
  pub job_id : String
  pub status : String
  pub message : String
  pub trace_id : String

pub record DiagnosisResult : Type 0 where
  pub category : String
  pub severity : String
  pub summary : String

pub record FixResult : Type 0 where
  pub fix_plan : String
  pub risk_level : String
  pub code_diff : String

pub record AlertStatusResponse : Type 0 where
  pub job_id : String
  pub trace_id : String
  pub status : String
  pub diagnosis : Option DiagnosisResult
  pub fix : Option FixResult
  pub report_path : Option String

-- A response, or an HTTPException with its code and detail.
pub data Reply (A : Type 0) : Type 0 where
  response : A → Reply A
  http_error : ℕ → String → Reply A

abbrev pub text_or_null : Option String → Value
text_or_null none = null
text_or_null (some s) = text s

-- `payload.model_dump()`
abbrev pub dump : AlertPayload → Value
dump p = object (
    field "service_name" (text p.service_name) (
      field "error_type" (text p.error_type) (
        field "message" (text p.message) (
          field "timestamp" (text p.timestamp)
            (field "stack_trace" (text_or_null p.stack_trace) end)))))

-- A field of type `str`: pydantic does not make a text of another value.
abbrev pub str_field : Option Value → Result String
str_field (some (text s)) = ok s
str_field other = err (value_error "Input should be a valid string")

abbrev pub optional_str : Value → Result (Option String)
optional_str null = ok none
optional_str (text s) = ok (some s)
optional_str other = err (value_error "Input should be a valid string")

-- `DiagnosisResult(**diagnosis)`: only a dict can be spread.
unfoldable pub diagnosis_result : Value → Result DiagnosisResult
diagnosis_result (object fs) = bind (str_field (lookup "category" fs)) λ category.
    bind (str_field (lookup "severity" fs)) λ severity.
      bind (str_field (lookup "summary" fs))
        λ summary. ok (record { category = category; severity = severity; summary = summary })
diagnosis_result other = err (type_error "argument after ** must be a mapping")

-- `FixResult(**fix)`
unfoldable pub fix_result : Value → Result FixResult
fix_result (object fs) = bind (str_field (lookup "fix_plan" fs)) λ fix_plan.
    bind (str_field (lookup "risk_level" fs)) λ risk_level.
      bind (str_field (lookup "code_diff" fs)) λ code_diff.
        ok (record { fix_plan = fix_plan; risk_level = risk_level; code_diff = code_diff })
fix_result other = err (type_error "argument after ** must be a mapping")

-- `build(v) if v else None`
abbrev pub if_truthy : {A : Type 0} → (Value → Result A) → Value → Result (Option A)
if_truthy build v = if truthy v then bind (build v) (λ r. ok (some r)) else ok none

module _ {S : Type 0} (py : Python) (store : Store S) where
  -- `str(data.get(key) or default)`
  abbrev pub shown_or : Value → String → String → Result String
  shown_or loaded key default =
      bind (get loaded key null) λ v. ok (if truthy v then py.show v else default)

  -- The response that `get_alert_status` builds from a result file.
  unfoldable pub status_of : String → Value → Result AlertStatusResponse
  unfolding get diagnosis_result fix_result
  status_of job_id loaded = bind (get loaded "diagnosis" null) λ diagnosis.
      bind (get loaded "fix" null) λ fix. bind (shown_or loaded "trace_id" job_id) λ trace_id.
        bind (shown_or loaded "status" "completed") λ status.
          bind (if_truthy diagnosis_result diagnosis) λ diagnosis_part.
            bind (if_truthy fix_result fix) λ fix_part.
              bind (get loaded "report_path" null) λ report.
                bind (optional_str report) λ report_path. ok (record {
                  job_id = job_id;
                  trace_id = trace_id;
                  status = status;
                  diagnosis = diagnosis_part;
                  fix = fix_part;
                  report_path = report_path;
                })

  abbrev pub found : String → Value → Exec S (Reply AlertStatusResponse)
  found job_id loaded = lift (bind (status_of job_id loaded) (λ r. ok (response r)))

  abbrev pub waiting : String → Exec S (Reply AlertStatusResponse)
  waiting job_id s =
      if store.exists (incoming_path job_id) s
      then (
        ok (
            response (record {
              job_id = job_id;
              trace_id = job_id;
              status = "processing";
              diagnosis = none;
              fix = none;
              report_path = none;
            })),
        s,
      )
      else (ok (http_error 404 ("job " +++ py.repr job_id +++ " not found")), s)

  abbrev pub reported : String → Option Value → Exec S (Reply AlertStatusResponse)
  reported job_id none = waiting job_id
  reported job_id (some loaded) = found job_id loaded

  -- `get_alert_status`
  unfoldable pub get_alert_status : String → Exec S (Reply AlertStatusResponse)
  unfolding load_result status_of
  get_alert_status job_id = do result ← load_result py store job_id; reported job_id result

  -- The id of an alert: the header's, if it has the form of a trace id, or a new one.
  abbrev pub choose_id : Exec S String → Option String → Exec S (Reply String)
  choose_id token_hex none = do id ← token_hex; pure (response id)
  choose_id token_hex (some id) = pure (
      if is_trace_id id
      then response id
      else http_error 400
          "invalid X-Trace-Id: must be a 32-character lowercase hex string matching ^[0-9a-f]{32}$")

  abbrev pub job_of : String → AlertPayload → String → AlertJob
  job_of id payload now = record {
    job_id = id;
    log_path = incoming_path id;
    service_name = payload.service_name;
    enqueued_at = now;
    trace_id = id;
  }

  abbrev pub accept :
      AlertPayload → List AlertJob → Reply String → Exec S (Reply AlertJobResponse × List AlertJob)
  accept payload queue (http_error code why) = pure (http_error code why, queue)
  accept payload queue (response id) = do
    store.files.write_text (incoming_path id) (py.dumps_line (dump payload))
    now ← λ s. (ok (store.files.utc_now s), s)
    pure (
      response (record {
        job_id = id;
        status = "accepted";
        message = "Alert accepted for processing";
        trace_id = id;
      }),
      queue ++ job_of id payload now ∷ [],
    )

  -- `ingest_alert`, with the queue before and after.
  unfoldable pub ingest_alert :
      Exec S String
      → Option String
      → AlertPayload
      → List AlertJob
      → Exec S (Reply AlertJobResponse × List AlertJob)
  unfolding is_trace_id
  ingest_alert token_hex header payload queue = do
    id ← choose_id token_hex header
    accept payload queue id
