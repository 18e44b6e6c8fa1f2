-- ===== src/Nodes/ParseLog/Outcome.antt =====
-- What autosentinel/nodes/parse_log.py lets through.
use auto_sentinel.Prelude.{
  String, ◌≡◌, refl, ◌⊎◌, inl, inr, Bool, true, false, Bool-cases, Option, none, some,
}
use auto_sentinel.Effects.{Exc, file_not_found, json_decode_error, Result, ok, err, bind}
use auto_sentinel.Python.{Python}
use auto_sentinel.Python.Json.{Value, Fields, null, object, truthy, get, lookup, value_or}
use auto_sentinel.State.{AgentState, ErrorLog, Update, merge}
use auto_sentinel.Nodes.ParseLog.{
  required_fields, missing, error_log_of, checked, decoded, parse_text,
}

-- Every required field of the log holds something.
abbrev pub IsComplete : ErrorLog → Type 0
IsComplete log =
    (truthy log.timestamp ≡ true)
    × (truthy log.service_name ≡ true)
    × (truthy log.error_type ≡ true)
    × (truthy log.message ≡ true)

-- A node that returned has written a complete log and no error, or an error and no log.
abbrev pub Parsed : Option ErrorLog → Option String → Type 0
Parsed (some log) error = (error ≡ none) × IsComplete log
Parsed none error = (why : String) × (error ≡ some why)

abbrev pub is_object : Value → Bool
is_object (object fs) = true
is_object other = false

module _ (py : Python) (path : String) (st : AgentState) where
  -- What the node raises: an error of the file system, an exception of `json.loads` other than
  -- JSONDecodeError, or an exception because the JSON value is no object.
  abbrev pub Raised : Result String → Exc → Type 0
  Raised read e =
      (read ≡ err e)
      ⊎ ((raw : String) × (read ≡ ok raw)
          × ((py.loads raw ≡ err e)
              ⊎ ((v : Value) × (py.loads raw ≡ ok v) × (is_object v ≡ false))))

  abbrev pub Fits : Result String → Result Update → Type 0
  Fits read (ok u) = Parsed (merge u st).error_log (merge u st).parse_error
  Fits read (err e) = Raised read e

  Fits-object :
      (read : Result String) (fs : Fields)
      → Fits read (bind (missing (object fs) required_fields) (checked py path (object fs)))
  unfolding missing error_log_of get merge
  Fits-object read fs = elim (Bool-cases (truthy (value_or null (lookup "timestamp" fs)))) [
    | inr a ↦ rw a (_, refl)
    | inl a ↦ elim (Bool-cases (truthy (value_or null (lookup "service_name" fs)))) [
      | inr b ↦ rw (a, b) (_, refl)
      | inl b ↦ elim (Bool-cases (truthy (value_or null (lookup "error_type" fs)))) [
        | inr c ↦ rw (a, b, c) (_, refl)
        | inl c ↦ elim (Bool-cases (truthy (value_or null (lookup "message" fs)))) [
          | inr d ↦ rw (a, b, c, d) (_, refl)
          | inl d ↦ rw (a, b, c, d) (refl, (a, b, c, d))
        ]
      ]
    ]
  ]

  Fits-loaded :
      (read : Result String) (raw : String) (v : Value)
      → read ≡ ok raw
      → py.loads raw ≡ ok v
      → Fits read (bind (missing v required_fields) (checked py path v))
  unfolding missing get
  Fits-loaded read raw (object fs) h e = Fits-object read fs
  Fits-loaded read raw v h e = inr (raw, h, inr (_, e, refl))

  Fits-decoded :
      (read : Result String) (raw : String) (r : Result Value)
      → read ≡ ok raw
      → py.loads raw ≡ r
      → Fits read (decoded py path r)
  unfolding merge
  Fits-decoded read raw (ok v) h e = Fits-loaded read raw v h e
  Fits-decoded read raw (err (json_decode_error x)) h e = (_, refl)
  Fits-decoded read raw (err x) h e = inr (raw, h, inl e)

  -- If the node returns, the state holds a log in which each required field is there and truthy, and
  -- no error; or an error and no log. Otherwise the file system failed, `json.loads` raised
  -- something other than JSONDecodeError, or the file's JSON is no object.
  pub parse_text-Fits : (read : Result String) → Fits read (parse_text py path read)
  unfolding parse_text merge
  parse_text-Fits (ok raw) = Fits-decoded (ok raw) raw (py.loads raw) refl refl
  parse_text-Fits (err (file_not_found x)) = (_, refl)
  parse_text-Fits (err x) = inl refl
