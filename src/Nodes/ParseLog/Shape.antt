-- ===== src/Nodes/ParseLog/Shape.antt =====
-- The two updates that autosentinel/nodes/parse_log.py may return.
use auto_sentinel.Prelude.{String, ◌≡◌, ◌⊎◌, inl, inr, List, [], ◌∷◌}
use auto_sentinel.Effects.{file_not_found, json_decode_error, Result, ok, err, bind}
use auto_sentinel.Python.{Python}
use auto_sentinel.Python.Json.{Value}
use auto_sentinel.State.{ErrorLog, Update}
use auto_sentinel.Nodes.ParseLog.{
  required_fields, missing, error_log_of, parse_text, failed, parsed, checked, decoded,
}

-- The update reports an error, or writes a log.
abbrev pub IsLogUpdate : Update → Type 0
IsLogUpdate u = ((why : String) × (u ≡ failed why)) ⊎ ((log : ErrorLog) × (u ≡ parsed log))

IsLogUpdate-failed :
    (why : String) (u : Update) → ◌≡◌ {A = Result Update} (ok (failed why)) (ok u) → IsLogUpdate u
IsLogUpdate-failed why u e = inl (why, cc)

IsLogUpdate-parsed :
    (q : Result ErrorLog) (u : Update) → bind q (λ log. ok (parsed log)) ≡ ok u → IsLogUpdate u
IsLogUpdate-parsed (ok log) u e = inr (log, cc)
IsLogUpdate-parsed (err x) u e = absurd (cc)

module _ (py : Python) (path : String) where
  IsLogUpdate-checked :
      (v : Value) (q : Result (List String)) (u : Update)
      → bind q (checked py path v) ≡ ok u
      → IsLogUpdate u
  IsLogUpdate-checked v (err x) u e = absurd (cc)
  IsLogUpdate-checked v (ok []) u e = IsLogUpdate-parsed (error_log_of v) u e
  IsLogUpdate-checked v (ok (f ∷ fs)) u e = IsLogUpdate-failed _ u e

  IsLogUpdate-decoded : (q : Result Value) (u : Update) → decoded py path q ≡ ok u → IsLogUpdate u
  IsLogUpdate-decoded (ok v) u e = IsLogUpdate-checked v (missing v required_fields) u e
  IsLogUpdate-decoded (err (json_decode_error x)) u e = IsLogUpdate-failed _ u e
  IsLogUpdate-decoded (err x) u e = absurd (cc)

  pub IsLogUpdate-parse_text :
      (q : Result String) (u : Update) → parse_text py path q ≡ ok u → IsLogUpdate u
  unfolding parse_text
  IsLogUpdate-parse_text (ok raw) u e = IsLogUpdate-decoded (py.loads raw) u e
  IsLogUpdate-parse_text (err (file_not_found x)) u e = IsLogUpdate-failed _ u e
  IsLogUpdate-parse_text (err x) u e = absurd (cc)
