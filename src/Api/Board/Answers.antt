-- ===== src/Api/Board/Answers.antt =====
-- What the status route of autosentinel/api/main.py says of a job, by its status on the board.
use auto_sentinel.Prelude.{String, ◌≡◌, refl, ◌∙◌, ap, Bool, true, false, none, some}
use auto_sentinel.Prelude.Strings.{◌+++◌}
use auto_sentinel.Effects.{Result, ok, err, Exec, continue, lift, pure, ◌>>=◌}
use auto_sentinel.Python.{Python}
use auto_sentinel.Python.Json.{Value}
use auto_sentinel.Api.Results.{Store, result_path, incoming_path, load_result}
use auto_sentinel.Api.Routes.{
  Reply, response, http_error, AlertStatusResponse, found, reported, get_alert_status,
}
use auto_sentinel.Api.Board.{JobStatus, unknown, pending, answered, status_by, view}

module _ {S : Type 0} (py : Python) (store : Store S) where
  -- The answer that is read from a result file.
  abbrev pub from_result : String → Exec S (Reply AlertStatusResponse)
  from_result id = do
    raw ← store.files.read_text (result_path id)
    v ← lift (py.loads raw)
    found py store id v

  abbrev pub processing : String → AlertStatusResponse
  processing id = record {
    job_id = id;
    trace_id = id;
    status = "processing";
    diagnosis = none;
    fix = none;
    report_path = none;
  }

  -- How the route answers for a status.
  abbrev pub answer_for : JobStatus → String → Exec S (Reply AlertStatusResponse)
  answer_for unknown id = pure (http_error 404 ("job " +++ py.repr id +++ " not found"))
  answer_for pending id = pure (response (processing id))
  answer_for answered id = from_result id

  loaded_found :
      (id : String) (v : Result Value) (s : S)
      → continue (continue (v, s) (λ x. pure {S = S} (some x))) (reported py store id)
        ≡ continue (v, s) (found py store id)
  loaded_found id (ok v) s = refl
  loaded_found id (err e) s = refl

  read_found :
      (id : String) (q : Result String × S)
      → continue
          (continue q (λ raw. lift (py.loads raw) >>= λ x. pure {S = S} (some x)))
          (reported py store id)
        ≡ continue q (λ raw. lift (py.loads raw) >>= found py store id)
  read_found id (ok raw, s) = loaded_found id (py.loads raw) s
  read_found id (err e, s) = refl

  answer_by :
      (id : String) (s : S) (r i : Bool)
      → store.exists (result_path id) s ≡ r
      → store.exists (incoming_path id) s ≡ i
      → get_alert_status py store id s ≡ answer_for (status_by r i) id s
  unfolding get_alert_status load_result
  answer_by id s true i h k = rw h (read_found id (store.files.read_text (result_path id) s))
  answer_by id s false true h k = rw (h, k) refl
  answer_by id s false false h k = rw (h, k) refl

  -- The route says what the board says: 404 for an id without an alert, `processing` for an alert
  -- without a result, and otherwise what the result file holds; it changes nothing by itself.
  pub get_alert_status-view :
      (id : String) (s : S) → get_alert_status py store id s ≡ answer_for (view store s id) id s
  get_alert_status-view id s =
      answer_by id s (store.exists (result_path id) s) (store.exists (incoming_path id) s) refl refl

  pub get_alert_status-answered :
      (id : String) (s : S)
      → view store s id ≡ answered
      → get_alert_status py store id s ≡ from_result id s
  get_alert_status-answered id s h = get_alert_status-view id s ∙ ap (λ b. answer_for b id s) h
