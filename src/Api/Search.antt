-- ===== src/Api/Search.antt =====
-- The keyword search of autosentinel/api/results.py over the stored results.
pub mod Order
pub mod Ranking
use auto_sentinel.Prelude.{
  ℕ, zero, suc, ◌+◌, String, Bool, true, false, ◌&&◌, ◌||◌, Option, none, some, List, [], ◌∷◌, ◌++◌,
  if◌then◌else◌, take, ltb, leb, nat_eq,
}
use auto_sentinel.Prelude.Int.{ℤ, pos, negsuc}
use auto_sentinel.Prelude.Strings.{◌+++◌, nonempty, contains, prefix}
use auto_sentinel.Effects.{
  Exc, os_error, file_not_found, json_decode_error, Result, ok, err, bind, Exec, pure, raise, lift,
  ◌>>=◌, try_with,
}
use auto_sentinel.Python.{Python}
use auto_sentinel.Python.Json.{Value, null, object, end, truthy, get}
use auto_sentinel.Api.Results.{Store, result_path, incoming_path}
use Order.{text_leb}

pub record Incident : Type 0 where
  pub id : String
  pub title : String
  pub resolution : String

pub record Scored : Type 0 where
  pub score : ℕ
  pub incident : Incident

-- `max(1, min(50, limit))`
unfoldable pub clamp : ℤ → ℕ
clamp (pos n) = if leb 50 n then 50 else if leb n 1 then 1 else n
clamp (negsuc n) = 1

-- The number of fields that hold the term.
abbrev pub hits : String → List String → ℕ
hits term [] = 0
hits term (f ∷ fs) = (if contains term f then 1 else 0) + hits term fs

-- `sum(1 for term in terms for field in haystack if term in field)`, on the lowered fields.
unfoldable pub score_of : List String → List String → ℕ
unfolding contains
score_of [] fields = 0
score_of (t ∷ ts) fields = hits t fields + score_of ts fields

abbrev pub title_of : String → String → String → String → String
title_of error_type service_name summary job_id =
    if nonempty error_type && nonempty service_name
    then error_type +++ " in " +++ service_name
    else if nonempty summary
    then prefix 80 summary
    else job_id

-- The key `(-score, id)`: a higher score first, and then the smaller id.
abbrev pub goes_first : Scored → Scored → Bool
goes_first a b =
    ltb b.score a.score || (nat_eq a.score b.score && text_leb a.incident.id b.incident.id)

-- `list.sort` is stable: an item goes before those that it does not follow.
unfoldable pub insert : Scored → List Scored → List Scored
unfolding text_leb
insert x [] = x ∷ []
insert x (y ∷ ys) = if goes_first x y then x ∷ y ∷ ys else y ∷ insert x ys

unfoldable pub sort : List Scored → List Scored
unfolding insert
sort [] = []
sort (x ∷ xs) = insert x (sort xs)

abbrev pub incidents_of : List Scored → List Incident
incidents_of [] = []
incidents_of (x ∷ xs) = x.incident ∷ incidents_of xs

module _ {S : Type 0} (py : Python) (split : String → List String) (store : Store S) where
  -- `str(v or "")`
  abbrev pub shown : Value → String
  shown v = if truthy v then py.show v else ""

  -- `v or {}`
  abbrev pub or_empty : Value → Value
  or_empty v = if truthy v then v else object end

  abbrev pub lowered : List String → List String
  lowered [] = []
  lowered (f ∷ fs) = py.lower f ∷ lowered fs

  -- The message and the trace of the alert behind a result, where its file is there.
  abbrev pub alert_fields : String → Exec S (List String)
  alert_fields job_id s =
      if store.exists (incoming_path job_id) s
      then (do
        raw ← store.files.read_text (incoming_path job_id)
        payload ← lift (py.loads raw)
        message ← lift (get payload "message" null)
        stack_trace ← lift (get payload "stack_trace" null)
        pure (shown message ∷ shown stack_trace ∷ []))
          s
      else (ok [], s)

  abbrev pub entry : String → ℕ → String → String → String → String → Value → List Scored
  entry job_id zero error_type service_name summary fix_plan trace_id = []
  entry job_id (suc n) error_type service_name summary fix_plan trace_id =
      (record {
        score = suc n;
        incident = record {
          id = if truthy trace_id then py.show trace_id else job_id;
          title = title_of error_type service_name summary job_id;
          resolution = if nonempty fix_plan then fix_plan else summary;
        };
      })
      ∷ []

  -- The loop's body behind the `try`: no entry, or one with a score.
  abbrev pub scored : List String → String → Value → Exec S (List Scored)
  scored terms job_id loaded = do
    diagnosis ← lift (get loaded "diagnosis" null)
    fix ← lift (get loaded "fix" null)
    error_type ← lift (get loaded "error_type" null)
    service_name ← lift (get loaded "service_name" null)
    summary ← lift (get (or_empty diagnosis) "summary" null)
    fix_plan ← lift (get (or_empty fix) "fix_plan" null)
    more ← alert_fields job_id
    trace_id ← lift (get loaded "trace_id" null)
    let fields =
        (shown error_type ∷ shown service_name ∷ shown summary ∷ shown fix_plan ∷ []) ++ more
    pure (
        entry job_id (score_of terms (lowered fields)) (shown error_type) (shown service_name)
          (shown summary) (shown fix_plan) trace_id)

  -- `except (OSError, json.JSONDecodeError): continue`
  abbrev pub or_skip : List String → String → Result Value → Exec S (List Scored)
  or_skip terms job_id (ok loaded) = scored terms job_id loaded
  or_skip terms job_id (err (os_error e)) = pure []
  or_skip terms job_id (err (file_not_found e)) = pure []
  or_skip terms job_id (err (json_decode_error e)) = pure []
  or_skip terms job_id (err e) = raise e

  abbrev pub read_result : String → Exec S Value
  read_result job_id = do raw ← store.files.read_text (result_path job_id); lift (py.loads raw)

  -- The loop over the result files.
  unfoldable pub score_all : List String → List String → Exec S (List Scored)
  unfolding score_of get
  score_all terms [] = pure []
  score_all terms (job_id ∷ rest) = do
    first ← try_with (read_result job_id) (or_skip terms job_id)
    others ← score_all terms rest
    pure (first ++ others)

  -- `search_incidents`
  unfoldable pub search_incidents : String → ℤ → Exec S (List Incident)
  unfolding score_all sort clamp
  search_incidents q limit s =
      (do
        found ← score_all (split (py.lower q)) (store.listed s)
        pure (take (clamp limit) (incidents_of (sort found))))
        s
