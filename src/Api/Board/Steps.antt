-- ===== src/Api/Board/Steps.antt =====
-- What autosentinel/api/main.py and queue.py promise of a submission and of a turn of the worker: the steps
-- of an office.
use auto_sentinel.Prelude.{ℕ, false, String, ◌≡◌, true, Option, none, some, List, [], ◌∷◌}
use auto_sentinel.Effects.{Exec, Exc, ok, err}
use auto_sentinel.Llm.Protocol.{is_trace_id}
use auto_sentinel.Api.Routes.{AlertPayload}
use auto_sentinel.Api.Board.{Office, Opens, Same, settled}

-- A POST of an alert with its header, or a turn of the worker.
pub data Event : Type 0 where
  alert : Option String → AlertPayload → Event
  turn : Event

-- What a client gets, by the id in the answer or the code of the refusal, an exception of the route,
-- or the end of the worker's turn.
pub data Answer : Type 0 where
  accepted : String → Answer
  refused : ℕ → Answer
  failed : Exc → Answer
  worked : Answer

-- The steps of an office, by the event and its answer; `token_hex` is the source of new ids.
pub data OfficeStep {S : Type 0} (token_hex : Exec S String) (o p : Office)
    : Event → Answer → Type 0 where
  opens_new :
      (payload : AlertPayload) (id : String) (s : S)
      → (token_hex s).0 ≡ ok id
      → Opens id o p
      → OfficeStep token_hex o p (alert none payload) (accepted id)
  opens_given :
      (payload : AlertPayload) (id : String)
      → is_trace_id id ≡ true
      → Opens id o p
      → OfficeStep token_hex o p (alert (some id) payload) (accepted id)
  refuses :
      (payload : AlertPayload) (id : String)
      → is_trace_id id ≡ false
      → Same o p
      → OfficeStep token_hex o p (alert (some id) payload) (refused 400)
  draws_none :
      (payload : AlertPayload) (e : Exc) (s : S)
      → (token_hex s).0 ≡ err e
      → Same o p
      → OfficeStep token_hex o p (alert none payload) (failed e)
  settles :
      (id : String)
      → o.waiting ≡ id ∷ p.waiting
      → ((j : String) → p.board j ≡ settled id o.board j)
      → OfficeStep token_hex o p turn worked
  idles : o.waiting ≡ [] → Same o p → OfficeStep token_hex o p turn worked

-- The steps of a sequence of events, with the answers to them.
pub data OfficeReach {S : Type 0} (token_hex : Exec S String) (q : Office)
    : List Event → List Answer → Office → Type 0 where
  done : OfficeReach token_hex q [] [] q
  next :
      {o p : Office} {e : Event} {a : Answer} {es : List Event} {answers : List Answer}
      → OfficeStep token_hex o p e a
      → OfficeReach token_hex q es answers p
      → OfficeReach token_hex q (e ∷ es) (a ∷ answers) o
