-- ===== src/Llm/Mock/Calls.antt =====
-- Sequences of calls of the test double in autosentinel/llm/mock_client.py.
use auto_sentinel.Prelude.{
  ℕ, ◌+◌, ◌≡◌, refl, ◌∙◌, ap, true, Bool-cases, inl, inr, Option, none, some, List, [], ◌∷◌,
  if◌then◌else◌, arith,
}
use auto_sentinel.Effects.{Exc, ok, err}
use auto_sentinel.Llm.Protocol.{LlmRequest, LlmResponse, request_valid, make_request}
use auto_sentinel.Llm.Mock.{MockLlmClient, with_fixture_response, with_error, reply, complete}

-- The client after the calls of a test, whichever of them raise.
abbrev pub complete_all : List LlmRequest → MockLlmClient → MockLlmClient
complete_all [] m = m
complete_all (r ∷ rs) m = complete_all rs (complete r m).1

-- How many of the requests are valid, and the last of these.
abbrev pub valid_count : List LlmRequest → ℕ
valid_count [] = 0
valid_count (r ∷ rs) = (if request_valid r then 1 else 0) + valid_count rs

abbrev pub last_valid : Option LlmRequest → List LlmRequest → Option LlmRequest
last_valid before [] = before
last_valid before (r ∷ rs) = last_valid (if request_valid r then some r else before) rs

pub record Observed (m : MockLlmClient) (rs : List LlmRequest) (n : MockLlmClient) : Type 0 where
  pub counted : n.call_count ≡ m.call_count + valid_count rs
  pub last : n.last_request ≡ last_valid m.last_request rs

reply-Observed :
    (req : LlmRequest) (m : MockLlmClient) (e : Option Exc) (f : Option LlmResponse)
    → let n = (reply e f (record m { call_count = m.call_count + 1; last_request = some req })).1 in
      (n.call_count ≡ m.call_count + 1) × (n.last_request ≡ some req)
reply-Observed req m (some e) f = (refl, refl)
reply-Observed req m none (some response) = (refl, refl)
reply-Observed req m none none = (refl, refl)

complete-Observed :
    (req : LlmRequest) (m : MockLlmClient) → Observed m (req ∷ []) (complete req m).1
unfolding complete make_request
complete-Observed req m =
    let (counted, last) = reply-Observed req m m.next_error m.fixture_response in
    elim (Bool-cases (request_valid req)) [
      | inl valid ↦ record { counted = rw valid (counted ∙ omega arith); last = rw valid last }
      | inr invalid ↦ record { counted = rw invalid (omega arith); last = rw invalid refl }
    ]

-- After any calls, whichever of them raised, the counter has counted exactly the valid requests, and
-- the last request is the last of these.
pub complete_all-Observed :
    (rs : List LlmRequest) (m : MockLlmClient) → Observed m rs (complete_all rs m)
complete_all-Observed [] m = record { counted = omega arith; last = refl }
complete_all-Observed (r ∷ rs) m =
    let first = complete-Observed r m in
    let rest = complete_all-Observed rs (complete r m).1 in
    record {
      counted = rest.counted ∙ rw first.counted (omega arith);
      last = rest.last ∙ ap (λ o. last_valid o rs) first.last;
    }

-- An error that has been armed is raised by the next valid call, and by that one alone: the call after
-- it returns the response that was set, in whichever order the two were set.
pub error_is_one_shot :
    (first second : LlmRequest) (e : Exc) (response : LlmResponse) (m : MockLlmClient)
    → request_valid first ≡ true
    → request_valid second ≡ true
    → let armed = with_fixture_response response (with_error e m) in
      (armed ≡ with_error e (with_fixture_response response m))
      × ((complete first armed).0 ≡ err e)
      × ((complete second (complete first armed).1).0 ≡ ok response)
unfolding complete make_request with_fixture_response with_error
error_is_one_shot first second e response m h k = (refl, rw h refl, rw (h, k) refl)
