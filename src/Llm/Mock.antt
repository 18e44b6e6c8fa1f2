-- ===== src/Llm/Mock.antt =====
-- autosentinel/llm/mock_client.py: the test double of a client, as explicit state.
pub mod Calls
use auto_sentinel.Prelude.{
  ℕ, ◌+◌, String, ◌≡◌, refl, Bool, true, false, Bool-cases, inl, inr, Option, none, some, List, [],
  ◌∷◌, if◌then◌else◌, arith,
}
use auto_sentinel.Effects.{Exc, runtime_error, value_error, Result, ok, err, Exec, lift, ◌>>=◌}
use auto_sentinel.Llm.Protocol.{LlmRequest, LlmResponse, request_valid, make_request}

pub record MockLlmClient : Type 0 where
  pub fixture_response : Option LlmResponse
  pub next_error : Option Exc
  pub call_count : ℕ
  pub last_request : Option LlmRequest

abbrev pub new : MockLlmClient
new = record { fixture_response = none; next_error = none; call_count = 0; last_request = none }

unfoldable pub with_fixture_response : LlmResponse → MockLlmClient → MockLlmClient
with_fixture_response response m = record m { fixture_response = some response }

unfoldable pub with_error : Exc → MockLlmClient → MockLlmClient
with_error e m = record m { next_error = some e }

-- What a call with a valid request comes to, from `_next_error` and `_fixture_response`.
abbrev pub reply : Option Exc → Option LlmResponse → Exec MockLlmClient LlmResponse
reply (some e) fixture m = (err e, record m { next_error = none })
reply none (some response) m = (ok response, m)
reply none none m = (
  err (
      runtime_error
        "MockLLMClient.complete() called without with_fixture_response() or with_error() configured"),
  m,
)

abbrev pub noted : LlmRequest → Exec MockLlmClient LlmResponse
noted req m =
    reply m.next_error m.fixture_response
      (record m { call_count = m.call_count + 1; last_request = some req })

unfoldable pub complete : LlmRequest → Exec MockLlmClient LlmResponse
unfolding make_request
complete req = do r ← lift (make_request req); noted r
