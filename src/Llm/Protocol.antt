-- ===== src/Llm/Protocol.antt =====
-- autosentinel/llm/protocol.py: messages, the validated request and response, and the client's
-- interface. A temperature is an integer of thousandths.
use Prim.Native.Char.{Char, code}
use auto_sentinel.Prelude.{
  String, ◌≡◌, Bool, true, false, ◌&&◌, ◌||◌, List, [], ◌∷◌, if◌then◌else◌, leb, nat_eq, arith,
}
use auto_sentinel.Prelude.Int.{ℤ, pos, leb_ℤ, ◌≤ℤ◌}
use auto_sentinel.Prelude.Strings.{nonempty, size, all_chars}
use auto_sentinel.Effects.{Currency, value_error, Result, ok, err, Exec}

pub data Role : Type 0 where
  system user assistant : Role

pub record Message : Type 0 where
  pub role : Role
  pub content : String

abbrev pub is_hex : Char → Bool
is_hex c = let n = code c in (leb b'0' n && leb n b'9') || (leb b'a' n && leb n b'f')

-- `_TRACE_ID_RE.fullmatch`: thirty-two lowercase hexadecimal digits.
unfoldable pub is_trace_id : String → Bool
is_trace_id s = nat_eq (size s) 32 && all_chars is_hex s

pub record LlmRequest : Type 0 where
  pub messages : List Message
  pub model : String
  pub trace_id : String
  pub agent_name : String
  pub max_tokens : ℤ
  pub temperature : ℤ

abbrev pub has_messages : List Message → Bool
has_messages [] = false
has_messages (m ∷ ms) = true

-- What the fields' bounds and the validator of `LLMRequest` accept.
unfoldable pub request_valid : LlmRequest → Bool
unfolding is_trace_id
request_valid r =
    has_messages r.messages
    && nonempty r.model
    && leb_ℤ (pos 0) r.temperature
    && leb_ℤ r.temperature (pos 2000)
    && leb_ℤ (pos 1) r.max_tokens
    && leb_ℤ r.max_tokens (pos 32768)
    && is_trace_id r.trace_id
    && nonempty r.agent_name

-- `LLMRequest(...)`: pydantic's ValidationError is a ValueError.
unfoldable pub make_request : LlmRequest → Result LlmRequest
make_request r = if request_valid r then ok r else err (value_error "LLMRequest")

pub record LlmResponse : Type 0 where
  pub content : String
  pub model : String
  pub prompt_tokens : ℤ
  pub completion_tokens : ℤ
  pub cost : ℤ
  pub currency : Currency
  pub latency_ms : ℤ
  pub trace_id : String

unfoldable pub response_valid : LlmResponse → Bool
unfolding is_trace_id
response_valid r =
    nonempty r.model
    && leb_ℤ (pos 0) r.prompt_tokens
    && leb_ℤ (pos 0) r.completion_tokens
    && leb_ℤ (pos 0) r.cost
    && leb_ℤ (pos 0) r.latency_ms
    && is_trace_id r.trace_id

unfoldable pub make_response : LlmResponse → Result LlmResponse
make_response r = if response_valid r then ok r else err (value_error "LLMResponse")

-- `LLMClient.complete` over a world `S`.
abbrev pub LlmClient : Type 0 → Type 0
LlmClient S = LlmRequest → Exec S LlmResponse

pub cost_nonneg : (r : LlmResponse) → response_valid r ≡ true → pos 0 ≤ℤ r.cost
unfolding response_valid
cost_nonneg r h = ground arith
