-- ===== src/Agents/Replies.antt =====
-- What the JSON-answering agents of autosentinel/agents share: how they call the client, and the
-- handler `except (json.JSONDecodeError, AttributeError, TypeError)`.
pub mod Choice
use auto_sentinel.Prelude.{
  String, ◌≡◌, ◌≢◌, refl, Bool-cases, ◌⊎◌, inl, inr, Bool, true, false, Option, none, some, List,
  [], ◌∷◌, if◌then◌else◌,
}
use auto_sentinel.Prelude.Int.{ℤ}
use auto_sentinel.Effects.{
  Exc, json_decode_error, attribute_error, type_error, Result, ok, err, bind,
}
use auto_sentinel.Llm.Protocol.{Message, Role, system, user, LlmRequest}
use auto_sentinel.Llm.Factory.{AgentModelConfig}
use auto_sentinel.Python.{Python}
use auto_sentinel.Prelude.Strings.{is_one_of}
use auto_sentinel.Python.Json.{
  Value, null, boolean, integer, real, text, array, object, get, find_text, lookup, value_or,
}
use auto_sentinel.State.{AgentState}

-- The exceptions that the handler catches.
abbrev pub is_caught : Exc → Bool
is_caught (json_decode_error s) = true
is_caught (attribute_error s) = true
is_caught (type_error s) = true
is_caught other = false

-- The block's value, or the fallback where the handler catches.
unfoldable pub recover : {A : Type 0} → A → Result A → Result A
recover fallback (ok a) = ok a
recover fallback (err e) = if is_caught e then ok fallback else err e

abbrev pub option_or {ℓ} : {A : Type ℓ} → A → Option A → A
option_or d none = d
option_or d (some x) = x

-- The parser of Diagnosis and of SecurityReviewer: the text under a key of the reply, if it is one
-- of the names, and else the fallback.
unfoldable pub read_choice : Python → String → List String → String → String → Result String
unfolding recover get find_text
read_choice py key names fallback content = recover fallback (
    bind (py.loads content) λ reply.
      bind (get reply key (text ""))
        λ value. bind (find_text value names) λ found. ok (option_or fallback found))

-- The arguments of an agent's `complete` call: a system and a user message, and the model's
-- configuration.
abbrev pub ask : AgentModelConfig → String → String → String → AgentState → LlmRequest
ask config name system_prompt user_prompt st = record {
  messages =
      (record { role = system; content = system_prompt })
      ∷ (record { role = user; content = user_prompt })
      ∷ [];
  model = config.model;
  trace_id = option_or "" st.trace_id;
  agent_name = name;
  max_tokens = config.max_tokens;
  temperature = config.temperature;
}
