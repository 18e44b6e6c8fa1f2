-- ===== src/Agents/SecurityReviewer.antt =====
-- autosentinel/agents/security_reviewer.py
pub mod Verdict
use auto_sentinel.Prelude.{
  String, ◌≡◌, Bool, true, false, ◌||◌, Option, none, some, List, [], ◌∷◌, if◌then◌else◌, any,
}
use auto_sentinel.Prelude.Strings.{contains}
use auto_sentinel.Effects.{
  llm_timeout_error, llm_provider_error, Result, ok, err, bind, Exec, pure, raise, lift, ◌>>=◌,
  try_with,
}
use auto_sentinel.Python.{Python}
use auto_sentinel.Python.Json.{text, get, find_text}
use auto_sentinel.Llm.Protocol.{LlmClient, LlmResponse}
use auto_sentinel.Llm.Factory.{AgentModelConfig}
use auto_sentinel.State.{AgentState, Update, Write}
use auto_sentinel.Agents.Replies.{read_choice, option_or, ask}
use auto_sentinel.Agents.Prompts.SecurityReviewer.{system_prompt, user_prompt}

-- `_HIGH_RISK_KEYWORDS`
abbrev pub high_risk_keywords : List String
high_risk_keywords =
    "DROP TABLE" ∷ "DROP DATABASE" ∷ "TRUNCATE TABLE" ∷ "rm -rf /" ∷ "rm -rf ~" ∷ "chmod 777"
    ∷ "mkfs" ∷ "dd if=" ∷ []

-- `_SECRET_CREDENTIAL_KEYWORDS`
abbrev pub secret_credential_keywords : List String
secret_credential_keywords =
    "secret_key" ∷ "secret key" ∷ "aws_secret" ∷ "api_key" ∷ "apikey" ∷ "private_key" ∷ "credential"
    ∷ "password" ∷ "passwd" ∷ "bcrypt" ∷ "scrypt" ∷ "argon2" ∷ "hashpw" ∷ "gensalt" ∷ "pbkdf2" ∷ []

-- `_VALID_VERDICTS`
abbrev pub valid_verdicts : List String
valid_verdicts = "SAFE" ∷ "HIGH_RISK" ∷ "CAUTION" ∷ []

module _ (py : Python) where
  -- `_parse_verdict`
  unfoldable pub parse_verdict : String → Result String
  unfolding read_choice
  parse_verdict content = read_choice py "verdict" valid_verdicts "CAUTION" content

  -- The test of the deterministic overrides in `run`.
  unfoldable pub is_denied : String → Bool
  unfolding contains
  is_denied artifact =
      any (λ kw. contains kw artifact) high_risk_keywords
      || any (λ kw. contains kw (py.lower artifact)) secret_credential_keywords

  abbrev pub override : String → String → String
  override artifact llm_verdict = if is_denied artifact then "HIGH_RISK" else llm_verdict

  module _ {S : Type 0} (client : LlmClient S) (config : AgentModelConfig) where
    -- The `try` block of `run`: the model's verdict, and the model that gave it.
    abbrev pub ask_model : AgentState → Exec S (String × String)
    ask_model st = do
      response ← client (
          ask config "security_reviewer" system_prompt (user_prompt (option_or "" st.fix_artifact))
            st)
      verdict ← lift (parse_verdict response.content)
      pure (verdict, response.model)

    -- `except (LLMTimeoutError, LLMProviderError)`
    abbrev pub fail_safe : Result (String × String) → Exec S (String × String)
    fail_safe (ok answer) = pure answer
    fail_safe (err (llm_timeout_error s)) = pure ("HIGH_RISK", config.model)
    fail_safe (err (llm_provider_error s)) = pure ("HIGH_RISK", config.model)
    fail_safe (err e) = raise e

    -- `SecurityReviewerAgent.run`
    unfoldable pub run : AgentState → Exec S Update
    run st = do
      (verdict, model) ← try_with (ask_model st) fail_safe
      pure (
          Write.security_verdict (override (option_or "" st.fix_artifact) verdict)
          ∷ Write.security_classifier_model model
          ∷ Write.agent_trace ("SecurityReviewerAgent" ∷ [])
          ∷ [])
