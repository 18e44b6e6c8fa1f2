-- ===== src/Agents/Diagnosis.antt =====
-- autosentinel/agents/diagnosis.py
pub mod Category
use auto_sentinel.Prelude.{String, Option, none, some, List, [], ◌∷◌, if◌then◌else◌}
use auto_sentinel.Effects.{Result, Exec, pure, lift, ◌>>=◌}
use auto_sentinel.Python.{Python}
use auto_sentinel.Python.Json.{truthy}
use auto_sentinel.Llm.Protocol.{LlmClient}
use auto_sentinel.Llm.Factory.{AgentModelConfig}
use auto_sentinel.State.{AgentState, ErrorLog, Update, Write}
use auto_sentinel.Agents.Replies.{read_choice, ask}
use auto_sentinel.Agents.Prompts.Diagnosis.{system_prompt, user_prompt}

-- `_VALID_CATEGORIES`
abbrev pub valid_categories : List String
valid_categories = "CODE" ∷ "INFRA" ∷ "CONFIG" ∷ "SECURITY" ∷ []

module _ (py : Python) where
  -- `_parse_category`
  unfoldable pub parse_category : String → Result String
  unfolding read_choice
  parse_category content = read_choice py "category" valid_categories "CODE" content

  -- The user message of `run`: a log that is absent is an empty dict.
  unfoldable pub describe_log : Option ErrorLog → String
  describe_log none = user_prompt "unknown" "unknown" "" "(none)"
  describe_log (some log) =
      user_prompt (py.show log.service_name) (py.show log.error_type) (py.show log.message)
        (if truthy log.stack_trace then py.show log.stack_trace else "(none)")

  module _ {S : Type 0} (client : LlmClient S) (config : AgentModelConfig) where
    -- `DiagnosisAgent.run`
    unfoldable pub run : AgentState → Exec S Update
    run st = do
      response ← client (ask config "diagnosis" system_prompt (describe_log st.error_log) st)
      category ← lift (parse_category response.content)
      pure (Write.error_category category ∷ Write.agent_trace ("DiagnosisAgent" ∷ []) ∷ [])
