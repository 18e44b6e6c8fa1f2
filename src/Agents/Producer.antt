-- ===== src/Agents/Producer.antt =====
-- autosentinel/agents/_producer_contract.py, and the two agents that generate fixes by it:
-- code_fixer.py and infra_sre.py.
pub mod Attempts
use auto_sentinel.Prelude.{String, Option, none, some, List, [], ◌∷◌, ◌++◌}
use auto_sentinel.Prelude.Strings.{◌+++◌}
use auto_sentinel.Effects.{value_error, Result, ok, err, bind, Exec, pure, raise, lift, ◌>>=◌}
use auto_sentinel.Python.{Python, Compiled, compiles, syntax_error, fails}
use auto_sentinel.Llm.Protocol.{
  Message, system, user, assistant, LlmRequest, LlmClient, LlmResponse,
}
use auto_sentinel.Llm.Factory.{AgentModelConfig}
use auto_sentinel.State.{AgentState, ErrorLog, Analysis, raw, result, Update, Write}
use auto_sentinel.Agents.Replies.{option_or, ask}
use auto_sentinel.Agents.Parsing.{strip_markdown_fence}
use auto_sentinel.Agents.Prompts.CodeFixer
use auto_sentinel.Agents.Prompts.InfraSre

-- `RETRY_TEMPLATE.format(…)`
pub retry_prompt : String → String → String
retry_prompt error artifact =
    "Your previous response failed to compile as a standalone Python script.\n\nCompile error: "
    +++ error +++ "\n\nYour previous response was:\n" +++ artifact
    +++ "\n\nRespond again with a COMPLETE standalone Python script. It must compile on its\n"
    +++ "own: no bare top-level `return` or `yield`, no references to names that are\n"
    +++ "not defined or imported within the script itself. Executable code only, no\n"
    +++ "markdown, no explanations."

-- `_compile_error`: the text of a SyntaxError; any other exception is raised.
abbrev pub compile_error : Compiled → Result (Option String)
compile_error compiles = ok none
compile_error (syntax_error e) = ok (some e)
compile_error (fails e) = err e

-- The request with the failed artifact and its error appended.
abbrev pub retry_request : String → String → LlmRequest → LlmRequest
retry_request error artifact r = record r {
  messages =
      r.messages
      ++ (record { role = assistant; content = artifact })
        ∷ (record { role = user; content = retry_prompt error artifact })
        ∷ [];
}

module _ (py : Python) {S : Type 0} (client : LlmClient S) where
  -- `_call`
  unfoldable pub call : LlmRequest → Exec S String
  call r = do response ← client r; pure (strip_markdown_fence response.content)

  abbrev pub settle : LlmRequest → String → Option String → Exec S String
  settle r artifact none = pure artifact
  settle r artifact (some error) = call (retry_request error artifact r)

  -- `complete_script_artifact`, on the arguments of its first call.
  unfoldable pub complete_script_artifact : LlmRequest → Exec S String
  complete_script_artifact r = do
    artifact ← call r
    error ← lift (compile_error (py.compile artifact))
    settle r artifact error

  -- `dict(analysis or {}).get('root_cause_hypothesis', '(none)')`: a text is no dict, unless it is
  -- empty and so falsy.
  abbrev pub hypothesis : Option Analysis → Result String
  hypothesis none = ok "(none)"
  hypothesis (some (raw String.[])) = ok "(none)"
  hypothesis (some (raw (String.◌∷◌ c s))) =
      err (value_error "dictionary update sequence element #0 has length 1; 2 is required")
  hypothesis (some (result r)) = ok r.root_cause_hypothesis

  abbrev pub log_context : Option ErrorLog → String
  log_context none = "service=unknown error_type=unknown message="
  log_context (some log) =
      "service="
      +++ py.show log.service_name
      +++ " error_type="
      +++ py.show log.error_type
      +++ " message="
      +++ py.show log.message

  -- `_build_error_context` of both agents.
  unfoldable pub build_error_context : AgentState → Result String
  build_error_context st =
      bind (hypothesis st.analysis_result)
        λ h. ok (log_context st.error_log +++ " hypothesis=" +++ h)

  -- The category in the prompt: the key is always there, so the default of `get` is not used.
  abbrev pub category_text : Option String → String
  category_text = option_or "None"

  module _ (config : AgentModelConfig) where
    -- `CodeFixerAgent.run`
    unfoldable pub code_fixer_run : AgentState → Exec S Update
    code_fixer_run st = do
      error_context ← lift (build_error_context st)
      artifact ← complete_script_artifact (
          ask config "code_fixer" CodeFixer.system_prompt
            (CodeFixer.user_prompt (category_text st.error_category) error_context) st)
      pure (Write.fix_artifact artifact ∷ Write.agent_trace ("CodeFixerAgent" ∷ []) ∷ [])

    -- `InfraSREAgent.run`
    unfoldable pub infra_sre_run : AgentState → Exec S Update
    infra_sre_run st = do
      error_context ← lift (build_error_context st)
      artifact ← complete_script_artifact (
          ask config "infra_sre" InfraSre.system_prompt
            (InfraSre.user_prompt (category_text st.error_category) error_context) st)
      pure (Write.fix_artifact artifact ∷ Write.agent_trace ("InfraSREAgent" ∷ []) ∷ [])
