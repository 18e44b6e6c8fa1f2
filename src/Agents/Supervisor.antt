-- ===== src/Agents/Supervisor.antt =====
-- autosentinel/agents/supervisor.py
pub mod Routing
use auto_sentinel.Prelude.{
  String, Bool, true, false, ◌||◌, Option, none, some, List, [], ◌∷◌, ◌++◌, if◌then◌else◌,
}
use auto_sentinel.Prelude.Strings.{◌==◌, ◌+++◌, nonempty, join}
use auto_sentinel.Effects.{Result, ok, bind, Exec, pure, lift, ◌>>=◌}
use auto_sentinel.Python.{Python}
use auto_sentinel.Python.Json.{Value, text, truthy, get, find_text}
use auto_sentinel.Llm.Protocol.{LlmClient}
use auto_sentinel.Llm.Factory.{AgentModelConfig}
use auto_sentinel.State.{AgentState, ErrorLog, Analysis, raw, result, Update, Write}
use auto_sentinel.Agents.Replies.{recover, ask}
use auto_sentinel.Agents.Prompts.Supervisor.{system_prompt, user_prompt}

-- `_VALID_SPECIALISTS`
abbrev pub valid_specialists : List String
valid_specialists = "code_fixer" ∷ "infra_sre" ∷ []

-- `_FALLBACK_SPECIALIST`, `_FALLBACK_RATIONALE`
abbrev pub fallback : String × String
fallback = ("code_fixer", "LLM 解析失败,fallback 到 code_fixer")

-- `get_specialist_key`
unfoldable pub get_specialist_key : Option String → String
get_specialist_key none = "code_fixer"
get_specialist_key (some category) =
    if (category == "INFRA") || (category == "CONFIG") then "infra_sre" else "code_fixer"

-- The test of `_parse_routing`, on the specialist that was found in the set.
abbrev pub routing : Option String → Value → String × String
routing (some specialist) (text rationale) =
    if nonempty rationale then (specialist, rationale) else fallback
routing found rationale = fallback

abbrev pub line : Bool → String → List String
line true s = s ∷ []
line false s = []

module _ (py : Python) where
  -- `_parse_routing`
  unfoldable pub parse_routing : String → Result (String × String)
  unfolding recover get find_text
  parse_routing content = recover fallback (
      bind (py.loads content) λ reply. bind (get reply "specialist" (text "")) λ specialist.
        bind (get reply "rationale" (text "")) λ rationale.
          bind (find_text specialist valid_specialists) λ found. ok (routing found rationale))

  abbrev pub log_lines : Option ErrorLog → List String
  log_lines none = []
  log_lines (some log) =
      ("service: " +++ py.show log.service_name)
      ∷ ("error_type: " +++ py.show log.error_type)
      ∷ ("message: " +++ py.show log.message)
      ∷ line (truthy log.stack_trace) ("stack_trace: " +++ py.show log.stack_trace)

  abbrev pub analysis_lines : Option Analysis → List String
  analysis_lines none = []
  analysis_lines (some (raw s)) = ("analysis: " +++ s) ∷ []
  analysis_lines (some (result r)) =
      line (nonempty r.error_category) ("analysis_category: " +++ r.error_category)
      ++ line (nonempty r.root_cause_hypothesis) ("root_cause: " +++ r.root_cause_hypothesis)

  abbrev pub or_no_context : List String → String
  or_no_context [] = "(no context available)"
  or_no_context (x ∷ xs) = join "\n" (x ∷ xs)

  -- `_format_context`
  unfoldable pub format_context : AgentState → String
  format_context st = or_no_context (log_lines st.error_log ++ analysis_lines st.analysis_result)

  module _ {S : Type 0} (client : LlmClient S) (config : AgentModelConfig) where
    -- `SupervisorAgent.run`
    unfoldable pub run : AgentState → Exec S Update
    run st = do
      response ← client (ask config "supervisor" system_prompt (user_prompt (format_context st)) st)
      chosen ← lift (parse_routing response.content)
      pure (
          Write.specialist chosen.0
          ∷ Write.routing_decision chosen.1
          ∷ Write.agent_trace ("SupervisorAgent" ∷ [])
          ∷ [])
