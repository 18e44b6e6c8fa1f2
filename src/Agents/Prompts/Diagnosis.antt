-- ===== src/Agents/Prompts/Diagnosis.antt =====
-- autosentinel/agents/prompts/diagnosis.py
use auto_sentinel.Prelude.{String, [], ◌∷◌}
use auto_sentinel.Prelude.Strings.{◌+++◌, join}

-- `SYSTEM_PROMPT`
pub system_prompt : String
system_prompt = join "\n" (
    "You are an incident diagnosis agent. Given an error log,"
    ∷ "classify the root cause into exactly one category: CODE, INFRA, CONFIG, or SECURITY." ∷ ""
    ∷ "- CODE: application logic bugs (null pointer, type error, business logic)"
    ∷ "- INFRA: infrastructure issues (timeouts, OOM, network, resource limits)"
    ∷ "- CONFIG: configuration / environment / secret issues"
    ∷ "- SECURITY: auth, injection, authorization, exploit attempts" ∷ ""
    ∷ "Respond ONLY with valid JSON matching this schema:"
    ∷ "{\"category\": \"<CODE|INFRA|CONFIG|SECURITY>\", \"reasoning\": \"<one sentence>\"}" ∷ [])

-- `USER_TEMPLATE.format(…)`
pub user_prompt : String → String → String → String → String
user_prompt service_name error_type message stack_trace =
    "Error log:\n- service: " +++ service_name +++ "\n- error_type: " +++ error_type
    +++ "\n- message: " +++ message +++ "\n- stack_trace: " +++ stack_trace
    +++ "\n\nClassify the root cause."
