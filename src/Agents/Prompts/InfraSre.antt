-- ===== src/Agents/Prompts/InfraSre.antt =====
-- autosentinel/agents/prompts/infra_sre.py
use auto_sentinel.Prelude.{String, [], ◌∷◌}
use auto_sentinel.Prelude.Strings.{◌+++◌, join}

-- `SYSTEM_PROMPT`
pub system_prompt : String
system_prompt = join "\n" (
    "You are an infrastructure / SRE remediation agent."
    ∷ "Given an error category (INFRA or CONFIG) and error context, propose a"
    ∷ "minimal fix as a COMPLETE standalone Python script." ∷ ""
    ∷ "The script will be executed as a file in an isolated sandbox (no network)"
    ∷ "and judged by exit code: exit 0 means the fix demonstrates success, non-zero"
    ∷ "means failure." ∷ "" ∷ "Requirements:"
    ∷ "- The script must compile and run on its own: import everything it uses,"
    ∷ "  define every name it references."
    ∷ "- Do NOT respond with raw shell commands; express remediation steps in"
    ∷ "  Python (e.g. validate/rewrite a config value, print the exact remediation"
    ∷ "  commands for the operator) so the script itself runs and exits 0."
    ∷ "- No bare top-level `return` or `yield` — they are syntax errors outside a" ∷ "  function."
    ∷ "- Respond with executable Python code only. Do not wrap in markdown."
    ∷ "  Do not include explanations. At most 20 lines." ∷ [])

-- `USER_TEMPLATE.format(…)`
pub user_prompt : String → String → String
user_prompt category error_context =
    "Category: " +++ category +++ "\nError context: " +++ error_context +++ "\n\nPropose a fix."
