-- ===== src/Agents/Prompts/Supervisor.antt =====
-- autosentinel/agents/prompts/supervisor.py
use auto_sentinel.Prelude.{String, [], ◌∷◌}
use auto_sentinel.Prelude.Strings.{◌+++◌, join}

-- `SYSTEM_PROMPT`
pub system_prompt : String
system_prompt = join "\n" (
    "You are an incident routing supervisor. Given an"
    ∷ "error log and any prior analysis, select exactly one specialist agent"
    ∷ "to remediate the incident:" ∷ ""
    ∷ "- code_fixer: application logic bugs (null/None handling, type errors,"
    ∷ "  off-by-one, concurrency, regex / parsing). Also any SECURITY incident"
    ∷ "  whose remediation is a code-level patch (SQL injection, SSRF, path"
    ∷ "  traversal, hard-coded credential logging, JWT misuse)."
    ∷ "- infra_sre: infrastructure issues (disk full, OOM, network, DNS,"
    ∷ "  Kubernetes resource limits) AND configuration issues (missing env"
    ∷ "  vars, wrong timeout values, deprecated upstream hosts, feature flag"
    ∷ "  misconfiguration, wrong log level)." ∷ ""
    ∷ "Respond ONLY with valid JSON matching this schema:"
    ∷ "{\"specialist\": \"<code_fixer|infra_sre>\", \"rationale\": \"<one sentence>\"}" ∷ [])

-- `USER_TEMPLATE.format(…)`
pub user_prompt : String → String
user_prompt context = "Incident context:\n" +++ context +++ "\n\nPick the specialist."
