-- ===== src/Pipeline/Production.antt =====
-- The production agents of autosentinel/multi_agent_graph.py.
use auto_sentinel.Python.{Python}
use auto_sentinel.Llm.Protocol.{LlmClient}
use auto_sentinel.Llm.Factory.{AgentModelConfig}
use auto_sentinel.Agents.Diagnosis
use auto_sentinel.Agents.Supervisor
use auto_sentinel.Agents.Producer
use auto_sentinel.Agents.SecurityReviewer
use auto_sentinel.Agents.Verifier
use auto_sentinel.Agents.Verifier.{Docker}
use auto_sentinel.Pipeline.{Agents}

-- What `build_client_for_agent` returns for an agent.
pub record Model (S : Type 0) : Type 0 where
  pub client : LlmClient S
  pub config : AgentModelConfig

pub record Models (S : Type 0) : Type 0 where
  pub diagnosis : Model S
  pub supervisor : Model S
  pub code_fixer : Model S
  pub infra_sre : Model S
  pub security_reviewer : Model S

-- The dict of module-level agents that the graph is built from by default.
abbrev pub production : {S : Type 0} → Python → Docker S → Models S → Agents S
production py docker m = record {
  diagnosis = Diagnosis.run py m.diagnosis.client m.diagnosis.config;
  supervisor = Supervisor.run py m.supervisor.client m.supervisor.config;
  code_fixer = Producer.code_fixer_run py m.code_fixer.client m.code_fixer.config;
  infra_sre = Producer.infra_sre_run py m.infra_sre.client m.infra_sre.config;
  security_reviewer = SecurityReviewer.run py m.security_reviewer.client m.security_reviewer.config;
  verifier = Verifier.run py docker;
  specialist_key = Supervisor.get_specialist_key;
}
