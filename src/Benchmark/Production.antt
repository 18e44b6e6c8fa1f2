-- ===== src/Benchmark/Production.antt =====
-- The production agents of autosentinel/multi_agent_graph.py leave the execution result to the verifier.
use auto_sentinel.Prelude.{String, Option, some, none, arith}
use auto_sentinel.Effects.{Result, ok, err}
use auto_sentinel.Python.{Python}
use auto_sentinel.Llm.Protocol.{LlmClient}
use auto_sentinel.Llm.Factory.{AgentModelConfig}
use auto_sentinel.State.{AgentState, ExecutionResult, Update, merge}
use auto_sentinel.Agents.Diagnosis
use auto_sentinel.Agents.Supervisor
use auto_sentinel.Agents.Producer
use auto_sentinel.Agents.SecurityReviewer
use auto_sentinel.Agents.Verifier
use auto_sentinel.Agents.Verifier.{Docker}
use auto_sentinel.Agents.Verifier.Status.{Reports, Verified, run-Verified}
use auto_sentinel.Pipeline.Production.{Models, production}
use auto_sentinel.Benchmark.Honest.{IsHonestResult, KeepsResult, WritesHonest, HonestAgents}

module _ (py : Python) {S : Type 0} (client : LlmClient S) (config : AgentModelConfig)
    (st : AgentState) (s : S) where
  KeepsResult-diagnosis : KeepsResult st (Diagnosis.run py client config st s).0
  unfolding Diagnosis.run merge
  KeepsResult-diagnosis = ground arith

  KeepsResult-supervisor : KeepsResult st (Supervisor.run py client config st s).0
  unfolding Supervisor.run merge
  KeepsResult-supervisor = ground arith

  KeepsResult-code_fixer : KeepsResult st (Producer.code_fixer_run py client config st s).0
  unfolding Producer.code_fixer_run merge
  KeepsResult-code_fixer = ground arith

  KeepsResult-infra_sre : KeepsResult st (Producer.infra_sre_run py client config st s).0
  unfolding Producer.infra_sre_run merge
  KeepsResult-infra_sre = ground arith

  KeepsResult-security_reviewer : KeepsResult st (SecurityReviewer.run py client config st s).0
  unfolding SecurityReviewer.run merge
  KeepsResult-security_reviewer = ground arith

IsHonestResult-Reports :
    (r : Option ExecutionResult) (error : Option String) → Reports r error → IsHonestResult r error
IsHonestResult-Reports none error h = tt
IsHonestResult-Reports (some r) error h = h

WritesHonest-Verified :
    {S : Type 0} (py : Python) (docker : Docker S) (st : AgentState) (q : Result Update)
    → Verified py docker st q
    → WritesHonest st q
WritesHonest-Verified py docker st (err e) h = tt
WritesHonest-Verified py docker st (ok u) h =
    IsHonestResult-Reports (merge u st).execution_result (merge u st).execution_error h

-- Whatever the models answer and docker does.
pub production-HonestAgents :
    {S : Type 0} (py : Python) (docker : Docker S) (m : Models S)
    → HonestAgents (production py docker m)
production-HonestAgents py docker m = record {
  diagnosis = KeepsResult-diagnosis py m.diagnosis.client m.diagnosis.config;
  supervisor = KeepsResult-supervisor py m.supervisor.client m.supervisor.config;
  code_fixer = KeepsResult-code_fixer py m.code_fixer.client m.code_fixer.config;
  infra_sre = KeepsResult-infra_sre py m.infra_sre.client m.infra_sre.config;
  security_reviewer =
      KeepsResult-security_reviewer py m.security_reviewer.client m.security_reviewer.config;
  verifier = λ st s.
      WritesHonest-Verified py docker st (Verifier.run py docker st s).0
        (run-Verified py docker st s);
}
