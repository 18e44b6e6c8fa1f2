-- ===== src/Entry/Production.antt =====
-- The production agents of autosentinel/multi_agent_graph.py write neither the path of the report nor
-- an error that ends the pipeline.
use auto_sentinel.Prelude.{String, ◌≡◌, Bool, true, refl, Option, some, none, arith}
use auto_sentinel.Effects.{type_error, Result, ok, err, continue}
use auto_sentinel.Python.{Python}
use auto_sentinel.Llm.Protocol.{LlmClient}
use auto_sentinel.Llm.Factory.{AgentModelConfig}
use auto_sentinel.State.{AgentState, ExecutionResult, merge, initial_state}
use auto_sentinel.Agents.Diagnosis
use auto_sentinel.Agents.Supervisor
use auto_sentinel.Agents.Producer
use auto_sentinel.Agents.SecurityReviewer
use auto_sentinel.Agents.Verifier
use auto_sentinel.Agents.Verifier.{Docker, reported, execute, sandboxed, verify}
use auto_sentinel.Agents.Normalizer.{
  Outcome, verbatim, wrapped, rejected, NormalizedArtifact, normalize_fix_artifact,
}
use auto_sentinel.Pipeline.{Services, suspended, invoke}
use auto_sentinel.Entry.{truthy_id, run_pipeline}
use auto_sentinel.Entry.Suspension.{suspended_pipeline_raises}
use auto_sentinel.Pipeline.Production.{Models, production}
use auto_sentinel.Entry.Quiet.{IsQuiet, QuietAgents}

module _ (py : Python) {S : Type 0} (client : LlmClient S) (config : AgentModelConfig)
    (st : AgentState) (s : S) where
  IsQuiet-diagnosis : IsQuiet st (Diagnosis.run py client config st s).0
  unfolding Diagnosis.run merge
  IsQuiet-diagnosis = ground arith

  IsQuiet-supervisor : IsQuiet st (Supervisor.run py client config st s).0
  unfolding Supervisor.run merge
  IsQuiet-supervisor = ground arith

  IsQuiet-code_fixer : IsQuiet st (Producer.code_fixer_run py client config st s).0
  unfolding Producer.code_fixer_run merge
  IsQuiet-code_fixer = ground arith

  IsQuiet-infra_sre : IsQuiet st (Producer.infra_sre_run py client config st s).0
  unfolding Producer.infra_sre_run merge
  IsQuiet-infra_sre = ground arith

  IsQuiet-security_reviewer : IsQuiet st (SecurityReviewer.run py client config st s).0
  unfolding SecurityReviewer.run merge
  IsQuiet-security_reviewer = ground arith

module _ {S : Type 0} (py : Python) (docker : Docker S) (st : AgentState) where
  IsQuiet-reported :
      (n : NormalizedArtifact) (r : Result ExecutionResult)
      → IsQuiet st (ok (reported py docker n r))
  unfolding merge
  IsQuiet-reported n (ok r) = (refl, refl, refl)
  IsQuiet-reported n (err e) = (refl, refl, refl)

  IsQuiet-execute :
      (o : Outcome) (n : NormalizedArtifact) (s : S) → IsQuiet st (execute py docker o n s).0
  unfolding merge
  IsQuiet-execute rejected n s = (refl, refl, refl)
  IsQuiet-execute verbatim n s = IsQuiet-reported n (sandboxed py docker n.code s).0
  IsQuiet-execute wrapped n s = IsQuiet-reported n (sandboxed py docker n.code s).0

  IsQuiet-normalized :
      (q : Result NormalizedArtifact) (s : S)
      → IsQuiet st (continue (q, s) (λ n. execute py docker n.outcome n)).0
  IsQuiet-normalized (ok n) s = IsQuiet-execute n.outcome n s
  IsQuiet-normalized (err e) s = tt

  IsQuiet-verify : (o : Option String) (s : S) → IsQuiet st (verify py docker o s).0
  unfolding merge
  IsQuiet-verify none s = (refl, refl, refl)
  IsQuiet-verify (some artifact) s = IsQuiet-normalized (normalize_fix_artifact py artifact) s

  IsQuiet-verifier : (s : S) → IsQuiet st (Verifier.run py docker st s).0
  unfolding Verifier.run
  IsQuiet-verifier s = IsQuiet-verify st.fix_artifact s

-- Whatever the models answer and docker does.
pub production-QuietAgents :
    {S : Type 0} (py : Python) (docker : Docker S) (m : Models S)
    → QuietAgents (production py docker m)
production-QuietAgents py docker m = record {
  diagnosis = IsQuiet-diagnosis py m.diagnosis.client m.diagnosis.config;
  supervisor = IsQuiet-supervisor py m.supervisor.client m.supervisor.config;
  code_fixer = IsQuiet-code_fixer py m.code_fixer.client m.code_fixer.config;
  infra_sre = IsQuiet-infra_sre py m.infra_sre.client m.infra_sre.config;
  security_reviewer =
      IsQuiet-security_reviewer py m.security_reviewer.client m.security_reviewer.config;
  verifier = IsQuiet-verifier py docker;
}

-- With the production agents, `run_pipeline` raises a TypeError where the gate has suspended the run;
-- the suspended run's world is left.
pub production_suspension_raises :
    {S : Type 0} (services : Services S) (docker : Docker S) (m : Models S)
    (exists : String → S → Bool) (log_path : String) (id : Option String) (s : S)
    → let path = services.python.path_text log_path in
      let agents = production services.python docker m in
      let r = invoke services agents (initial_state path (truthy_id id)) s in
      exists path s ≡ true
      → r.position ≡ suspended
      → ((why : String) × ((run_pipeline services agents exists log_path id s).0
            ≡ err (type_error why)))
        × ((run_pipeline services agents exists log_path id s).1 ≡ r.world)
production_suspension_raises services docker m =
    suspended_pipeline_raises services (production services.python docker m)
      (production-QuietAgents services.python docker m)
