-- ===== src/Pipeline/Budget.antt =====
-- What the graph of autosentinel/multi_agent_graph.py does when the budget is spent.
use auto_sentinel.Prelude.{◌≡◌, refl, true, Option, some, none, [], ◌∷◌, ◌++◌}
use auto_sentinel.Effects.{CostGuardError, cost_guard_error, ok, err, Exec}
use auto_sentinel.Llm.Client.{Float}
use auto_sentinel.State.{AgentState, Update, Write, merge}
use auto_sentinel.Pipeline.{
  Node, Agents, Services, at, ended, guarded, ended_with, execute, report_spent,
  route_to_specialist, next, visit, advance, drive,
}

-- The agent behind each node that calls a model.
abbrev pub model_agent : {S : Type 0} → Agents S → Node → Option (AgentState → Exec S Update)
model_agent agents Node.diagnosis_agent = some agents.diagnosis
model_agent agents Node.supervisor_route = some agents.supervisor
model_agent agents Node.code_fixer_agent = some agents.code_fixer
model_agent agents Node.infra_sre_agent = some agents.infra_sre
model_agent agents Node.security_reviewer = some agents.security_reviewer
model_agent agents n = none

abbrev pub exhausted : Float → AgentState → AgentState
exhausted total st = record st {
  cost_exhausted = true;
  cost_accumulated = some total;
  agent_trace = st.agent_trace ++ "cost_guard_triggered" ∷ [];
}

module _ {S : Type 0} (services : Services S) (agents : Agents S) where
  guarded-cost_guard_error :
      (agent : AgentState → Exec S Update) (st : AgentState) (s s' : S) (e : CostGuardError)
      → agent st s ≡ (err (cost_guard_error e), s')
      → guarded services agents agent st s ≡ (ok (Write.cost_exhausted true ∷ []), s')
  unfolding guarded
  guarded-cost_guard_error agent st s s' e h = rw h refl

  execute-model_agent :
      (n : Node) (agent : AgentState → Exec S Update) (st : AgentState) (s : S)
      → model_agent agents n ≡ some agent
      → execute services agents none n st s
        ≡ ended_with services agents (guarded services agents agent st s)
  unfolding execute
  execute-model_agent Node.diagnosis_agent agent st s h = cc
  execute-model_agent Node.supervisor_route agent st s h = cc
  execute-model_agent Node.code_fixer_agent agent st s h = cc
  execute-model_agent Node.infra_sre_agent agent st s h = cc
  execute-model_agent Node.security_reviewer agent st s h = cc
  execute-model_agent n agent st s h = cc

  next-cost_exhausted :
      (n : Node) (agent : AgentState → Exec S Update) (st : AgentState)
      → model_agent agents n ≡ some agent
      → next agents n (record st { cost_exhausted = true }) ≡ at Node.cost_exhausted
  unfolding next route_to_specialist
  next-cost_exhausted Node.diagnosis_agent agent st h = refl
  next-cost_exhausted Node.supervisor_route agent st h = refl
  next-cost_exhausted Node.code_fixer_agent agent st h = refl
  next-cost_exhausted Node.infra_sre_agent agent st h = refl
  next-cost_exhausted Node.security_reviewer agent st h = refl
  next-cost_exhausted n agent st h = cc

  visit-cost_guard_error :
      (n : Node) (agent : AgentState → Exec S Update) (st : AgentState) (s s' : S)
      (e : CostGuardError)
      → model_agent agents n ≡ some agent
      → agent st s ≡ (err (cost_guard_error e), s')
      → visit services agents none n st s ≡ record {
        position = at Node.cost_exhausted;
        state = record st { cost_exhausted = true };
        world = s';
      }
  unfolding visit merge
  visit-cost_guard_error n agent st s s' e a b =
      rw
        (
          execute-model_agent n agent st s a,
          guarded-cost_guard_error agent st s s' e b,
          next-cost_exhausted n agent st a,
        )
        refl

  visit-report_spent :
      (st : AgentState) (s s' : S) (total : Float)
      → services.spent s ≡ (ok total, s')
      → visit services agents none Node.cost_exhausted st s ≡ record {
        position = ended;
        state = record st {
          cost_accumulated = some total;
          agent_trace = st.agent_trace ++ "cost_guard_triggered" ∷ [];
        };
        world = s';
      }
  unfolding visit report_spent next merge
  visit-report_spent st s s' total h = rw h refl

  -- If the agent of a node that calls a model raises a `CostGuardError`, two more super-steps end the
  -- run: no other agent runs, the report is not written, and of the state only the flag, the spend and
  -- the trace change.
  pub budget_ends_run :
      (n : Node) (agent : AgentState → Exec S Update) (st : AgentState) (s s' s'' : S)
      (e : CostGuardError) (total : Float)
      → model_agent agents n ≡ some agent
      → agent st s ≡ (err (cost_guard_error e), s')
      → services.spent s' ≡ (ok total, s'')
      → drive services agents 2 (record { position = at n; state = st; world = s })
        ≡ record { position = ended; state = exhausted total st; world = s'' }
  unfolding drive advance
  budget_ends_run n agent st s s' s'' e total a b c =
      rw (visit-cost_guard_error n agent st s s' e a b)
        (visit-report_spent (record st { cost_exhausted = true }) s' s'' total c)
