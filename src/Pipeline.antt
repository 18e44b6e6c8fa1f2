-- ===== src/Pipeline.antt =====
-- autosentinel/multi_agent_graph.py: the nodes, the edges and the gate. LangGraph runs one node at
-- a time, merges its update into the state and follows the node's outgoing edge; `interrupt` ends
-- the run before the gate has returned, and a resumed run begins with the gate again.
pub mod Termination
pub mod Approval
pub mod Production
pub mod Checkpoints
pub mod DenyList
pub mod Budget
pub mod Routing
pub mod Frame
use auto_sentinel.Prelude.{
  ℕ, zero, suc, String, Bool, true, false, Option, none, some, List, [], ◌∷◌, if◌then◌else◌,
}
use auto_sentinel.Prelude.Int.{ℤ}
use auto_sentinel.Prelude.Strings.{◌==◌, nonempty}
use auto_sentinel.Effects.{
  Exc, cost_guard_error, key_error, Result, ok, err, Exec, pure, raise, ◌>>=◌, try_with,
}
use auto_sentinel.Python.{Python}
use auto_sentinel.Python.Json.{Value}
use auto_sentinel.State.{AgentState, Update, Write, merge}
use auto_sentinel.Llm.Client.{Float}
use auto_sentinel.Nodes.Files.{Files}
use auto_sentinel.Nodes.ParseLog
use auto_sentinel.Nodes.Report
use auto_sentinel.Nodes.Report.Sidecar.{truthy_or, is_high_risk}

-- The graph's nodes, by the names that `add_node` gives them.
pub data Node : Type 0 where
  dispatch parse_log diagnosis_agent supervisor_route code_fixer_agent infra_sre_agent : Node
  security_reviewer security_gate verifier_agent format_report cost_exhausted : Node

-- The agents that `build_multi_agent_graph` takes.
pub record Agents (S : Type 0) : Type 0 where
  pub diagnosis : AgentState → Exec S Update
  pub supervisor : AgentState → Exec S Update
  pub code_fixer : AgentState → Exec S Update
  pub infra_sre : AgentState → Exec S Update
  pub security_reviewer : AgentState → Exec S Update
  pub verifier : AgentState → Exec S Update
  -- `supervisor.get_specialist_key`
  pub specialist_key : Option String → String

-- What the other nodes use.
pub record Services (S : Type 0) : Type 0 where
  pub python : Python
  pub files : Files S
  -- `secrets.token_hex(16)`
  pub token_hex : Exec S String
  -- `float(get_cost_guard().state.total_spent)`
  pub spent : Exec S Float

-- How a node ends.
pub data NodeEnd : Type 0 where
  returns : Update → NodeEnd
  interrupts : NodeEnd
  raises : Exc → NodeEnd

abbrev pub is_set : Option String → Bool
is_set none = false
is_set (some s) = nonempty s

-- `security_gate`. A resumed gate has the value that `interrupt` returns, and does not look at it.
unfoldable pub gate : Option Value → AgentState → NodeEnd
gate resume st =
    if is_high_risk st.security_verdict
    then elim resume [ none ↦ interrupts | some v ↦ returns (Write.approval_required true ∷ []) ]
    else returns (Write.approval_required false ∷ [])

module _ {S : Type 0} (services : Services S) (agents : Agents S) where
  -- `dispatch`
  unfoldable pub seed_trace_id : AgentState → Exec S Update
  seed_trace_id st =
      if is_set st.trace_id
      then pure []
      else do id ← services.token_hex; pure (Write.trace_id id ∷ [])

  abbrev pub on_cost_guard : Result Update → Exec S Update
  on_cost_guard (ok u) = pure u
  on_cost_guard (err (cost_guard_error e)) = pure (Write.cost_exhausted true ∷ [])
  on_cost_guard (err e) = raise e

  -- `_guarded`
  unfoldable pub guarded : (AgentState → Exec S Update) → AgentState → Exec S Update
  guarded agent st = try_with (agent st) on_cost_guard

  -- `cost_exhausted_node`
  unfoldable pub report_spent : AgentState → Exec S Update
  report_spent st = do
    total ← services.spent
    pure (Write.cost_accumulated total ∷ Write.agent_trace ("cost_guard_triggered" ∷ []) ∷ [])

  abbrev pub ended_with : Result Update × S → NodeEnd × S
  ended_with (ok u, s) = (returns u, s)
  ended_with (err e, s) = (raises e, s)

  -- The function behind each node.
  unfoldable pub execute : Option Value → Node → AgentState → S → NodeEnd × S
  unfolding seed_trace_id guarded report_spent gate
  execute resume Node.dispatch st s = ended_with (seed_trace_id st s)
  execute resume Node.parse_log st s =
      ended_with (ParseLog.parse_log services.python services.files st s)
  execute resume Node.diagnosis_agent st s = ended_with (guarded agents.diagnosis st s)
  execute resume Node.supervisor_route st s = ended_with (guarded agents.supervisor st s)
  execute resume Node.code_fixer_agent st s = ended_with (guarded agents.code_fixer st s)
  execute resume Node.infra_sre_agent st s = ended_with (guarded agents.infra_sre st s)
  execute resume Node.security_reviewer st s = ended_with (guarded agents.security_reviewer st s)
  execute resume Node.security_gate st s = (gate resume st, s)
  execute resume Node.verifier_agent st s = ended_with (agents.verifier st s)
  execute resume Node.format_report st s =
      ended_with (Report.format_report services.python services.files st s)
  execute resume Node.cost_exhausted st s = ended_with (report_spent st s)

-- Where a run stands: before a node, at the gate's interrupt, at END, or ended by an exception.
pub data Position : Type 0 where
  at : Node → Position
  suspended : Position
  ended : Position
  failed : Exc → Position

abbrev pub or_cost_exhausted : Node → AgentState → Position
or_cost_exhausted next st = at (if st.cost_exhausted then Node.cost_exhausted else next)

-- The labels of the branches out of the supervisor; any other label is an error of the graph.
abbrev pub branch : String → Position
branch key =
    if key == "cost_exhausted"
    then at Node.cost_exhausted
    else if key == "code_fixer"
    then at Node.code_fixer_agent
    else if key == "infra_sre"
    then at Node.infra_sre_agent
    else failed (key_error key)

module _ {S : Type 0} (agents : Agents S) where
  -- `_route_to_specialist`, through the branches' labels.
  unfoldable pub route_to_specialist : AgentState → Position
  route_to_specialist st =
      if st.cost_exhausted
      then at Node.cost_exhausted
      else branch (truthy_or st.specialist (agents.specialist_key st.error_category))

  -- The edges of `build_multi_agent_graph`.
  unfoldable pub next : Node → AgentState → Position
  unfolding route_to_specialist
  next Node.dispatch st = at Node.parse_log
  next Node.parse_log st = if is_set st.parse_error then ended else at Node.diagnosis_agent
  next Node.diagnosis_agent st = or_cost_exhausted Node.supervisor_route st
  next Node.supervisor_route st = route_to_specialist st
  next Node.code_fixer_agent st = or_cost_exhausted Node.security_reviewer st
  next Node.infra_sre_agent st = or_cost_exhausted Node.security_reviewer st
  next Node.security_reviewer st = or_cost_exhausted Node.security_gate st
  next Node.security_gate st = at Node.verifier_agent
  next Node.verifier_agent st = at Node.format_report
  next Node.format_report st = ended
  next Node.cost_exhausted st = ended

pub record Run (S : Type 0) : Type 0 where
  pub position : Position
  pub state : AgentState
  pub world : S

module _ {S : Type 0} (services : Services S) (agents : Agents S) where
  abbrev pub after : Node → AgentState → NodeEnd × S → Run S
  after n st (returns u, s) =
      let st' = merge u st in record { position = next agents n st'; state = st'; world = s }
  after n st (interrupts, s) = record { position = suspended; state = st; world = s }
  after n st (raises e, s) = record { position = failed e; state = st; world = s }

  -- One super-step from a node, where `resume` is the value that the gate is resumed with.
  unfoldable pub visit : Option Value → Node → AgentState → S → Run S
  unfolding execute next merge
  visit resume n st s = after n st (execute services agents resume n st s)

  abbrev pub advance_at : Position → Run S → Run S
  advance_at (at n) r = visit none n r.state r.world
  advance_at p r = r

  -- One super-step of a run that stands before a node; any other run stays.
  unfoldable pub advance : Run S → Run S
  unfolding visit
  advance r = advance_at r.position r

  -- `graph.invoke` on a run, with so many super-steps at most.
  unfoldable pub drive : ℕ → Run S → Run S
  unfolding advance
  drive zero r = r
  drive (suc n) r = drive n (advance r)

  abbrev pub resumed : Value → Position → Run S → Run S
  resumed v suspended r = visit (some v) Node.security_gate r.state r.world
  resumed v p r = r

  -- The first super-step of `graph.invoke(Command(resume=v), …)` on a suspended run.
  unfoldable pub resume : Value → Run S → Run S
  unfolding visit
  resume v r = resumed v r.position r

  -- The longest path through the graph has nine nodes.
  unfoldable pub invoke : AgentState → S → Run S
  unfolding drive
  invoke st s = drive 9 (record { position = at Node.dispatch; state = st; world = s })
