-- ===== src/Entry/Quiet.antt =====
-- Nodes of autosentinel/multi_agent_graph.py that leave the keys that `run_pipeline` of
-- autosentinel/__init__.py reads: what holds of the state before the report is written.
use auto_sentinel.Prelude.{String, ◌≡◌, ◌∙◌, ap, inl, inr, false, none}
use auto_sentinel.Effects.{Result, ok, err}
use auto_sentinel.Python.{Python}
use auto_sentinel.State.{AgentState, Update, merge}
use auto_sentinel.Nodes.ParseLog.Shape.{IsLogUpdate-parse_text}
use auto_sentinel.Nodes.ParseLog.{parse_text}
use auto_sentinel.Pipeline.{Node, Agents, Position, at, suspended, is_set}

-- An update that leaves the keys that `run_pipeline` reads.
abbrev pub IsQuiet : AgentState → Result Update → Type 0
IsQuiet st (err e) = Unit
IsQuiet st (ok u) =
    ((merge u st).report_path ≡ st.report_path)
    × ((merge u st).parse_error ≡ st.parse_error)
    × ((merge u st).analysis_error ≡ st.analysis_error)

-- Agents that leave these keys to the other nodes.
pub record QuietAgents {S : Type 0} (agents : Agents S) : Type 0 where
  pub diagnosis : (st : AgentState) (s : S) → IsQuiet st (agents.diagnosis st s).0
  pub supervisor : (st : AgentState) (s : S) → IsQuiet st (agents.supervisor st s).0
  pub code_fixer : (st : AgentState) (s : S) → IsQuiet st (agents.code_fixer st s).0
  pub infra_sre : (st : AgentState) (s : S) → IsQuiet st (agents.infra_sre st s).0
  pub security_reviewer : (st : AgentState) (s : S) → IsQuiet st (agents.security_reviewer st s).0
  pub verifier : (st : AgentState) (s : S) → IsQuiet st (agents.verifier st s).0

abbrev pub Fresh : AgentState → Type 0
Fresh st = (st.report_path ≡ none) × (st.analysis_error ≡ none)

abbrev pub Clean : AgentState → Type 0
Clean st = Fresh st × (is_set st.parse_error ≡ false)

-- What holds of the state at each place of a run, before the report.
abbrev pub Unreported : Position → AgentState → Type 0
Unreported (at Node.dispatch) st = Fresh st
Unreported (at Node.parse_log) st = Fresh st
Unreported (at n) st = Clean st
Unreported suspended st = Clean st
Unreported p st = Unit

pub Unreported-Clean : (p : Position) (st : AgentState) → Clean st → Unreported p st
Unreported-Clean (at Node.dispatch) st h = h.0
Unreported-Clean (at Node.parse_log) st h = h.0
Unreported-Clean (at n) st h = h
Unreported-Clean suspended st h = h
Unreported-Clean p st h = tt

pub Clean-quiet : (st : AgentState) (u : Update) → Clean st → IsQuiet st (ok u) → Clean (merge u st)
Clean-quiet st u h q = ((q.0 ∙ h.0.0, q.2 ∙ h.0.1), ap is_set q.1 ∙ h.1)

pub Fresh-parse_text :
    (py : Python) (path : String) (st : AgentState) (q : Result String) (u : Update)
    → Fresh st
    → parse_text py path q ≡ ok u
    → Fresh (merge u st)
unfolding merge
Fresh-parse_text py path st q u h e = elim (IsLogUpdate-parse_text py path q u e) [
  | inl (why, f) ↦ rw f h
  | inr (log, f) ↦ rw f h
]
