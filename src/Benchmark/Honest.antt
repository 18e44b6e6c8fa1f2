-- ===== src/Benchmark/Honest.antt =====
-- The execution result in the state of autosentinel/multi_agent_graph.py, through a run: only the
-- verifier writes it, so its status tells the exit code of a container.
use auto_sentinel.Prelude.{
  ℕ, zero, suc, String, ◌≡◌, refl, Bool-cases, inl, inr, Option, none, some, arith,
}
use auto_sentinel.Effects.{cost_guard_error, Result, ok, err, Exec}
use auto_sentinel.Python.Json.{Value}
use auto_sentinel.State.{AgentState, ExecutionResult, Update, merge}
use auto_sentinel.Nodes.ParseLog
use auto_sentinel.Nodes.ParseLog.{parse_text}
use auto_sentinel.Nodes.ParseLog.Shape.{IsLogUpdate-parse_text}
use auto_sentinel.Nodes.Report
use auto_sentinel.Nodes.Report.Sidecar.{is_high_risk}
use auto_sentinel.Agents.Verifier.Status.{IsHonest}
use auto_sentinel.Pipeline.{
  Node, Agents, Services, Position, at, suspended, seed_trace_id, on_cost_guard, guarded,
  report_spent, ended_with, Run, after, visit, advance_at, advance, drive, resumed, resume,
}

-- A result in the state is honest, and no error stands beside it.
abbrev pub IsHonestResult : Option ExecutionResult → Option String → Type 0
IsHonestResult none error = Unit
IsHonestResult (some r) error = (error ≡ none) × IsHonest r

abbrev pub IsHonestState : AgentState → Type 0
IsHonestState st = IsHonestResult st.execution_result st.execution_error

-- An update that leaves the execution result and its error.
abbrev pub KeepsResult : AgentState → Result Update → Type 0
KeepsResult st (err e) = Unit
KeepsResult st (ok u) =
    ((merge u st).execution_result ≡ st.execution_result)
    × ((merge u st).execution_error ≡ st.execution_error)

abbrev pub WritesHonest : AgentState → Result Update → Type 0
WritesHonest st (err e) = Unit
WritesHonest st (ok u) = IsHonestState (merge u st)

-- Only the verifier writes an execution result or its error, and an honest result without an error.
pub record HonestAgents {S : Type 0} (agents : Agents S) : Type 0 where
  pub diagnosis : (st : AgentState) (s : S) → KeepsResult st (agents.diagnosis st s).0
  pub supervisor : (st : AgentState) (s : S) → KeepsResult st (agents.supervisor st s).0
  pub code_fixer : (st : AgentState) (s : S) → KeepsResult st (agents.code_fixer st s).0
  pub infra_sre : (st : AgentState) (s : S) → KeepsResult st (agents.infra_sre st s).0
  pub security_reviewer :
      (st : AgentState) (s : S) → KeepsResult st (agents.security_reviewer st s).0
  pub verifier : (st : AgentState) (s : S) → WritesHonest st (agents.verifier st s).0

module _ {S : Type 0} (services : Services S) (agents : Agents S)
    (honest : HonestAgents agents) where
  abbrev pub HonestRun : Run S → Type 0
  HonestRun r = IsHonestState r.state

  HonestRun-written :
      (n : Node) (st : AgentState) (q : Result Update × S)
      → IsHonestState st
      → WritesHonest st q.0
      → HonestRun (after services agents n st (ended_with services agents q))
  HonestRun-written n st (ok u, s) h k = k
  HonestRun-written n st (err e, s) h k = h

  WritesHonest-kept :
      (st : AgentState) (q : Result Update)
      → IsHonestState st
      → KeepsResult st q
      → WritesHonest st q
  WritesHonest-kept st (ok u) h (k, l) = rw (k, l) h
  WritesHonest-kept st (err e) h k = tt

  HonestRun-kept :
      (n : Node) (st : AgentState) (q : Result Update × S)
      → IsHonestState st
      → KeepsResult st q.0
      → HonestRun (after services agents n st (ended_with services agents q))
  HonestRun-kept n st q h k = HonestRun-written n st q h (WritesHonest-kept st q.0 h k)

  KeepsResult-on_cost_guard :
      (st : AgentState) (q : Result Update × S)
      → KeepsResult st q.0
      → KeepsResult st (on_cost_guard services agents q.0 q.1).0
  unfolding merge
  KeepsResult-on_cost_guard st (ok u, s) h = h
  KeepsResult-on_cost_guard st (err (cost_guard_error e), s) h = (refl, refl)
  KeepsResult-on_cost_guard st (err e, s) h = tt

  HonestRun-guarded :
      (n : Node) (agent : AgentState → Exec S Update) (st : AgentState) (s : S)
      → IsHonestState st
      → KeepsResult st (agent st s).0
      → HonestRun (
          after services agents n st
            (ended_with services agents (guarded services agents agent st s)))
  unfolding guarded
  HonestRun-guarded n agent st s h k =
      HonestRun-kept n st (on_cost_guard services agents (agent st s).0 (agent st s).1) h
        (KeepsResult-on_cost_guard st (agent st s) k)

  KeepsResult-seeded :
      (st : AgentState) (s : S) → KeepsResult st (seed_trace_id services agents st s).0
  unfolding seed_trace_id merge
  KeepsResult-seeded st s = ground arith

  KeepsResult-logged :
      (st : AgentState) (path : String) (q : Result String) (r : Result Update)
      → parse_text services.python path q ≡ r
      → KeepsResult st r
  unfolding merge
  KeepsResult-logged st path q (err e) h = tt
  KeepsResult-logged st path q (ok u) h = elim (IsLogUpdate-parse_text services.python path q u h) [
    | inl (why, f) ↦ rw f (refl, refl)
    | inr (log, f) ↦ rw f (refl, refl)
  ]

  KeepsResult-report :
      (st : AgentState) (s : S)
      → KeepsResult st (Report.format_report services.python services.files st s).0
  unfolding Report.format_report merge
  KeepsResult-report st s = ground arith

  KeepsResult-spent :
      (st : AgentState) (s : S) → KeepsResult st (report_spent services agents st s).0
  unfolding report_spent merge
  KeepsResult-spent st s = ground arith

  HonestRun-visit :
      (v : Option Value) (n : Node) (st : AgentState) (s : S)
      → IsHonestState st
      → HonestRun (visit services agents v n st s)
  unfolding visit merge ParseLog.parse_log
  HonestRun-visit v Node.dispatch st s h =
      HonestRun-kept Node.dispatch st (seed_trace_id services agents st s) h
        (KeepsResult-seeded st s)
  HonestRun-visit v Node.parse_log st s h =
      let (r, s') = services.files.read_text st.log_path s in
      HonestRun-kept Node.parse_log st (parse_text services.python st.log_path r, s') h
        (KeepsResult-logged st st.log_path r (parse_text services.python st.log_path r) refl)
  HonestRun-visit v Node.diagnosis_agent st s h =
      HonestRun-guarded Node.diagnosis_agent agents.diagnosis st s h (honest.diagnosis st s)
  HonestRun-visit v Node.supervisor_route st s h =
      HonestRun-guarded Node.supervisor_route agents.supervisor st s h (honest.supervisor st s)
  HonestRun-visit v Node.code_fixer_agent st s h =
      HonestRun-guarded Node.code_fixer_agent agents.code_fixer st s h (honest.code_fixer st s)
  HonestRun-visit v Node.infra_sre_agent st s h =
      HonestRun-guarded Node.infra_sre_agent agents.infra_sre st s h (honest.infra_sre st s)
  HonestRun-visit v Node.security_reviewer st s h =
      HonestRun-guarded Node.security_reviewer agents.security_reviewer st s h
        (honest.security_reviewer st s)
  HonestRun-visit none Node.security_gate st s h =
      elim (Bool-cases (is_high_risk st.security_verdict)) [
        | inl high ↦ rw high h
        | inr low ↦ rw low h
      ]
  HonestRun-visit (some v) Node.security_gate st s h =
      elim (Bool-cases (is_high_risk st.security_verdict)) [
        | inl high ↦ rw high h
        | inr low ↦ rw low h
      ]
  HonestRun-visit v Node.verifier_agent st s h =
      HonestRun-written Node.verifier_agent st (agents.verifier st s) h (honest.verifier st s)
  HonestRun-visit v Node.format_report st s h =
      HonestRun-kept Node.format_report st
        (Report.format_report services.python services.files st s) h (KeepsResult-report st s)
  HonestRun-visit v Node.cost_exhausted st s h =
      HonestRun-kept Node.cost_exhausted st (report_spent services agents st s) h
        (KeepsResult-spent st s)

  HonestRun-advance_at :
      (p : Position) (r : Run S) → HonestRun r → HonestRun (advance_at services agents p r)
  HonestRun-advance_at (at n) r h = HonestRun-visit none n r.state r.world h
  HonestRun-advance_at p r h = h

  pub HonestRun-drive :
      (fuel : ℕ) (r : Run S) → HonestRun r → HonestRun (drive services agents fuel r)
  unfolding drive advance
  HonestRun-drive zero r h = h
  HonestRun-drive (suc n) r h =
      HonestRun-drive n (advance services agents r) (HonestRun-advance_at r.position r h)

  HonestRun-resumed :
      (v : Value) (p : Position) (r : Run S)
      → HonestRun r
      → HonestRun (resumed services agents v p r)
  HonestRun-resumed v suspended r h = HonestRun-visit (some v) Node.security_gate r.state r.world h
  HonestRun-resumed v p r h = h

  pub HonestRun-resume :
      (v : Value) (r : Run S) → HonestRun r → HonestRun (resume services agents v r)
  unfolding resume
  HonestRun-resume v r h = HonestRun-resumed v r.position r h
