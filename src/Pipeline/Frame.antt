-- ===== src/Pipeline/Frame.antt =====
-- What a run of autosentinel/multi_agent_graph.py leaves of the world, where each of its calls leaves
-- it; and induction over the super-steps of a run.
use auto_sentinel.Prelude.{
  ℕ, zero, suc, String, ◌≡◌, refl, ◌∙◌, Bool-cases, inl, inr, [], ◌∷◌, none,
}
use auto_sentinel.Effects.{cost_guard_error, Result, ok, err, Exec}
use auto_sentinel.Effects.Frame.{
  Frame, Respects, Respects-continue, Respects-bind, Respects-try_with,
}
use auto_sentinel.State.{AgentState, Update, Write, write, merge}
use auto_sentinel.Nodes.ParseLog
use auto_sentinel.Nodes.ParseLog.{parse_text}
use auto_sentinel.Nodes.Report
use auto_sentinel.Pipeline.{
  Node, Agents, Services, NodeEnd, returns, interrupts, raises, Position, at, suspended, ended,
  failed, is_set, seed_trace_id, on_cost_guard, guarded, report_spent, ended_with, execute, Run,
  after, visit, advance_at, advance, drive, invoke,
}

-- No node writes the log's path.
log_path-write : (x : Write) (st : AgentState) → (write x st).log_path ≡ st.log_path
unfolding write
log_path-write (Write.error_log x) st = refl
log_path-write x st = refl

log_path-merge : (u : Update) (st : AgentState) → (merge u st).log_path ≡ st.log_path
unfolding merge
log_path-merge [] st = refl
log_path-merge (x ∷ xs) st = log_path-merge xs (write x st) ∙ log_path-write x st

module _ {S : Type 0} (services : Services S) (agents : Agents S) where
  -- An invariant that every super-step from a node keeps holds of a run.
  pub drive_inv :
      (P : Run S → Type 0)
      → ((n : Node) (r : Run S)
          → r.position ≡ at n
          → P r
          → P (visit services agents none n r.state r.world))
      → (fuel : ℕ) (r : Run S) → P r
      → P (drive services agents fuel r)
  unfolding drive advance
  drive_inv P keep zero r h = h
  drive_inv P keep (suc n) r h =
      drive_inv P keep n (advance services agents r) (stepped r.position refl)
    where
      stepped : (p : Position) → r.position ≡ p → P (advance_at services agents p r)
      stepped (at m) e = keep m r e h
      stepped suspended e = h
      stepped ended e = h
      stepped (failed x) e = h

  pub world-after :
      (n : Node) (st : AgentState) (q : NodeEnd × S) → (after services agents n st q).world ≡ q.1
  world-after n st (returns u, s) = refl
  world-after n st (interrupts, s) = refl
  world-after n st (raises e, s) = refl

  pub log_path-after :
      (n : Node) (st : AgentState) (q : NodeEnd × S)
      → (after services agents n st q).state.log_path ≡ st.log_path
  log_path-after n st (returns u, s) = log_path-merge u st
  log_path-after n st (interrupts, s) = refl
  log_path-after n st (raises e, s) = refl

  pub world-ended_with : (q : Result Update × S) → (ended_with services agents q).1 ≡ q.1
  world-ended_with (ok u, s) = refl
  world-ended_with (err e, s) = refl

-- The calls of a run on the log at a path.
pub record FramedRun {S : Type 0} (frame : Frame S) (services : Services S) (agents : Agents S)
    (path : String) : Type 0 where
  pub token_hex : Respects frame services.token_hex
  pub spent : Respects frame services.spent
  pub read_text : Respects frame (services.files.read_text path)
  pub format_report :
      (st : AgentState)
      → st.log_path ≡ path
      → Respects frame (Report.format_report services.python services.files st)
  pub diagnosis : (st : AgentState) → Respects frame (agents.diagnosis st)
  pub supervisor : (st : AgentState) → Respects frame (agents.supervisor st)
  pub code_fixer : (st : AgentState) → Respects frame (agents.code_fixer st)
  pub infra_sre : (st : AgentState) → Respects frame (agents.infra_sre st)
  pub security_reviewer : (st : AgentState) → Respects frame (agents.security_reviewer st)
  pub verifier : (st : AgentState) → Respects frame (agents.verifier st)

module _ {S : Type 0} (frame : Frame S) (services : Services S) (agents : Agents S) (path : String)
    (framed : FramedRun frame services agents path) where
  le-ended_with :
      (s : S) (m : Exec S Update)
      → Respects frame m
      → frame.Le s (ended_with services agents (m s)).1
  le-ended_with s m h = rw (world-ended_with services agents (m s)) (h s)

  Respects-on_cost_guard : (r : Result Update) → Respects frame (on_cost_guard services agents r)
  Respects-on_cost_guard (ok u) = frame.le_refl
  Respects-on_cost_guard (err (cost_guard_error e)) = frame.le_refl
  Respects-on_cost_guard (err e) = frame.le_refl

  Respects-guarded :
      (agent : AgentState → Exec S Update) (st : AgentState)
      → Respects frame (agent st)
      → Respects frame (guarded services agents agent st)
  unfolding guarded
  Respects-guarded agent st h =
      Respects-try_with frame (agent st) (on_cost_guard services agents) h Respects-on_cost_guard

  Respects-seed_trace_id : (st : AgentState) → Respects frame (seed_trace_id services agents st)
  unfolding seed_trace_id
  Respects-seed_trace_id st s = elim (Bool-cases (is_set st.trace_id)) [
    | inl set ↦ rw set (frame.le_refl s)
    | inr clear ↦ rw clear (
        Respects-continue frame s (services.token_hex s) _ (framed.token_hex s)
          (λ id. frame.le_refl))
  ]

  Respects-report_spent : (st : AgentState) → Respects frame (report_spent services agents st)
  unfolding report_spent
  Respects-report_spent st =
      Respects-bind frame services.spent _ framed.spent (λ total. frame.le_refl)

  le-guarded :
      (agent : AgentState → Exec S Update) (st : AgentState) (s : S)
      → Respects frame (agent st)
      → frame.Le s (ended_with services agents (guarded services agents agent st s)).1
  le-guarded agent st s h =
      le-ended_with s (guarded services agents agent st) (Respects-guarded agent st h)

  le-execute :
      (n : Node) (st : AgentState) (s : S)
      → st.log_path ≡ path
      → frame.Le s (execute services agents none n st s).1
  unfolding execute ParseLog.parse_log
  le-execute Node.dispatch st s e =
      le-ended_with s (seed_trace_id services agents st) (Respects-seed_trace_id st)
  le-execute Node.parse_log st s e =
      rw (world-ended_with services agents (ParseLog.parse_log services.python services.files st s))
        (rw e (framed.read_text s))
  le-execute Node.diagnosis_agent st s e = le-guarded agents.diagnosis st s (framed.diagnosis st)
  le-execute Node.supervisor_route st s e = le-guarded agents.supervisor st s (framed.supervisor st)
  le-execute Node.code_fixer_agent st s e = le-guarded agents.code_fixer st s (framed.code_fixer st)
  le-execute Node.infra_sre_agent st s e = le-guarded agents.infra_sre st s (framed.infra_sre st)
  le-execute Node.security_reviewer st s e =
      le-guarded agents.security_reviewer st s (framed.security_reviewer st)
  le-execute Node.security_gate st s e = frame.le_refl s
  le-execute Node.verifier_agent st s e = le-ended_with s (agents.verifier st) (framed.verifier st)
  le-execute Node.format_report st s e =
      le-ended_with s (Report.format_report services.python services.files st)
        (framed.format_report st e)
  le-execute Node.cost_exhausted st s e =
      le-ended_with s (report_spent services agents st) (Respects-report_spent st)

  -- The run is still on the log, and above the world that it began in.
  abbrev pub AboveRun : S → Run S → Type 0
  AboveRun s r = (r.state.log_path ≡ path) × frame.Le s r.world

  pub AboveRun-visit :
      (s : S) (n : Node) (r : Run S)
      → AboveRun s r
      → AboveRun s (visit services agents none n r.state r.world)
  unfolding visit
  AboveRun-visit s n r (e, h) =
      let q = execute services agents none n r.state r.world in
      (
        log_path-after services agents n r.state q ∙ e,
        rw (world-after services agents n r.state q)
            (frame.le_trans s r.world q.1 h (le-execute n r.state r.world e)),
      )

  pub AboveRun-invoke :
      (st : AgentState) (s : S) → st.log_path ≡ path → AboveRun s (invoke services agents st s)
  unfolding invoke
  AboveRun-invoke st s e =
      drive_inv services agents (AboveRun s) (λ n r p h. AboveRun-visit s n r h) 9
        (record { position = at Node.dispatch; state = st; world = s }) (e, frame.le_refl s)
