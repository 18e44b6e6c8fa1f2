-- ===== src/Entry/Suspension.antt =====
-- What `run_pipeline` of autosentinel/__init__.py makes of a run that the gate has suspended.
use auto_sentinel.Prelude.{
  ℕ, zero, suc, String, ◌≡◌, refl, Bool, true, Bool-cases, inl, inr, Option, none, [], ◌∷◌,
}
use auto_sentinel.Effects.{type_error, cost_guard_error, Result, ok, err, Exec, continue, pure}
use auto_sentinel.State.{AgentState, Update, Write, merge, initial_state}
use auto_sentinel.Nodes.ParseLog
use auto_sentinel.Nodes.Report.Sidecar.{is_high_risk}
use auto_sentinel.Nodes.ParseLog.{required_fields, missing, error_log_of, parse_text}
use auto_sentinel.Pipeline.{
  Node, Agents, Services, NodeEnd, returns, interrupts, raises, Position, at, suspended, ended,
  failed, is_set, on_cost_guard, guarded, ended_with, execute, next, Run, after, visit, advance_at,
  advance, drive, invoke,
}
use auto_sentinel.Entry.{truthy_id, path_of, conclude, outcome, run_pipeline}
use auto_sentinel.Entry.Quiet.{
  IsQuiet, QuietAgents, Fresh, Clean, Unreported, Unreported-Clean, Clean-quiet, Fresh-parse_text,
}

module _ {S : Type 0} (services : Services S) (agents : Agents S) (quiet : QuietAgents agents) where
  abbrev UnreportedRun : Run S → Type 0
  UnreportedRun r = Unreported r.position r.state

  -- A node that leaves the state clean.
  Unreported-returned :
      (n : Node) (st : AgentState) (q : Result Update × S)
      → Clean st
      → IsQuiet st q.0
      → UnreportedRun (after services agents n st (ended_with services agents q))
  Unreported-returned n st (ok u, s) h k =
      Unreported-Clean (next agents n (merge u st)) (merge u st) (Clean-quiet st u h k)
  Unreported-returned n st (err e, s) h k = tt

  IsQuiet-on_cost_guard :
      (st : AgentState) (q : Result Update × S)
      → IsQuiet st q.0
      → IsQuiet st (on_cost_guard services agents q.0 q.1).0
  unfolding merge
  IsQuiet-on_cost_guard st (ok u, s) h = h
  IsQuiet-on_cost_guard st (err (cost_guard_error e), s) h = (refl, refl, refl)
  IsQuiet-on_cost_guard st (err e, s) h = tt

  Unreported-guarded :
      (n : Node) (agent : AgentState → Exec S Update) (st : AgentState) (s : S)
      → Clean st
      → IsQuiet st (agent st s).0
      → UnreportedRun (
          after services agents n st
            (ended_with services agents (guarded services agents agent st s)))
  unfolding guarded
  Unreported-guarded n agent st s h k =
      Unreported-returned n st (on_cost_guard services agents (agent st s).0 (agent st s).1) h
        (IsQuiet-on_cost_guard st (agent st s) k)

  Unreported-final :
      (n : Node) (st : AgentState) (p : NodeEnd × S)
      → Clean st
      → ((u : Update) → next agents n (merge u st) ≡ ended)
      → UnreportedRun (after services agents n st p)
  Unreported-final n st (returns u, s) h e = rw (e u) tt
  Unreported-final n st (interrupts, s) h e = h
  Unreported-final n st (raises x, s) h e = tt

  Unreported-parsed :
      (st : AgentState) (q : Result Update) (s : S)
      → Fresh st
      → ((u : Update) → q ≡ ok u → Fresh (merge u st))
      → UnreportedRun (after services agents Node.parse_log st (ended_with services agents (q, s)))
  unfolding next
  Unreported-parsed st (ok u) s h k = elim (Bool-cases (is_set (merge u st).parse_error)) [
    | inl set ↦ rw set tt
    | inr clear ↦ rw clear (k u refl, clear)
  ]
  Unreported-parsed st (err e) s h k = tt

  Unreported-seeded :
      (st : AgentState) (q : Result String × S)
      → Fresh st
      → UnreportedRun (
          after services agents Node.dispatch st
            (ended_with services agents (continue q (λ id. pure (Write.trace_id id ∷ [])))))
  unfolding next merge
  Unreported-seeded st (ok id, s) h = h
  Unreported-seeded st (err e, s) h = tt

  Unreported-visit :
      (n : Node) (st : AgentState) (s : S)
      → Unreported (at n) st
      → UnreportedRun (visit services agents none n st s)
  unfolding visit next merge ParseLog.parse_log
  Unreported-visit Node.dispatch st s h = elim (Bool-cases (is_set st.trace_id)) [
    | inl set ↦ rw set h
    | inr clear ↦ rw clear (Unreported-seeded st (services.token_hex s) h)
  ]
  Unreported-visit Node.parse_log st s h =
      let (r, s') = services.files.read_text st.log_path s in
      Unreported-parsed st (parse_text services.python st.log_path r) s' h
        (λ u e. Fresh-parse_text services.python st.log_path st r u h e)
  Unreported-visit Node.diagnosis_agent st s h =
      Unreported-guarded Node.diagnosis_agent agents.diagnosis st s h (quiet.diagnosis st s)
  Unreported-visit Node.supervisor_route st s h =
      Unreported-guarded Node.supervisor_route agents.supervisor st s h (quiet.supervisor st s)
  Unreported-visit Node.code_fixer_agent st s h =
      Unreported-guarded Node.code_fixer_agent agents.code_fixer st s h (quiet.code_fixer st s)
  Unreported-visit Node.infra_sre_agent st s h =
      Unreported-guarded Node.infra_sre_agent agents.infra_sre st s h (quiet.infra_sre st s)
  Unreported-visit Node.security_reviewer st s h =
      Unreported-guarded Node.security_reviewer agents.security_reviewer st s h
        (quiet.security_reviewer st s)
  Unreported-visit Node.security_gate st s h =
      elim (Bool-cases (is_high_risk st.security_verdict)) [
        | inl high ↦ rw high h
        | inr low ↦ rw low h
      ]
  Unreported-visit Node.verifier_agent st s h =
      Unreported-returned Node.verifier_agent st (agents.verifier st s) h (quiet.verifier st s)
  Unreported-visit Node.format_report st s h =
      Unreported-final Node.format_report st (execute services agents none Node.format_report st s)
        h (λ u. refl)
  Unreported-visit Node.cost_exhausted st s h =
      Unreported-final Node.cost_exhausted st
        (execute services agents none Node.cost_exhausted st s) h (λ u. refl)

  Unreported-advance_at :
      (p : Position) (r : Run S)
      → r.position ≡ p
      → Unreported p r.state
      → UnreportedRun (advance_at services agents p r)
  Unreported-advance_at (at n) r e h = Unreported-visit n r.state r.world h
  Unreported-advance_at suspended r e h = rw e h
  Unreported-advance_at ended r e h = rw e tt
  Unreported-advance_at (failed x) r e h = rw e tt

  Unreported-drive :
      (fuel : ℕ) (r : Run S) → UnreportedRun r → UnreportedRun (drive services agents fuel r)
  unfolding drive advance
  Unreported-drive zero r h = h
  Unreported-drive (suc n) r h =
      Unreported-drive n (advance services agents r) (Unreported-advance_at r.position r refl h)

  Unreported-invoke :
      (path : String) (id : Option String) (s : S)
      → UnreportedRun (invoke services agents (initial_state path id) s)
  unfolding invoke initial_state
  Unreported-invoke path id s =
      Unreported-drive 9
        (record { position = at Node.dispatch; state = initial_state path id; world = s })
        (refl, refl)

  conclude-Clean : (st : AgentState) → Clean st → conclude st ≡ path_of none
  unfolding conclude
  conclude-Clean st h = rw (h.1, h.0.1, h.0.0) refl

  outcome-suspended :
      (r : Run S)
      → UnreportedRun r
      → r.position ≡ suspended
      → outcome r.position r.state ≡ path_of none
  outcome-suspended r h e = rw e (conclude-Clean r.state (rw e at h))

  -- If the gate suspends the run, `run_pipeline` does not return: it builds a Path of None, which is a
  -- TypeError, and leaves the suspended run's world. The agents leave the report's path and the errors
  -- to the other nodes.
  pub suspended_pipeline_raises :
      (exists : String → S → Bool) (log_path : String) (id : Option String) (s : S)
      → let path = services.python.path_text log_path in
        let r = invoke services agents (initial_state path (truthy_id id)) s in
        exists path s ≡ true
        → r.position ≡ suspended
        → ((why : String) × ((run_pipeline services agents exists log_path id s).0
              ≡ err (type_error why)))
          × ((run_pipeline services agents exists log_path id s).1 ≡ r.world)
  unfolding run_pipeline
  suspended_pipeline_raises exists log_path id s there stopped =
      let path = services.python.path_text log_path in
      let r = invoke services agents (initial_state path (truthy_id id)) s in
      let e = outcome-suspended r (Unreported-invoke path (truthy_id id) s) stopped in
      rw there ((_, e), refl)
