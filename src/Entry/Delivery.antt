-- ===== src/Entry/Delivery.antt =====
-- `run_pipeline` of autosentinel/__init__.py returns a path only after the result file was written.
use auto_sentinel.Prelude.{String, ◌≡◌, refl, ◌∙◌, ◌⊎◌, inl, inr, Bool-cases, none, [], ◌∷◌, arith}
use auto_sentinel.Effects.{cost_guard_error, Result, ok, err, Exec, continue, pure}
use auto_sentinel.Python.{Python}
use auto_sentinel.State.{AgentState, Update, Write, merge}
use auto_sentinel.Nodes.ParseLog
use auto_sentinel.Nodes.ParseLog.{parse_text}
use auto_sentinel.Nodes.ParseLog.Shape.{IsLogUpdate-parse_text}
use auto_sentinel.Nodes.Report
use auto_sentinel.Nodes.Report.Sidecar.{is_high_risk}
use auto_sentinel.Pipeline.{
  Node, Agents, Services, Position, at, suspended, ended, failed, is_set, seed_trace_id,
  on_cost_guard, guarded, report_spent, ended_with, execute, next, Run, after, visit, invoke,
}
use auto_sentinel.Pipeline.Frame.{drive_inv, log_path-after}
use auto_sentinel.Entry.{conclude, outcome}
use auto_sentinel.Entry.Quiet.{IsQuiet, QuietAgents}

abbrev KeepsPath : AgentState → Result Update → Type 0
KeepsPath st (err e) = Unit
KeepsPath st (ok u) = (merge u st).report_path ≡ st.report_path

KeepsPath-quiet : (st : AgentState) (q : Result Update) → IsQuiet st q → KeepsPath st q
KeepsPath-quiet st (ok u) h = h.0
KeepsPath-quiet st (err e) h = tt

KeepsPath-logged :
    (py : Python) (st : AgentState) (path : String) (q : Result String) (r : Result Update)
    → parse_text py path q ≡ r
    → KeepsPath st r
unfolding merge
KeepsPath-logged py st path q (err e) h = tt
KeepsPath-logged py st path q (ok u) h = elim (IsLogUpdate-parse_text py path q u h) [
  | inl (why, f) ↦ rw f refl
  | inr (log, f) ↦ rw f refl
]

module _ {S : Type 0} (services : Services S) (agents : Agents S) (quiet : QuietAgents agents)
    (path : String)
    -- The result file has been written.
    (Written : S → Type 0)
    (written : (st : AgentState) (s : S) (u : Update)
      → st.log_path ≡ path
      → (Report.format_report services.python services.files st s).0 ≡ ok u
      → Written (Report.format_report services.python services.files st s).1) where
  -- The state has no report, or the run has ended and the result file is there.
  abbrev pub Delivered : Run S → Type 0
  Delivered r = (r.state.report_path ≡ none) ⊎ ((r.position ≡ ended) × Written r.world)

  Delivered-kept :
      (n : Node) (st : AgentState) (q : Result Update × S)
      → st.report_path ≡ none
      → KeepsPath st q.0
      → Delivered (after services agents n st (ended_with services agents q))
  Delivered-kept n st (ok u, s) h k = inl (k ∙ h)
  Delivered-kept n st (err e, s) h k = inl h

  KeepsPath-on_cost_guard :
      (st : AgentState) (q : Result Update × S)
      → KeepsPath st q.0
      → KeepsPath st (on_cost_guard services agents q.0 q.1).0
  unfolding merge
  KeepsPath-on_cost_guard st (ok u, s) h = h
  KeepsPath-on_cost_guard st (err (cost_guard_error e), s) h = refl
  KeepsPath-on_cost_guard st (err e, s) h = tt

  Delivered-guarded :
      (n : Node) (agent : AgentState → Exec S Update) (st : AgentState) (s : S)
      → st.report_path ≡ none
      → IsQuiet st (agent st s).0
      → Delivered (
          after services agents n st
            (ended_with services agents (guarded services agents agent st s)))
  unfolding guarded
  Delivered-guarded n agent st s h k =
      Delivered-kept n st (on_cost_guard services agents (agent st s).0 (agent st s).1) h
        (KeepsPath-on_cost_guard st (agent st s) (KeepsPath-quiet st (agent st s).0 k))

  Delivered-seeded :
      (st : AgentState) (q : Result String × S)
      → st.report_path ≡ none
      → Delivered (
          after services agents Node.dispatch st
            (ended_with services agents (continue q (λ id. pure (Write.trace_id id ∷ [])))))
  unfolding merge
  Delivered-seeded st (ok id, s) h = inl h
  Delivered-seeded st (err e, s) h = inl h

  Delivered-reported :
      (st : AgentState) (q : Result Update × S)
      → st.report_path ≡ none
      → ((u : Update) → q.0 ≡ ok u → Written q.1)
      → Delivered (after services agents Node.format_report st (ended_with services agents q))
  unfolding next
  Delivered-reported st (ok u, s) h k = inr (refl, k u refl)
  Delivered-reported st (err e, s) h k = inl h

  KeepsPath-spent : (st : AgentState) (s : S) → KeepsPath st (report_spent services agents st s).0
  unfolding report_spent merge
  KeepsPath-spent st s = ground arith

  Delivered-visit :
      (n : Node) (st : AgentState) (s : S)
      → st.log_path ≡ path
      → st.report_path ≡ none
      → Delivered (visit services agents none n st s)
  unfolding visit ParseLog.parse_log seed_trace_id merge
  Delivered-visit Node.dispatch st s e h = elim (Bool-cases (is_set st.trace_id)) [
    | inl set ↦ rw set (inl h)
    | inr clear ↦ rw clear (Delivered-seeded st (services.token_hex s) h)
  ]
  Delivered-visit Node.parse_log st s e h =
      let (r, t) = services.files.read_text st.log_path s in
      Delivered-kept Node.parse_log st (parse_text services.python st.log_path r, t) h
        (KeepsPath-logged services.python st st.log_path r _ refl)
  Delivered-visit Node.diagnosis_agent st s e h =
      Delivered-guarded Node.diagnosis_agent agents.diagnosis st s h (quiet.diagnosis st s)
  Delivered-visit Node.supervisor_route st s e h =
      Delivered-guarded Node.supervisor_route agents.supervisor st s h (quiet.supervisor st s)
  Delivered-visit Node.code_fixer_agent st s e h =
      Delivered-guarded Node.code_fixer_agent agents.code_fixer st s h (quiet.code_fixer st s)
  Delivered-visit Node.infra_sre_agent st s e h =
      Delivered-guarded Node.infra_sre_agent agents.infra_sre st s h (quiet.infra_sre st s)
  Delivered-visit Node.security_reviewer st s e h =
      Delivered-guarded Node.security_reviewer agents.security_reviewer st s h
        (quiet.security_reviewer st s)
  Delivered-visit Node.security_gate st s e h =
      elim (Bool-cases (is_high_risk st.security_verdict)) [
        | inl high ↦ rw high (inl h)
        | inr low ↦ rw low (inl h)
      ]
  Delivered-visit Node.verifier_agent st s e h =
      Delivered-kept Node.verifier_agent st (agents.verifier st s) h
        (KeepsPath-quiet st (agents.verifier st s).0 (quiet.verifier st s))
  Delivered-visit Node.format_report st s e h =
      Delivered-reported st (Report.format_report services.python services.files st s) h
        (λ u. written st s u e)
  Delivered-visit Node.cost_exhausted st s e h =
      Delivered-kept Node.cost_exhausted st (report_spent services agents st s) h
        (KeepsPath-spent st s)

  abbrev DeliveredRun : Run S → Type 0
  DeliveredRun r = (r.state.log_path ≡ path) × Delivered r

  DeliveredRun-visit :
      (n : Node) (r : Run S)
      → r.position ≡ at n
      → DeliveredRun r
      → DeliveredRun (visit services agents none n r.state r.world)
  unfolding visit
  DeliveredRun-visit n r p (e, inl h) = (
    log_path-after services agents n r.state (execute services agents none n r.state r.world) ∙ e,
    Delivered-visit n r.state r.world e h,
  )
  DeliveredRun-visit n r p (e, inr (stop, w)) = absurd (cc)

  conclude_without : (st : AgentState) (p : String) → st.report_path ≡ none → conclude st ≡ ok p → ⊥
  unfolding conclude
  conclude_without st p h e = elim (Bool-cases (is_set st.parse_error)) [
    | inl set ↦ absurd (ground arith)
    | inr clear ↦ elim (Bool-cases (is_set st.analysis_error)) [
      | inl set ↦ absurd (ground arith)
      | inr none_set ↦ absurd (cc (rw (clear, none_set, h) at e))
    ]
  ]

  outcome_written :
      (p : Position) (r : Run S) (x : String)
      → Delivered r
      → outcome p r.state ≡ ok x
      → Written r.world
  outcome_written (failed e) r x d h = absurd (cc)
  outcome_written (at n) r x (inl none_yet) h = absurd (conclude_without r.state x none_yet h)
  outcome_written suspended r x (inl none_yet) h = absurd (conclude_without r.state x none_yet h)
  outcome_written ended r x (inl none_yet) h = absurd (conclude_without r.state x none_yet h)
  outcome_written p r x (inr (e, w)) h = w

  -- A run whose outcome is a path has written the result file.
  pub invoke_written :
      (st : AgentState) (s : S) (x : String)
      → st.log_path ≡ path
      → st.report_path ≡ none
      → let r = invoke services agents st s in outcome r.position r.state ≡ ok x → Written r.world
  unfolding invoke
  invoke_written st s x e h k =
      let d =
        drive_inv services agents DeliveredRun DeliveredRun-visit 9
          (record { position = at Node.dispatch; state = st; world = s }) (e, inl h) in
      let r = invoke services agents st s in outcome_written r.position r x d.1 k
