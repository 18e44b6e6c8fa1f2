-- ===== src/Pipeline/Approval.antt =====
-- The approval gate of autosentinel/multi_agent_graph.py, over every sequence of super-steps and
-- resumptions.
use auto_sentinel.Prelude.{
  ℕ, suc, ◌≤◌, ◌≡◌, refl, Bool, true, false, Bool-cases, ◌⊎◌, inl, inr, none, some, arith,
}
use auto_sentinel.Python.Json.{Value}
use auto_sentinel.State.{AgentState, merge}
use auto_sentinel.Nodes.Report.Sidecar.{is_high_risk}
use auto_sentinel.Pipeline.{
  Node, Agents, Services, NodeEnd, returns, interrupts, raises, Position, at, suspended, next, Run,
  execute, after, visit, advance_at, advance, resume,
}

-- The runs that a run can reach, with the number of resumptions on the way.
pub data Reach {S : Type 0} (services : Services S) (agents : Agents S) (start : Run S)
    : ℕ → Run S → Type 0 where
  here : Reach services agents start 0 start
  superstep :
      {n : ℕ} {r : Run S}
      → Reach services agents start n r
      → Reach services agents start n (advance services agents r)
  approval :
      {n : ℕ} {r : Run S} (v : Value)
      → Reach services agents start n r
      → r.position ≡ suspended
      → Reach services agents start (suc n) (resume services agents v r)

abbrev pub is_verifier : Position → Bool
is_verifier (at Node.verifier_agent) = true
is_verifier p = false

-- A run that stands before the verifier records whether its fix was high-risk, and such a fix has
-- been resumed.
abbrev Cleared : {S : Type 0} → ℕ → Run S → Type 0
Cleared n r =
    is_verifier r.position ≡ true
    → (r.state.approval_required ≡ is_high_risk r.state.security_verdict)
      × (is_high_risk r.state.security_verdict ≡ true → 1 ≤ n)

module _ {S : Type 0} (services : Services S) (agents : Agents S) where
  verifier_after_gate :
      (n : Node) (st : AgentState) → is_verifier (next agents n st) ≡ true → n ≡ Node.security_gate
  unfolding next
  verifier_after_gate n st h = ground arith

  Cleared-gate :
      (k : ℕ) (st : AgentState) (s : S)
      → Cleared k (visit services agents none Node.security_gate st s)
  unfolding visit
  Cleared-gate k st s h = ground arith

  Cleared-resumed :
      (k : ℕ) (v : Value) (st : AgentState) (s : S)
      → Cleared (suc k) (visit services agents (some v) Node.security_gate st s)
  unfolding visit
  Cleared-resumed k v st s h = ground arith

  verifier_after :
      (n : Node) (st : AgentState) (p : NodeEnd × S)
      → is_verifier (after services agents n st p).position ≡ true
      → n ≡ Node.security_gate
  verifier_after n st (returns u, s) h = verifier_after_gate n (merge u st) h
  verifier_after n st (interrupts, s) h = cc
  verifier_after n st (raises e, s) h = cc

  verifier_visit :
      (k : ℕ) (n : Node) (st : AgentState) (s : S)
      → is_verifier (visit services agents none n st s).position ≡ true
      → n ≡ Node.security_gate
  unfolding visit
  verifier_visit k n st s h = verifier_after n st (execute services agents none n st s) h

  Cleared-visit :
      (k : ℕ) (n : Node) (st : AgentState) (s : S) → Cleared k (visit services agents none n st s)
  Cleared-visit k Node.security_gate st s = Cleared-gate k st s
  Cleared-visit k n st s = λ h. cc (verifier_visit k n st s h)

  Cleared-advance_at :
      (k : ℕ) (p : Position) (r : Run S) → Cleared k r → Cleared k (advance_at services agents p r)
  Cleared-advance_at k (at n) r h = Cleared-visit k n r.state r.world
  Cleared-advance_at k p r h = h

  Cleared-suspended :
      (k : ℕ) (v : Value) (r : Run S)
      → r.position ≡ suspended
      → Cleared (suc k) (resume services agents v r)
  unfolding resume
  Cleared-suspended k v r e = rw e (Cleared-resumed k v r.state r.world)

  Cleared-Reach :
      {start : Run S} {k : ℕ} {r : Run S}
      → start.position ≡ at Node.dispatch
      → Reach services agents start k r
      → Cleared k r
  unfolding advance
  Cleared-Reach e here = λ h. cc
  Cleared-Reach e (superstep {n = k} {r = r} reached) =
      Cleared-advance_at k r.position r (Cleared-Reach e reached)
  Cleared-Reach e (approval {n = k} {r = r} v reached stopped) = Cleared-suspended k v r stopped

  -- If a run that started before `dispatch` stands before the verifier, its flag `approval_required`
  -- tells whether the verdict is HIGH_RISK; and the verdict is not HIGH_RISK, or the run has been
  -- resumed at the gate at least once. The agents may be any functions.
  pub verifier_needs_approval :
      {start : Run S} {k : ℕ} {r : Run S}
      → start.position ≡ at Node.dispatch
      → Reach services agents start k r
      → is_verifier r.position ≡ true
      → (r.state.approval_required ≡ is_high_risk r.state.security_verdict)
        × ((is_high_risk r.state.security_verdict ≡ false) ⊎ (1 ≤ k))
  verifier_needs_approval {r = r} e reached h =
      let cleared = Cleared-Reach e reached h in
      (
        cleared.0,
        elim (Bool-cases (is_high_risk r.state.security_verdict)) [
          | inl high ↦ inr (cleared.1 high)
          | inr low ↦ inl low
        ],
      )

  -- Whatever value a suspended high-risk run is resumed with, its next node is the verifier, in the
  -- same state and world for every value: no value of `interrupt` keeps the fix from being run.
  pub resume_ignores_value :
      (v w : Value) (r : Run S)
      → r.position ≡ suspended
      → r.state.security_verdict ≡ some "HIGH_RISK"
      → ((resume services agents v r).position ≡ at Node.verifier_agent)
        × (resume services agents w r ≡ resume services agents v r)
  unfolding resume visit
  resume_ignores_value v w r e h = rw (e, h) (refl, refl)
