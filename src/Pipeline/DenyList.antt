-- ===== src/Pipeline/DenyList.antt =====
-- A fix that a deny-list matches is never run without an approval.
use auto_sentinel.Prelude.{
  ℕ, String, ◌≡◌, refl, ap, Bool, true, false, some, none, if◌then◌else◌, arith,
}
use auto_sentinel.Effects.{cost_guard_error, Result, ok, err}
use auto_sentinel.Python.{Python}
use auto_sentinel.Llm.Protocol.{LlmClient}
use auto_sentinel.Llm.Factory.{AgentModelConfig}
use auto_sentinel.State.{AgentState, Update, merge}
use auto_sentinel.Agents.Verifier.{Docker}
use auto_sentinel.Agents.SecurityReviewer
use auto_sentinel.Agents.SecurityReviewer.Verdict.{Holds, artifact_of, keyword-high_risk}
use auto_sentinel.Pipeline.{
  Node, Agents, Services, NodeEnd, returns, interrupts, raises, Position, at, suspended, ended,
  failed, on_cost_guard, ended_with, next, Run, execute, after, visit, advance_at, advance,
}
use auto_sentinel.Pipeline.Approval.{Reach, here, superstep, approval, is_verifier}
use auto_sentinel.Pipeline.Production.{Models, production}

module _ {S : Type 0} (services : Services S) (docker : Docker S) (models : Models S)
    (kw : String) where
  abbrev agents : Agents S
  agents = production services.python docker models

  abbrev python : Python
  python = services.python

  abbrev client : LlmClient S
  client = models.security_reviewer.client

  abbrev config : AgentModelConfig
  config = models.security_reviewer.config

  -- The fix of a state holds the keyword.
  abbrev pub IsDenied : AgentState → Type 0
  IsDenied st = Holds python client config (artifact_of python client config st) kw

  -- What keeps a denied fix from the verifier, at each place of the run.
  abbrev Held : Position → AgentState → Type 0
  Held (at Node.security_reviewer) st = IsDenied st
  Held (at Node.security_gate) st = st.security_verdict ≡ some "HIGH_RISK"
  Held (at Node.cost_exhausted) st = Unit
  Held (at n) st = ⊥
  Held p st = Unit

  Held-reviewed :
      (st : AgentState) (b : Bool)
      → st.security_verdict ≡ some "HIGH_RISK"
      → Held (at (if b then Node.cost_exhausted else Node.security_gate)) st
  Held-reviewed st true h = tt
  Held-reviewed st false h = h

  Held-reviewer :
      (st : AgentState) (w : S) (r : Result Update × S)
      → SecurityReviewer.run python client config st w ≡ r
      → IsDenied st
      → let t =
          after services agents Node.security_reviewer st
            (ended_with services agents (on_cost_guard services agents r.0 r.1)) in
        Held t.position t.state
  unfolding next merge
  Held-reviewer st w (ok u, s) e h =
      let st' = merge u st in
      Held-reviewed st' st'.cost_exhausted
        (keyword-high_risk python client config st w kw u h (ap (λ (q : Result Update × S). q.0) e))
  Held-reviewer st w (err (cost_guard_error x), s) e h = tt
  Held-reviewer st w (err x, s) e h = tt

  Held-gate :
      (st : AgentState) (w : S)
      → st.security_verdict ≡ some "HIGH_RISK"
      → let t = visit services agents none Node.security_gate st w in Held t.position t.state
  unfolding visit
  Held-gate st w h = rw h tt

  Held-cost_exhausted :
      (st : AgentState) (p : NodeEnd × S)
      → let t = after services agents Node.cost_exhausted st p in Held t.position t.state
  unfolding next
  Held-cost_exhausted st (returns u, s) = tt
  Held-cost_exhausted st (interrupts, s) = tt
  Held-cost_exhausted st (raises e, s) = tt

  Held-visit :
      (n : Node) (st : AgentState) (w : S)
      → Held (at n) st
      → let t = visit services agents none n st w in Held t.position t.state
  unfolding visit
  Held-visit Node.security_reviewer st w h =
      Held-reviewer st w (SecurityReviewer.run python client config st w) refl h
  Held-visit Node.security_gate st w h = Held-gate st w h
  Held-visit Node.cost_exhausted st w h =
      Held-cost_exhausted st (execute services agents none Node.cost_exhausted st w)
  Held-visit n st w h = absurd h

  Held-advance_at :
      (p : Position) (r : Run S)
      → Held p r.state
      → r.position ≡ p
      → let t = advance_at services agents p r in Held t.position t.state
  Held-advance_at (at n) r h e = Held-visit n r.state r.world h
  Held-advance_at suspended r h e = rw e tt
  Held-advance_at ended r h e = rw e tt
  Held-advance_at (failed x) r h e = rw e tt

  Held-Reach :
      {start : Run S} {k : ℕ} {r : Run S}
      → Held start.position start.state
      → k ≡ 0
      → Reach services agents start k r
      → Held r.position r.state
  unfolding advance
  Held-Reach h e here = h
  Held-Reach h e (superstep {r = r} reached) =
      Held-advance_at r.position r (Held-Reach h e reached) refl
  Held-Reach h e (approval v reached stopped) = absurd (omega arith)

  not_verifier : (p : Position) (st : AgentState) → Held p st → is_verifier p ≡ false
  not_verifier (at Node.verifier_agent) st h = absurd h
  not_verifier p st h = refl

  -- With the production agents, a fix that holds a keyword of a deny-list when it comes to the reviewer
  -- does not reach the verifier in any number of super-steps, whatever the model answers or raises,
  -- as long as the run is not resumed at the gate.
  pub denied_needs_approval :
      {start : Run S} {r : Run S}
      → start.position ≡ at Node.security_reviewer
      → IsDenied start.state
      → Reach services agents start 0 r
      → is_verifier r.position ≡ false
  denied_needs_approval {start} {r} e h reached =
      not_verifier r.position r.state (Held-Reach (rw e h) refl reached)
