-- ===== src/Pipeline/Routing.antt =====
-- The branches out of the supervisor in autosentinel/multi_agent_graph.py always exist.
use auto_sentinel.Prelude.{
  String, ◌≡◌, refl, ◌∙◌, ◌⊎◌, inl, inr, true, false, Bool-cases, some, arith,
}
use auto_sentinel.Prelude.Strings.{◌==◌, is_one_of, eq_iff}
use auto_sentinel.Effects.{ok}
use auto_sentinel.State.{AgentState, Update, merge}
use auto_sentinel.Agents.Supervisor
use auto_sentinel.Agents.Supervisor.{valid_specialists}
use auto_sentinel.Agents.Supervisor.Routing.{run-IsRoutedState}
use auto_sentinel.Agents.Verifier.{Docker}
use auto_sentinel.Pipeline.{Node, Agents, Position, at, route_to_specialist, next}
use auto_sentinel.Pipeline.Production.{Models, production}
use auto_sentinel.Python.{Python}

valid_specialist_cases :
    (s : String) → is_one_of s valid_specialists ≡ true → (s ≡ "code_fixer") ⊎ (s ≡ "infra_sre")
unfolding is_one_of
valid_specialist_cases s h = elim (Bool-cases (s == "code_fixer")) [
  | inl first ↦ inl ((eq_iff s "code_fixer").0 first)
  | inr other ↦ elim (Bool-cases (s == "infra_sre")) [
    | inl second ↦ inr ((eq_iff s "infra_sre").0 second)
    | inr neither ↦ absurd (ground arith)
  ]
]

-- The node that stands next is one of the two that generate fixes.
abbrev pub IsProducer : Position → Type 0
IsProducer p = (p ≡ at Node.code_fixer_agent) ⊎ (p ≡ at Node.infra_sre_agent)

module _ {S : Type 0} (agents : Agents S) where
  IsProducer-route_to_specialist :
      (st : AgentState) (s : String)
      → st.cost_exhausted ≡ false
      → st.specialist ≡ some s
      → is_one_of s valid_specialists ≡ true
      → IsProducer (route_to_specialist agents st)
  unfolding route_to_specialist
  IsProducer-route_to_specialist st s h k listed = elim (valid_specialist_cases s listed) [
    | inl e ↦ rw (h, k, e) (inl refl)
    | inr e ↦ rw (h, k, e) (inr refl)
  ]

module _ {S : Type 0} (py : Python) (docker : Docker S) (models : Models S) where
  -- With the production agents, a supervisor that returns in a run with budget left is followed by
  -- one of the two producers, whatever the model replied: the graph has a branch for every label.
  pub supervisor_has_branch :
      (st : AgentState) (w : S) (u : Update)
      → st.cost_exhausted ≡ false
      → (Supervisor.run py models.supervisor.client models.supervisor.config st w).0 ≡ ok u
      → IsProducer (next (production py docker models) Node.supervisor_route (merge u st))
  unfolding next
  supervisor_has_branch st w u h r =
      let (x, answered, (pair, named, reason, flag, routed)) =
        run-IsRoutedState py models.supervisor.client models.supervisor.config st w u r in
      IsProducer-route_to_specialist (production py docker models) (merge u st) pair.0 (flag ∙ h)
        named routed.0
