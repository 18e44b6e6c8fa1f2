-- ===== src/Pipeline/Termination.antt =====
-- Runs of the graph end.
use auto_sentinel.Prelude.{ℕ, zero, suc, ◌≤◌, ◌<◌, ◌≡◌, refl, arith}
use auto_sentinel.State.{AgentState, merge}
use auto_sentinel.Python.Json.{Value}
use mathlib.Core.Option.{Option, none}
use Prim.Native.Nat.{◌-◌}
use auto_sentinel.Pipeline.{
  Node, Agents, Services, NodeEnd, returns, interrupts, raises, Position, at, suspended, ended,
  failed, next, Run, execute, after, visit, advance_at, advance, drive, invoke,
}

-- How many nodes are left, at most, from a node on.
abbrev pub rank : Node → ℕ
rank Node.dispatch = 9
rank Node.parse_log = 8
rank Node.diagnosis_agent = 7
rank Node.supervisor_route = 6
rank Node.code_fixer_agent = 5
rank Node.infra_sre_agent = 5
rank Node.security_reviewer = 4
rank Node.security_gate = 3
rank Node.verifier_agent = 2
rank Node.format_report = 1
rank Node.cost_exhausted = 1

abbrev pub left : Position → ℕ
left (at n) = rank n
left p = 0

module _ {S : Type 0} (agents : Agents S) where
  left-next : (n : Node) (st : AgentState) → left (next agents n st) < rank n
  unfolding next
  left-next n st = ground arith

abbrev pub IsOver : Position → Type 0
IsOver (at n) = ⊥
IsOver p = Unit

IsOver-left : (p : Position) → left p ≤ 0 → IsOver p
IsOver-left (at n) h = ground arith
IsOver-left suspended h = tt
IsOver-left p h = tt

rank_pos : (n : Node) → 0 < rank n
rank_pos n = ground arith

module _ {S : Type 0} (services : Services S) (agents : Agents S) where
  left-after :
      (n : Node) (st : AgentState) (p : NodeEnd × S)
      → left (after services agents n st p).position < rank n
  left-after n st (returns u, s) = left-next agents n (merge u st)
  left-after n st (interrupts, s) = rank_pos n
  left-after n st (raises e, s) = rank_pos n

  left-visit :
      (r : Option Value) (n : Node) (st : AgentState) (s : S)
      → left (visit services agents r n st s).position < rank n
  unfolding visit
  left-visit r n st s = left-after n st (execute services agents r n st s)

  left-advance_at :
      (p : Position) (r : Run S)
      → r.position ≡ p
      → left (advance_at services agents p r).position ≤ left r.position - 1
  left-advance_at (at n) r e = rw e (omega (arith, left-visit none n r.state r.world))
  left-advance_at suspended r e = rw e (omega arith)
  left-advance_at ended r e = rw e (omega arith)
  left-advance_at (failed x) r e = rw e (omega arith)

  left-drive :
      (fuel : ℕ) (r : Run S) → left (drive services agents fuel r).position ≤ left r.position - fuel
  unfolding drive advance
  left-drive zero r = omega arith
  left-drive (suc n) r =
      omega (arith, left-drive n (advance services agents r), left-advance_at r.position r refl)

  -- Nine super-steps are enough: a run from any state and any world, with any agents, has ended, has
  -- been suspended at the gate, or has failed with an exception.
  pub invoke-IsOver : (st : AgentState) (s : S) → IsOver (invoke services agents st s).position
  unfolding invoke
  invoke-IsOver st s =
      let start : Run S = record { position = at Node.dispatch; state = st; world = s } in
      IsOver-left (drive services agents 9 start).position (omega (arith, left-drive 9 start))
