-- ===== src/Tests/Pipeline.antt =====
-- The theorems on autosentinel/multi_agent_graph.py at concrete runs.
use auto_sentinel.Prelude.{true, none, ◌≤◌, String, ◌≡◌, refl, false, some, [], ◌∷◌, ◌⊎◌, inl}
use auto_sentinel.Effects.{
  Result, ok, CostGuardError, cny, cost_guard_error, type_error, err, Exec, pure,
}
use auto_sentinel.Prelude.Int.{pos}
use auto_sentinel.Prelude.Strings.{◌+++◌, is_one_of}
use auto_sentinel.Nodes.ParseLog
use auto_sentinel.Python.Json.{text, lookup}
use auto_sentinel.State.{AgentState, Update, Write, merge, initial_state}
use auto_sentinel.Nodes.Report.Sidecar.{is_high_risk}
use auto_sentinel.Pipeline.{
  Node, Agents, at, suspended, ended, next, Run, advance, resume, drive, invoke,
}
use auto_sentinel.Pipeline.Termination.{IsOver, invoke-IsOver}
use auto_sentinel.Pipeline.Approval.{
  Reach, here, superstep, approval, is_verifier, verifier_needs_approval, resume_ignores_value,
}
use auto_sentinel.Pipeline.Production.{production}
use auto_sentinel.Pipeline.DenyList.{denied_needs_approval}
use auto_sentinel.Pipeline.Routing.{IsProducer, supervisor_has_branch}
use auto_sentinel.Agents.Supervisor
use auto_sentinel.Entry.{run_pipeline}
use auto_sentinel.Entry.Quiet.{QuietAgents}
use auto_sentinel.Entry.Suspension.{suspended_pipeline_raises}
use auto_sentinel.Pipeline.Budget.{exhausted, budget_ends_run}
use auto_sentinel.Tests.{World, idle, python, models, services, docker, fresh}

-- The production agents with a model that proposes the fix.
abbrev team : String → Agents World
team fix = production python docker (models fix)

abbrev wipe : String
wipe = "import os\nos.system('rm -rf /')"

abbrev report : String → AgentState → Exec World Update
report name st = pure (Write.agent_trace (name ∷ []) ∷ [])

-- Agents whose fix is judged HIGH_RISK.
abbrev pub cautious : Agents World
cautious = record {
  diagnosis = report "DiagnosisAgent";
  supervisor = report "SupervisorAgent";
  code_fixer = report "CodeFixerAgent";
  infra_sre = report "InfraSREAgent";
  security_reviewer = λ st. pure (Write.security_verdict "HIGH_RISK" ∷ []);
  verifier = report "VerifierAgent";
  specialist_key = λ category. "code_fixer";
}

abbrev start : Run World
start = record { position = at Node.dispatch; state = fresh; world = idle }

-- The run is stopped at the gate, and is then resumed.
abbrev stopped : Run World
stopped = drive services cautious 7 start

stopped_position : stopped.position ≡ suspended
unfolding drive next merge ParseLog.parse_log lookup initial_state
stopped_position = refl

to_gate : Reach services cautious start 0 stopped
unfolding drive
to_gate = superstep (superstep (superstep (superstep (superstep (superstep (superstep here))))))

verifier_needs_approval_example :
    let r = resume services cautious (text "approve") stopped in
    (r.state.approval_required ≡ is_high_risk r.state.security_verdict)
    × ((is_high_risk r.state.security_verdict ≡ false) ⊎ (1 ≤ 1))
unfolding resume drive next merge ParseLog.parse_log lookup initial_state
verifier_needs_approval_example =
    verifier_needs_approval services cautious refl
      (approval (text "approve") to_gate stopped_position) refl

abbrev suspended_run : Run World
suspended_run = record {
  position = suspended;
  state = record fresh { security_verdict = some "HIGH_RISK"; fix_artifact = some wipe };
  world = idle;
}

resume_ignores_value_example :
    ((resume services (team wipe) (text "approve") suspended_run).position ≡ at Node.verifier_agent)
    × (resume services (team wipe) (text "reject") suspended_run
        ≡ resume services (team wipe) (text "approve") suspended_run)
resume_ignores_value_example =
    resume_ignores_value services (team wipe) (text "approve") (text "reject") suspended_run refl
      refl

invoke-IsOver_example : IsOver (invoke services (team wipe) fresh idle).position
invoke-IsOver_example = invoke-IsOver services (team wipe) fresh idle

abbrev proposed : Run World
proposed = record {
  position = at Node.security_reviewer;
  state = record fresh { fix_artifact = some wipe };
  world = idle;
}

denied_needs_approval_example :
    is_verifier (advance services (team wipe) (advance services (team wipe) proposed)).position
    ≡ false
unfolding ◌+++◌ is_one_of
denied_needs_approval_example =
    denied_needs_approval services docker (models wipe) "rm -rf /" refl
      ("import os\nos.system('", "')", inl (refl, refl)) (superstep (superstep here))

abbrev overrun : CostGuardError
overrun = record {
  current_spent = pos 160;
  attempted_amount = pos 20;
  budget_limit = pos 150;
  currency = cny;
}

abbrev broke : Agents World
broke = record cautious { supervisor = λ st w. (err (cost_guard_error overrun), w) }

budget_ends_run_example :
    drive services broke 2
      (record { position = at Node.supervisor_route; state = fresh; world = idle })
    ≡ record { position = ended; state = exhausted (record { bits = 7 }) fresh; world = idle }
budget_ends_run_example =
    budget_ends_run services broke Node.supervisor_route broke.supervisor fresh idle idle idle
      overrun (record { bits = 7 }) refl refl refl

abbrev update_of : Result Update → Update
update_of (ok u) = u
update_of (err e) = []

supervisor_has_branch_example : IsProducer (
    next (team wipe) Node.supervisor_route (
      merge
        (update_of
          (Supervisor.run python
            (models wipe).supervisor.client
            (models wipe).supervisor.config
            fresh
            idle).0)
        fresh))
unfolding Supervisor.run Supervisor.parse_routing lookup is_one_of initial_state
supervisor_has_branch_example =
    supervisor_has_branch python docker (models wipe) fresh idle
      (update_of
        (Supervisor.run python (models wipe).supervisor.client (models wipe).supervisor.config fresh
          idle).0)
      refl refl

cautious-QuietAgents : QuietAgents cautious
unfolding merge
cautious-QuietAgents = record {
  diagnosis = λ st s. (refl, refl, refl);
  supervisor = λ st s. (refl, refl, refl);
  code_fixer = λ st s. (refl, refl, refl);
  infra_sre = λ st s. (refl, refl, refl);
  security_reviewer = λ st s. (refl, refl, refl);
  verifier = λ st s. (refl, refl, refl);
}

suspended_pipeline_raises_example :
    ((why : String) × ((run_pipeline services cautious (λ path w. true) "/logs/a.json" none idle).0
        ≡ err (type_error why)))
    × ((run_pipeline services cautious (λ path w. true) "/logs/a.json" none idle).1
        ≡ (invoke services cautious (initial_state "/logs/a.json" none) idle).world)
unfolding invoke next merge ParseLog.parse_log lookup initial_state
suspended_pipeline_raises_example =
    suspended_pipeline_raises services cautious cautious-QuietAgents (λ path w. true) "/logs/a.json"
      none idle refl refl
