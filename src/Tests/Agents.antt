-- ===== src/Tests/Agents.antt =====
-- The theorems on autosentinel/agents and autosentinel/nodes at concrete states.
use auto_sentinel.Prelude.{String, ◌≡◌, refl, false, none, some, [], ◌∷◌}
use auto_sentinel.Prelude.Strings.{is_one_of, ◌+++◌, strip}
use auto_sentinel.Agents.Parsing.{strip_markdown_fence}
use auto_sentinel.Agents.Parsing.RoundTrip.{fence, strip_markdown_fence-fence}
use auto_sentinel.Effects.{Result, ok, err}
use auto_sentinel.Python.Json.{lookup}
use auto_sentinel.Llm.Protocol.{LlmRequest, LlmResponse, user}
use auto_sentinel.State.{AgentState, Update, merge}
use auto_sentinel.Agents.Normalizer.{wrapped, wrap, wrapper, normalize_fix_artifact}
use auto_sentinel.Agents.Normalizer.Outcomes.{IsNormal, normalize-IsNormal}
use auto_sentinel.Agents.Producer.{call, complete_script_artifact}
use auto_sentinel.Agents.Producer.Attempts.{Produced, complete_script-Produced}
use auto_sentinel.Agents.Supervisor
use auto_sentinel.Agents.Supervisor.Routing.{IsRoutedState, run-IsRoutedState}
use auto_sentinel.Agents.SecurityReviewer
use auto_sentinel.Agents.SecurityReviewer.Verdict.{call_model, safe_needs_model}
use auto_sentinel.Agents.Replies.Choice.{Says}
use auto_sentinel.Agents.SecurityReviewer.{is_denied, valid_verdicts}
use auto_sentinel.Agents.Verifier
use auto_sentinel.Agents.Verifier.Containers.{Contained, running-run}
use auto_sentinel.Nodes.ParseLog.{parse_text}
use auto_sentinel.Nodes.ParseLog.Outcome.{Fits, parse_text-Fits}
use auto_sentinel.Tests.{
  World, idle, python, model, config, docker, running, docker-RunsContainers, fresh,
}

abbrev with_fix : String → AgentState
with_fix fix = record fresh { fix_artifact = some fix }

abbrev wipe : String
wipe = "import os\nos.system('rm -rf /')"

abbrev update_of : Result Update → Update
update_of (ok u) = u
update_of (err e) = []

safe_needs_model_example :
    (is_denied python "print(1)" ≡ false)
    × ((x : LlmResponse) × ((call_model python (model "") config (with_fix "print(1)") idle).0
          ≡ ok x)
        × Says python "verdict" valid_verdicts "CAUTION" x.content "SAFE")
unfolding SecurityReviewer.run merge SecurityReviewer.parse_verdict lookup is_denied is_one_of
safe_needs_model_example = safe_needs_model python (model "") config (with_fix "print(1)") idle refl

abbrev request : LlmRequest
request = record {
  messages = (record { role = user; content = "fix it" }) ∷ [];
  model = "glm-4.7";
  trace_id = "0123456789abcdef0123456789abcdef";
  agent_name = "code_fixer";
  max_tokens = config.max_tokens;
  temperature = config.temperature;
}

complete_script-Produced_example :
    Produced python
      (model "return 1")
      (λ (w : World). w.calls)
      (λ r w. refl)
      request
      0
      (call python (model "return 1") request idle)
      (complete_script_artifact python (model "return 1") request idle)
complete_script-Produced_example =
    complete_script-Produced python (model "return 1") (λ (w : World). w.calls) (λ r w. refl)
      request idle

normalize-IsNormal_example : IsNormal python "return 1" (normalize_fix_artifact python "return 1")
normalize-IsNormal_example = normalize-IsNormal python "return 1"

wrapped_fragment :
    normalize_fix_artifact python "return 1"
    ≡ ok (record { code = wrap python "return 1"; outcome = wrapped; reason = none })
unfolding normalize_fix_artifact wrapper ◌+++◌
wrapped_fragment = refl

running-run_example :
    Contained python docker running docker-RunsContainers
      (running idle)
      (Verifier.run python docker (with_fix "print(1)") idle).1
running-run_example =
    running-run python docker running docker-RunsContainers (with_fix "print(1)") idle

parse_text-Fits_example :
    Fits python "/logs/a.json" fresh (ok "log") (parse_text python "/logs/a.json" (ok "log"))
parse_text-Fits_example = parse_text-Fits python "/logs/a.json" fresh (ok "log")

abbrev reviewed : AgentState
reviewed = record fresh { error_category = some "INFRA"; security_verdict = some "CAUTION" }

run-IsRoutedState_example :
    IsRoutedState python
      (model "")
      config
      fresh
      idle
      (merge (update_of (Supervisor.run python (model "") config fresh idle).0) fresh)
unfolding Supervisor.run Supervisor.parse_routing lookup is_one_of
run-IsRoutedState_example =
    run-IsRoutedState python (model "") config fresh idle
      (update_of (Supervisor.run python (model "") config fresh idle).0) refl

strip_markdown_fence-fence_example :
    strip_markdown_fence (" \n" +++ fence "python" "```\nprint(1)\n```\n" +++ "\n")
    ≡ strip "```\nprint(1)\n```\n"
strip_markdown_fence-fence_example =
    strip_markdown_fence-fence "python" "```\nprint(1)\n```\n" " \n" "\n" refl refl refl
