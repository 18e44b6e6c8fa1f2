-- ===== src/Tests/Scripts.antt =====
-- The theorems on the commands of scripts: a repository with one new scenario, and a configuration whose
-- three agents share an endpoint.
use auto_sentinel.Prelude.{String, ◌≡◌, refl, ◌↔◌, none, some, List, [], ◌∷◌, if◌then◌else◌}
use auto_sentinel.Prelude.Strings.{◌==◌, is_one_of}
use auto_sentinel.Scripts.Authorship.{Git, Ran, printed, called_process_error, exit_code, main}
use auto_sentinel.Scripts.Authorship.Gate.{Admissible, main-Gate}
use auto_sentinel.Prelude.Int.{pos}
use auto_sentinel.Effects.{pure}
use auto_sentinel.Llm.Factory.{AgentModelConfig, ModelRoutingConfig, Environment}
use auto_sentinel.Scripts.Endpoints
use auto_sentinel.Scripts.Endpoints.Priced.{Priced, main-Priced}
use auto_sentinel.Tests.{python}
use auto_sentinel.Tests.Llm.{platform, process}
use auto_sentinel.Tests.Factory.{environment}

-- The base is known as `origin/main` only.
abbrev answer : String → List String → String → Ran
answer message rest command =
    if command == "rev-parse"
    then (if is_one_of "main^{commit}" rest then called_process_error else printed "1a2b")
    else if command == "merge-base"
    then printed "1a2b\n"
    else if command == "diff"
    then printed
        "README.md\nbenchmarks/scenarios/001_code_null.yaml\nbenchmarks/scenarios/old/x.yaml\n"
    else if is_one_of "--format=%B" rest
    then printed message
    else printed "9f8e\n"

abbrev git : String → Git
git message [] = called_process_error
git message (command ∷ rest) = answer message rest command

abbrev signed : Git
signed = git "Add a scenario\n\nScenario-Authored-By: Ada Lovelace\n"

main-Gate_example : (exit_code (main python signed [] none) ≡ 0) ↔ Admissible python signed "main"
main-Gate_example = main-Gate python signed [] none

passes : exit_code (main python signed [] none) ≡ 0
unfolding main is_one_of
passes = refl

fails_unsigned : exit_code (main python (git "Add a scenario") ("main" ∷ []) none) ≡ 1
unfolding main is_one_of
fails_unsigned = refl

abbrev agent : AgentModelConfig
agent = record {
  model = "ep-20260508052924-6zchc";
  temperature = pos 0;
  max_tokens = pos 512;
  endpoint_alias = "";
}

abbrev routing : ModelRoutingConfig
routing = record {
  agents = ("supervisor", agent) ∷ ("diagnosis", agent) ∷ ("security_reviewer", agent) ∷ [];
  endpoints =
      (
        "glm",
        record {
          base_url = "https://b";
          api_key_env = "KEY";
          models = "ep-20260508052924-6zchc" ∷ [];
        },
      )
      ∷ [];
}

abbrev probed : Environment
probed = record environment { typed = λ v. some routing }

main-Priced_example :
    Priced python probed
      (λ client. platform)
      (λ e. "error")
      (λ n. "0.000004")
      "0123456789abcdef0123456789abcdef"
      process
      (Endpoints.main python probed
        (λ client. platform)
        (λ e. "error")
        (λ n. "0.000004")
        (pure "0123456789abcdef0123456789abcdef")
        process)
main-Priced_example =
    main-Priced python probed (λ client. platform) (λ e. "error") (λ n. "0.000004")
      (pure "0123456789abcdef0123456789abcdef") "0123456789abcdef0123456789abcdef" process process
      refl
