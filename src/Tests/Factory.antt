-- ===== src/Tests/Factory.antt =====
-- The theorems on autosentinel/llm/factory.py at a concrete configuration.
use auto_sentinel.Prelude.{◌≡◌, refl, true, none, some, [], ◌∷◌, if◌then◌else◌}
use auto_sentinel.Prelude.Int.{pos}
use auto_sentinel.Prelude.Strings.{◌==◌}
use auto_sentinel.Effects.{ok}
use auto_sentinel.Python.Json.{null}
use auto_sentinel.Llm.Factory.{
  AgentModelConfig, ModelRoutingConfig, Environment, ark, validate, register, register_models,
  fill_aliases, every_agent_model_is_registered, build_client_for_agent,
}
use auto_sentinel.Llm.Factory.Build.{Built, build_client_for_agent-Built}

abbrev diagnosis : AgentModelConfig
diagnosis = record { model = "m1"; temperature = pos 0; max_tokens = pos 100; endpoint_alias = "" }

abbrev config : ModelRoutingConfig
config = record {
  agents = ("diagnosis", diagnosis) ∷ [];
  endpoints =
      ("glm", record { base_url = "https://a"; api_key_env = "KEY"; models = "m2" ∷ [] })
      ∷ ("ark", record { base_url = "https://b"; api_key_env = "KEY"; models = "m1" ∷ [] })
      ∷ [];
}

abbrev filled_diagnosis : AgentModelConfig
filled_diagnosis = record diagnosis { endpoint_alias = "ark" }

abbrev filled : ModelRoutingConfig
filled = record config { agents = ("diagnosis", filled_diagnosis) ∷ [] }

abbrev pub environment : Environment
environment = record {
  get_env = λ name. if name == "KEY" then some "secret" else none;
  default_path = "config/model_routing.yaml";
  exists = λ path. true;
  safe_load = λ path. ok null;
  typed = λ v. some config;
  explain = λ v. "";
  repr = λ s. s;
  repr_sorted = λ names. "";
}

build_client_for_agent-Built_example :
    Built environment "diagnosis" (build_client_for_agent environment "diagnosis")
build_client_for_agent-Built_example = build_client_for_agent-Built environment "diagnosis"

-- The client is one of Ark, with the key of the environment.
built :
    build_client_for_agent environment "diagnosis"
    ≡ ok (record { provider = ark; api_key = "secret"; base_url = "https://b" }, filled_diagnosis)
unfolding build_client_for_agent validate every_agent_model_is_registered register register_models
    fill_aliases
built = refl
