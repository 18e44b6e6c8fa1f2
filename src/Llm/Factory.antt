-- ===== src/Llm/Factory.antt =====
-- autosentinel/llm/factory.py: the routing configuration, and the client of each agent. The YAML
-- reader, pydantic's reading of the types, and the environment are parameters. A temperature is an
-- integer of thousandths.
pub mod Registry
pub mod Aliases
pub mod Build
use auto_sentinel.Prelude.{
  String, Bool, true, false, ◌&&◌, Option, none, some, List, [], ◌∷◌, if◌then◌else◌,
}
use auto_sentinel.Prelude.Int.{ℤ, pos, leb_ℤ}
use auto_sentinel.Prelude.Strings.{◌==◌, ◌+++◌, nonempty}
use auto_sentinel.Prelude.Dict.{Dict, find, keys}
use auto_sentinel.Effects.{value_error, configuration_error, key_error, Result, ok, err, bind}
use auto_sentinel.Python.Json.{Value}

pub record AgentModelConfig : Type 0 where
  pub model : String
  pub temperature : ℤ
  pub max_tokens : ℤ
  pub endpoint_alias : String

pub record EndpointConfig : Type 0 where
  pub base_url : String
  pub api_key_env : String
  pub models : List String

pub record ModelRoutingConfig : Type 0 where
  pub agents : Dict AgentModelConfig
  pub endpoints : Dict EndpointConfig

-- The bounds of the fields.
abbrev pub agent_valid : AgentModelConfig → Bool
agent_valid c =
    leb_ℤ (pos 0) c.temperature
    && leb_ℤ c.temperature (pos 2000)
    && leb_ℤ (pos 1) c.max_tokens
    && leb_ℤ c.max_tokens (pos 32768)

abbrev pub has_models : List String → Bool
has_models [] = false
has_models (m ∷ ms) = true

abbrev pub endpoint_valid : EndpointConfig → Bool
endpoint_valid e = nonempty e.api_key_env && has_models e.models

abbrev pub all_values : {A : Type 0} → (A → Bool) → Dict A → Bool
all_values test [] = true
all_values test ((k, v) ∷ rest) = test v && all_values test rest

module _ (repr : String → String) where
  -- The inner loop over an endpoint's models: `all_models` maps a model to its endpoint.
  unfoldable pub register_models : String → List String → Dict String → Result (Dict String)
  register_models alias [] all_models = ok all_models
  register_models alias (m ∷ ms) all_models = elim (find m all_models) [
    | some other ↦ err (
        value_error (
          "model "
          +++ repr m
          +++ " declared under multiple endpoints ("
          +++ repr other
          +++ " and "
          +++ repr alias
          +++ ")"))
    | none ↦ register_models alias ms ((m, alias) ∷ all_models)
  ]

  -- The outer loop over the endpoints.
  unfoldable pub register : Dict EndpointConfig → Dict String → Result (Dict String)
  register [] all_models = ok all_models
  register ((alias, ep) ∷ rest) all_models =
      bind (register_models alias ep.models all_models) (register rest)

  -- The loop over the agents, which fills in each alias.
  unfoldable pub fill_aliases : Dict String → Dict AgentModelConfig → Result (Dict AgentModelConfig)
  fill_aliases all_models [] = ok []
  fill_aliases all_models ((name, cfg) ∷ rest) = elim (find cfg.model all_models) [
    | none ↦ err (
        value_error (
          "agent "
          +++ repr name
          +++ " uses model "
          +++ repr cfg.model
          +++ " not declared under any endpoint"))
    | some alias ↦
        bind (fill_aliases all_models rest)
          λ filled. ok ((name, record cfg { endpoint_alias = alias }) ∷ filled)
  ]

  -- `ModelRoutingConfig._every_agent_model_is_registered`
  unfoldable pub every_agent_model_is_registered : ModelRoutingConfig → Result ModelRoutingConfig
  every_agent_model_is_registered c = bind (register c.endpoints []) λ all_models.
      bind (fill_aliases all_models c.agents) λ filled. ok (record c { agents = filled })

  -- The checks of `ModelRoutingConfig.model_validate` behind the types.
  unfoldable pub validate : ModelRoutingConfig → Result ModelRoutingConfig
  unfolding every_agent_model_is_registered
  validate c =
      if all_values agent_valid c.agents && all_values endpoint_valid c.endpoints
      then every_agent_model_is_registered c
      else err (value_error "ModelRoutingConfig")

-- What the factory uses and does not implement.
pub record Environment : Type 0 where
  -- `os.environ.get`
  pub get_env : String → Option String
  pub default_path : String
  pub exists : String → Bool
  -- The opened file, through `yaml.safe_load`.
  pub safe_load : String → Result Value
  -- The types that the models declare, before any bound; None where they do not fit.
  pub typed : Value → Option ModelRoutingConfig
  -- `str(e)` of a ValidationError.
  pub explain : Value → String
  -- `repr` of a text, and of the sorted list of some texts.
  pub repr : String → String
  pub repr_sorted : List String → String

pub data Provider : Type 0 where
  ark glm : Provider

-- A client, by its class and the arguments it is built with.
pub record BuiltClient : Type 0 where
  pub provider : Provider
  pub api_key : String
  pub base_url : String

module _ (env : Environment) where
  open env use {get_env, default_path, exists, safe_load, typed, explain, repr, repr_sorted}

  abbrev pub invalid : String → Value → Result ModelRoutingConfig
  invalid path loaded = err (
      configuration_error ("invalid model routing config at " +++ path +++ ": " +++ explain loaded))

  -- `except ValidationError`: pydantic raises one for a type, for a bound and for the validator.
  abbrev pub or_invalid : String → Value → Result ModelRoutingConfig → Result ModelRoutingConfig
  or_invalid path loaded (ok c) = ok c
  or_invalid path loaded (err e) = invalid path loaded

  abbrev pub validated : String → Value → Option ModelRoutingConfig → Result ModelRoutingConfig
  validated path loaded none = invalid path loaded
  validated path loaded (some c) = or_invalid path loaded (validate repr c)

  abbrev pub path_or : Option String → String
  path_or none = default_path
  path_or (some p) = p

  -- `_load_routing_config`
  unfoldable pub load_routing_config : Result ModelRoutingConfig
  unfolding validate
  load_routing_config =
      let path = path_or (get_env "AUTOSENTINEL_MODEL_ROUTING_PATH") in
      if exists path
      then bind (safe_load path) (λ loaded. validated path loaded (typed loaded))
      else err (configuration_error ("model routing config not found at " +++ path))

  -- `_build_concrete_client`
  unfoldable pub build_concrete_client : String → String → String → Result BuiltClient
  build_concrete_client alias api_key base_url =
      if alias == "ark"
      then ok (record { provider = ark; api_key = api_key; base_url = base_url })
      else if alias == "glm"
      then ok (record { provider = glm; api_key = api_key; base_url = base_url })
      else err (
          configuration_error (
            "no concrete LLM client mapped for endpoint alias "
            +++ repr alias
            +++ " (known: 'ark', 'glm')"))

  abbrev pub key_missing : String → AgentModelConfig → EndpointConfig → Result String
  key_missing name cfg ep = err (
      configuration_error (
        "API key env var "
        +++ repr ep.api_key_env
        +++ " is not set (required for agent "
        +++ repr name
        +++ " → endpoint "
        +++ repr cfg.endpoint_alias
        +++ ")"))

  -- `os.environ.get(...)`, refused where it is absent or empty.
  abbrev pub api_key_of : String → AgentModelConfig → EndpointConfig → Option String → Result String
  api_key_of name cfg ep none = key_missing name cfg ep
  api_key_of name cfg ep (some key) = if nonempty key then ok key else key_missing name cfg ep

  -- `cfg.endpoints[agent_cfg.endpoint_alias]`
  abbrev pub endpoint_of : AgentModelConfig → Option EndpointConfig → Result EndpointConfig
  endpoint_of cfg none = err (key_error cfg.endpoint_alias)
  endpoint_of cfg (some ep) = ok ep

  abbrev pub agent_of :
      String → ModelRoutingConfig → Option AgentModelConfig → Result AgentModelConfig
  agent_of name c none = err (
      configuration_error (
        "agent "
        +++ repr name
        +++ " not found in model routing config (known: "
        +++ repr_sorted (keys c.agents)
        +++ ")"))
  agent_of name c (some cfg) = ok cfg

  -- `build_client_for_agent`
  unfoldable pub build_client_for_agent : String → Result (BuiltClient × AgentModelConfig)
  unfolding load_routing_config build_concrete_client
  build_client_for_agent name = bind load_routing_config λ c.
      bind (agent_of name c (find name c.agents)) λ cfg.
        bind (endpoint_of cfg (find cfg.endpoint_alias c.endpoints)) λ ep.
          bind (api_key_of name cfg ep (get_env ep.api_key_env)) λ api_key.
            bind (build_concrete_client cfg.endpoint_alias api_key ep.base_url)
              λ client. ok (client, cfg)
