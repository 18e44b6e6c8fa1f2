-- ===== src/Llm/Factory/Build.antt =====
-- The clients that `build_client_for_agent` of autosentinel/llm/factory.py builds, and its errors.
use auto_sentinel.Prelude.{
  String, ◌≡◌, ◌≢◌, refl, ◌⊎◌, inl, inr, Bool, true, false, Bool-cases, Option, none, some, [], ◌∷◌,
}
use auto_sentinel.Prelude.Strings.{◌==◌, eq_iff, eq_refl, nonempty}
use auto_sentinel.Prelude.Dict.{Dict, find}
use auto_sentinel.Effects.{Exc, configuration_error, Result, ok, err, bind}
use auto_sentinel.Python.Json.{Value}
use auto_sentinel.Llm.Factory.{
  AgentModelConfig, EndpointConfig, ModelRoutingConfig, validate, Environment, Provider, ark, glm,
  BuiltClient, path_or, validated, or_invalid, load_routing_config, build_concrete_client,
  api_key_of, endpoint_of, agent_of, build_client_for_agent,
}
use auto_sentinel.Llm.Factory.Registry.{Declares}
use auto_sentinel.Llm.Factory.Aliases.{alias_of_model}

true_ne_false : ◌≢◌ {A = Bool} true false
true_ne_false e = cc

-- The endpoint of an alias that declares a model is there.
find-Declares :
    (alias m : String) (eps : Dict EndpointConfig)
    → Declares alias m eps
    → (ep : EndpointConfig) × (find alias eps ≡ some ep)
find-Declares alias m [] h = absurd h
find-Declares alias m ((a, ep) ∷ rest) h = elim (Bool-cases (a == alias)) [
  | inl same ↦ (ep, rw same refl)
  | inr other ↦ elim h [
    | inl (e, listed) ↦ absurd (true_ne_false (rw (e, eq_refl alias) at other))
    | inr later ↦ let (found, k) = find-Declares alias m rest later in (found, rw other k)
  ]
]

module _ (env : Environment) where
  open env use {get_env, safe_load, repr}

  -- The error is a ConfigurationError, or what the YAML reader raised.
  abbrev pub Explained : Exc → Type 0
  Explained e =
      ((why : String) × (e ≡ configuration_error why))
      ⊎ ((path : String) × (safe_load path ≡ err e))

  abbrev pub provider_name : Provider → String
  provider_name ark = "ark"
  provider_name glm = "glm"

  -- The client comes from the endpoint of the agent's alias, which is named like the client's class,
  -- with the key that the environment holds for it.
  abbrev pub Built : String → Result (BuiltClient × AgentModelConfig) → Type 0
  Built name (err e) = Explained e
  Built name (ok (client, cfg)) =
      (c : ModelRoutingConfig) × (load_routing_config env ≡ ok c)
      × (find name c.agents ≡ some cfg)
      × ((ep : EndpointConfig) × (find cfg.endpoint_alias c.endpoints ≡ some ep)
          × (cfg.endpoint_alias ≡ provider_name client.provider)
          × (client.base_url ≡ ep.base_url)
          × (get_env ep.api_key_env ≡ some client.api_key)
          × (nonempty client.api_key ≡ true))

  Built-concrete :
      (name key : String) (c : ModelRoutingConfig) (cfg : AgentModelConfig) (ep : EndpointConfig)
      → load_routing_config env ≡ ok c
      → find name c.agents ≡ some cfg
      → find cfg.endpoint_alias c.endpoints ≡ some ep
      → get_env ep.api_key_env ≡ some key
      → nonempty key ≡ true
      → Built name (
          bind
            (build_concrete_client env cfg.endpoint_alias key ep.base_url)
            (λ client. ok (client, cfg)))
  unfolding build_concrete_client
  Built-concrete name key c cfg ep l a e k n = elim (Bool-cases (cfg.endpoint_alias == "ark")) [
    | inl first ↦ rw first (c, l, a, (ep, e, (eq_iff cfg.endpoint_alias "ark").0 first, refl, k, n))
    | inr other ↦ elim (Bool-cases (cfg.endpoint_alias == "glm")) [
      | inl second ↦
          rw (other, second)
            (c, l, a, (ep, e, (eq_iff cfg.endpoint_alias "glm").0 second, refl, k, n))
      | inr neither ↦ rw (other, neither) (inl (_, refl))
    ]
  ]

  Built-key :
      (name : String) (c : ModelRoutingConfig) (cfg : AgentModelConfig) (ep : EndpointConfig)
      (o : Option String)
      → load_routing_config env ≡ ok c
      → find name c.agents ≡ some cfg
      → find cfg.endpoint_alias c.endpoints ≡ some ep
      → get_env ep.api_key_env ≡ o
      → Built name (
          bind (api_key_of env name cfg ep o) λ key.
            bind
              (build_concrete_client env cfg.endpoint_alias key ep.base_url)
              (λ client. ok (client, cfg)))
  Built-key name c cfg ep none l a e k = inl (_, refl)
  Built-key name c cfg ep (some key) l a e k = elim (Bool-cases (nonempty key)) [
    | inl n ↦ rw n (Built-concrete name key c cfg ep l a e k n)
    | inr empty ↦ rw empty (inl (_, refl))
  ]

  -- A loaded configuration is one that the validator returned.
  abbrev Loaded : Result ModelRoutingConfig → Type 0
  Loaded (err e) = Explained e
  Loaded (ok c) = (read : ModelRoutingConfig) × (validate repr read ≡ ok c)

  Loaded-or_invalid :
      (path : String) (v : Value) (read : ModelRoutingConfig) (q : Result ModelRoutingConfig)
      → validate repr read ≡ q
      → Loaded (or_invalid env path v q)
  Loaded-or_invalid path v read (ok c) h = (read, h)
  Loaded-or_invalid path v read (err e) h = inl (_, refl)

  Loaded-validated :
      (path : String) (v : Value) (o : Option ModelRoutingConfig) → Loaded (validated env path v o)
  Loaded-validated path v none = inl (_, refl)
  Loaded-validated path v (some read) = Loaded-or_invalid path v read (validate repr read) refl

  Loaded-read :
      (path : String) (q : Result Value)
      → safe_load path ≡ q
      → Loaded (bind q (λ v. validated env path v (env.typed v)))
  Loaded-read path (ok v) h = Loaded-validated path v (env.typed v)
  Loaded-read path (err e) h = inr (path, h)

  Loaded-load_routing_config : Loaded (load_routing_config env)
  unfolding load_routing_config
  Loaded-load_routing_config =
      let path = path_or env (get_env "AUTOSENTINEL_MODEL_ROUTING_PATH") in
      elim (Bool-cases (env.exists path)) [
        | inl there ↦ rw there (Loaded-read path (safe_load path) refl)
        | inr missing ↦ rw missing (inl (_, refl))
      ]

  abbrev with_agent :
      String → ModelRoutingConfig → AgentModelConfig → Result (BuiltClient × AgentModelConfig)
  with_agent name c cfg = bind (endpoint_of env cfg (find cfg.endpoint_alias c.endpoints)) λ ep.
      bind (api_key_of env name cfg ep (get_env ep.api_key_env)) λ key.
        bind (build_concrete_client env cfg.endpoint_alias key ep.base_url)
          (λ client. ok (client, cfg))

  Built-agent :
      (name : String) (read c : ModelRoutingConfig) (o : Option AgentModelConfig)
      → load_routing_config env ≡ ok c
      → validate repr read ≡ ok c
      → find name c.agents ≡ o
      → Built name (bind (agent_of env name c o) (with_agent name c))
  Built-agent name read c none l v a = inl (_, refl)
  Built-agent name read c (some cfg) l v a =
      let declared = alias_of_model repr read c name cfg v a in
      let (ep, e) = find-Declares cfg.endpoint_alias cfg.model c.endpoints declared.0 in
      rw e (Built-key name c cfg ep (get_env ep.api_key_env) l a e refl)

  Built-Loaded :
      (name : String) (q : Result ModelRoutingConfig)
      → load_routing_config env ≡ q
      → Loaded q
      → Built name
          (bind q (λ c. bind (agent_of env name c (find name c.agents)) (with_agent name c)))
  Built-Loaded name (err e) l h = h
  Built-Loaded name (ok c) l (read, v) = Built-agent name read c (find name c.agents) l v refl

  -- A client that is returned belongs to the endpoint of the agent's alias: it has the endpoint's
  -- URL, a key from the environment that is not empty, and the class that the alias names. Otherwise
  -- the call ends in a ConfigurationError, or in what the YAML reader raised: the lookup of the
  -- endpoint never fails.
  pub build_client_for_agent-Built : (name : String) → Built name (build_client_for_agent env name)
  unfolding build_client_for_agent
  build_client_for_agent-Built name =
      Built-Loaded name (load_routing_config env) refl Loaded-load_routing_config
