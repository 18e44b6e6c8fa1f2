-- ===== src/Llm/Factory/Aliases.antt =====
-- What a routing configuration guarantees once autosentinel/llm/factory.py has validated it.
use auto_sentinel.Prelude.{
  String, ◌≡◌, refl, sym, subst, inl, inr, Bool-cases, Option-cases, some, [], ◌∷◌, ◌&&◌, arith,
}
use auto_sentinel.Prelude.Dict.{Dict, find, find-cases}
use auto_sentinel.Effects.{Result, ok, err, bind}
use auto_sentinel.Llm.Factory.{
  AgentModelConfig, ModelRoutingConfig, register, fill_aliases, every_agent_model_is_registered,
  validate, all_values, agent_valid, endpoint_valid,
}
use auto_sentinel.Llm.Factory.Registry.{Declares, Registry, Registry-register}

module _ (repr : String → String) where
  -- Every agent in the filled dict has the alias that its model is registered under.
  abbrev Filled : Dict String → Dict AgentModelConfig → Type 0
  Filled d filled =
      (name : String) (c : AgentModelConfig)
      → find name filled ≡ some c
      → find c.model d ≡ some c.endpoint_alias

  Filled-cons :
      (d : Dict String) (n alias : String) (cfg : AgentModelConfig) (filled : Dict AgentModelConfig)
      → find cfg.model d ≡ some alias
      → Filled d filled
      → Filled d ((n, record cfg { endpoint_alias = alias }) ∷ filled)
  Filled-cons d n alias cfg filled h rest name c k =
      let head : AgentModelConfig = record cfg { endpoint_alias = alias } in
      elim (find-cases name n head c filled k) [
        | inl (same, e) ↦
            subst (λ (z : AgentModelConfig). find z.model d ≡ some z.endpoint_alias) e h
        | inr later ↦ rest name c later
      ]

  Filled-fill_aliases :
      (d : Dict String) (agents filled : Dict AgentModelConfig)
      → fill_aliases repr d agents ≡ ok filled
      → Filled d filled
  unfolding fill_aliases
  Filled-fill_aliases d [] filled h = λ name c k. absurd (ground arith)
  Filled-fill_aliases d ((n, cfg) ∷ rest) filled h = elim (Option-cases (find cfg.model d)) [
    | inl absent ↦ absurd (ground arith)
    | inr (alias, e) ↦
        step alias e (fill_aliases repr d rest) (rw (e, fill_aliases) at h)
          (Filled-fill_aliases d rest)
  ]
    where
      step :
          (alias : String)
          → find cfg.model d ≡ some alias
          → (q : Result (Dict AgentModelConfig))
          → bind q (λ more. ok ((n, record cfg { endpoint_alias = alias }) ∷ more)) ≡ ok filled
          → ((more : Dict AgentModelConfig) → q ≡ ok more → Filled d more)
          → Filled d filled
      step alias e (err x) k later = absurd (cc)
      step alias e (ok more) k later =
          let same : (n, record cfg { endpoint_alias = alias }) ∷ more ≡ filled = cc in
          subst (λ (z : Dict AgentModelConfig). Filled d z) same
            (Filled-cons d n alias cfg more e (later more refl))

  -- What the validator has seen of a configuration that it returns.
  record Validated (c c' : ModelRoutingConfig) : Type 0 where
    all_models : Dict String
    registry : Registry repr c.endpoints [] all_models
    filled : Filled all_models c'.agents
    endpoints : c'.endpoints ≡ c.endpoints

  Validated-registered :
      (c c' : ModelRoutingConfig) (q : Result (Dict String))
      → register repr c.endpoints [] ≡ q
      → bind q (λ all_models.
        bind (fill_aliases repr all_models c.agents) (λ filled. ok (record c { agents = filled })))
        ≡ ok c'
      → Validated c c'
  Validated-registered c c' (err x) e h = absurd (cc)
  Validated-registered c c' (ok all_models) e h =
      step (fill_aliases repr all_models c.agents) refl h
    where
      step :
          (r : Result (Dict AgentModelConfig))
          → fill_aliases repr all_models c.agents ≡ r
          → bind r (λ filled. ok (record c { agents = filled })) ≡ ok c'
          → Validated c c'
      step (err x) f k = absurd (cc)
      step (ok filled) f k =
          let same : record c { agents = filled } ≡ c' = cc in
          subst (λ (z : ModelRoutingConfig). Validated c z) same
            (record {
              all_models = all_models;
              registry = Registry-register repr c.endpoints [] all_models e;
              filled = Filled-fill_aliases all_models c.agents filled f;
              endpoints = refl;
            })

  Validated-validate : (c c' : ModelRoutingConfig) → validate repr c ≡ ok c' → Validated c c'
  unfolding validate every_agent_model_is_registered
  Validated-validate c c' h =
      elim (Bool-cases (all_values agent_valid c.agents && all_values endpoint_valid c.endpoints)) [
        | inl fits ↦ Validated-registered c c' (register repr c.endpoints []) refl (rw fits at h)
        | inr other ↦ absurd (ground arith)
      ]

  -- In a configuration that the validator returns, the endpoint of each agent's alias declares the
  -- agent's model, and the endpoints are those of the file.
  pub alias_of_model :
      (c c' : ModelRoutingConfig) (name : String) (cfg : AgentModelConfig)
      → validate repr c ≡ ok c'
      → find name c'.agents ≡ some cfg
      → Declares cfg.endpoint_alias cfg.model c'.endpoints × (c'.endpoints ≡ c.endpoints)
  alias_of_model c c' name cfg h k =
      let v = Validated-validate c c' h in
      elim (v.registry.source cfg.model cfg.endpoint_alias (v.filled name cfg k)) [
        | inl old ↦ absurd (cc)
        | inr declared ↦ (rw v.endpoints declared, v.endpoints)
      ]

  -- No other endpoint declares the model of an agent.
  pub alias_is_unique :
      (c c' : ModelRoutingConfig) (name alias : String) (cfg : AgentModelConfig)
      → validate repr c ≡ ok c'
      → find name c'.agents ≡ some cfg
      → Declares alias cfg.model c'.endpoints
      → alias ≡ cfg.endpoint_alias
  alias_is_unique c c' name alias cfg h k declared =
      let v = Validated-validate c c' h in
      let held : find cfg.model v.all_models ≡ some cfg.endpoint_alias = v.filled name cfg k in
      let same : find cfg.model v.all_models ≡ some alias =
        v.registry.added alias cfg.model (rw (sym v.endpoints) declared) in
      cc
