-- ===== src/Scripts/Endpoints.antt =====
-- scripts/check_endpoints.py: one small call of each endpoint. Its tracer is a stub that does nothing, so
-- the clients run as they do without one. The provider behind each client is a parameter, and so are the
-- text of an exception and of an amount with six decimals.
pub mod Priced
use auto_sentinel.Prelude.{ℕ, String, Bool, true, false, ◌&&◌, List, [], ◌∷◌, ◌++◌, if◌then◌else◌}
use auto_sentinel.Prelude.Int.{ℤ, pos, ltb_ℤ}
use auto_sentinel.Prelude.Strings.{◌+++◌}
use auto_sentinel.Effects.{Exc, currency_name, Result, ok, err, Exec, pure, lift, ◌>>=◌, try_with}
use auto_sentinel.Python.{Python}
use auto_sentinel.Python.Json.{integer}
use auto_sentinel.Llm.Protocol.{user, LlmRequest, LlmResponse, LlmClient}
use auto_sentinel.Llm.Client.{Platform, Process, ark_complete, glm_complete}
use auto_sentinel.Llm.Factory.{
  AgentModelConfig, Environment, Provider, ark, glm, BuiltClient, build_client_for_agent,
}

-- `AGENTS`
abbrev pub agents : List String
agents = "supervisor" ∷ "diagnosis" ∷ "security_reviewer" ∷ []

-- The `complete` of a client, by its class.
abbrev pub complete_of : Provider → Platform → LlmClient Process
complete_of ark platform = ark_complete platform
complete_of glm platform = glm_complete platform

-- The call of a probe, with `PING_MAX_TOKENS`.
abbrev pub ping : String → String → AgentModelConfig → LlmRequest
ping agent_name trace_id cfg = record {
  messages = (record { role = user; content = "ping" }) ∷ [];
  model = cfg.model;
  trace_id = trace_id;
  agent_name = agent_name;
  max_tokens = pos 16;
  temperature = cfg.temperature;
}

module _ (py : Python) (env : Environment) (platform : BuiltClient → Platform)
    (describe : Exc → String) (six_decimals : ℤ → String) where
  abbrev pub is_priced : LlmResponse → Bool
  is_priced resp = ltb_ℤ (pos 0) resp.cost

  abbrev pub shown : LlmResponse → AgentModelConfig → String
  shown resp cfg =
      "  endpoint="
      +++ cfg.model
      +++ "  latency="
      +++ py.show (integer resp.latency_ms)
      +++ "ms  tokens="
      +++ py.show (integer resp.prompt_tokens)
      +++ "+"
      +++ py.show (integer resp.completion_tokens)
      +++ "  cost="
      +++ six_decimals resp.cost
      +++ " "
      +++ currency_name resp.currency
      +++ (if is_priced resp then "" else "   ⚠\u{fe0f}  cost is 0 — price table miss!")

  abbrev pub called :
      String → String → BuiltClient × AgentModelConfig → Exec Process (Bool × String)
  called agent_name trace_id (client, cfg) = do
    resp ← complete_of client.provider (platform client) (ping agent_name trace_id cfg)
    pure (is_priced resp, shown resp cfg)

  -- `_probe`
  unfoldable pub probe : String → String → Exec Process (Bool × String)
  unfolding build_client_for_agent ◌+++◌
  probe agent_name trace_id = do
    built ← lift (build_client_for_agent env agent_name)
    called agent_name trace_id built

  -- Whether the probe counts, and what is printed of it.
  abbrev pub told : Result (Bool × String) → Exec Process (Bool × List String)
  told (ok (priced, line)) = pure (priced, "  status=OK 200" ∷ line ∷ "" ∷ [])
  told (err e) = pure (false, ("  status=FAIL — " +++ describe e) ∷ "" ∷ [])

  -- The loop of `main`: a failure does not end it.
  unfoldable pub probe_all : List String → String → Exec Process (Bool × List String)
  unfolding probe
  probe_all [] trace_id = pure (true, [])
  probe_all (agent ∷ rest) trace_id = do
    first ← try_with (probe agent trace_id) told
    others ← probe_all rest trace_id
    pure (first.0 && others.0, ("[" +++ agent +++ "]") ∷ (first.1 ++ others.1))

  -- `main`, its code and what it prints.
  unfoldable pub main : Exec Process String → Exec Process (ℕ × List String)
  unfolding probe_all
  main token_hex = do
    trace_id ← token_hex
    all ← probe_all agents trace_id
    pure (
      if all.0 then 0 else 1,
      ("Connectivity smoke test (tracer stubbed) — trace_id=" +++ trace_id +++ "\n")
          ∷ (all.1
              ++ (if all.0
                  then "All three Ark access points reachable + priced."
                  else "One or more endpoints FAILED — see above.")
                ∷ []),
    )
