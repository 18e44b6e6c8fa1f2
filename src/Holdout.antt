-- ===== src/Holdout.antt =====
-- scripts/run_holdout_eval.py: the supervisor on incidents with a known category. The YAML file's
-- incidents are given; loading the environment's file and the printing are left out.
pub mod Baseline
use Prim.Native.Char.{code}
use auto_sentinel.Prelude.{
  ℕ, ◌+◌, nat_eq, not, ◌&&◌, String, Bool, true, false, Option, none, some, List, [], ◌∷◌,
  if◌then◌else◌,
}
use auto_sentinel.Prelude.Strings.{◌==◌, ◌+++◌, nonempty, prefix}
use auto_sentinel.Prelude.Dict.{Dict, find}
use auto_sentinel.Effects.{key_error, runtime_error, Result, ok, err, bind, Exec, pure, lift, ◌>>=◌}
use auto_sentinel.Llm.Factory.{
  AgentModelConfig, EndpointConfig, ModelRoutingConfig, Environment, BuiltClient, ark,
  load_routing_config,
}
use auto_sentinel.State.{AgentState, raw, Update, initial_state, merge}
use auto_sentinel.Nodes.Report.Sidecar.{truthy_or}

-- An entry of `data["incidents"]`.
pub record HoldoutIncident : Type 0 where
  pub id : String
  pub error_log : String
  pub expected_category : String

-- `CATEGORY_TO_SPECIALIST`
abbrev pub category_to_specialist : Dict String
category_to_specialist =
    ("CODE", "code_fixer")
    ∷ ("SECURITY", "code_fixer")
    ∷ ("INFRA", "infra_sre")
    ∷ ("CONFIG", "infra_sre")
    ∷ []

-- `d[key]`
abbrev pub item : {A : Type 0} → String → Option A → Result A
item key none = err (key_error key)
item key (some v) = ok v

-- `_make_state`, with the id that is drawn.
abbrev pub make_state : String → String → AgentState
make_state error_log id = record (initial_state "holdout_eval" (some id)) {
  analysis_result = some (raw error_log);
}

-- `(id, expected, actual, ok, rationale)`
pub record Outcome : Type 0 where
  pub id : String
  pub expected : String
  pub actual : String
  pub is_hit : Bool
  pub rationale : String

-- The last lines of the loop's body: what the agent has returned, and the specialist expected.
abbrev pub outcome_of : HoldoutIncident → AgentState → String → Outcome
outcome_of x result expected =
    let actual = truthy_or result.specialist "(none)" in
    record {
      id = x.id;
      expected = expected;
      actual = actual;
      is_hit = actual == expected;
      rationale = prefix 120 (truthy_or result.routing_decision "");
    }

module _ {S : Type 0} (token_hex : Exec S String) (agent : AgentState → Exec S Update) where
  -- The body of the loop.
  unfoldable pub evaluate : HoldoutIncident → Exec S Outcome
  evaluate x = do
    id ← token_hex
    result ← agent (make_state x.error_log id)
    expected ← lift (item x.expected_category (find x.expected_category category_to_specialist))
    pure (outcome_of x (merge result (make_state x.error_log id)) expected)

  -- The loop of `main`: an exception ends it.
  unfoldable pub evaluate_all : List HoldoutIncident → Exec S (List Outcome)
  unfolding evaluate
  evaluate_all [] = pure []
  evaluate_all (x ∷ xs) = do first ← evaluate x; rest ← evaluate_all xs; pure (first ∷ rest)

-- `hits`
abbrev pub hits : List Outcome → ℕ
hits [] = 0
hits (o ∷ os) = (if o.is_hit then 1 else 0) + hits os

-- `_build_real_supervisor`: the key of the client, with the text of the RuntimeError.
abbrev pub key_of : EndpointConfig → Option String → Result String
key_of ep key =
    let text = truthy_or key "" in
    if nonempty text
    then ok text
    else err (
        runtime_error
          (ep.api_key_env +++ " not set in environment. Fill it in .env before running."))

-- `s.rstrip("/")`
unfoldable pub rstrip_slash : String → String
rstrip_slash String.[] = ""
rstrip_slash (String.◌∷◌ c s) =
    let rest = rstrip_slash s in
    if nat_eq (code c) b'/' && not (nonempty rest) then "" else String.◌∷◌ c rest

-- `_build_real_supervisor`: always an `ArkLLMClient`.
unfoldable pub build_real_supervisor : Environment → Result (BuiltClient × AgentModelConfig)
unfolding load_routing_config rstrip_slash
build_real_supervisor env = bind (load_routing_config env) λ c.
    bind (item "supervisor" (find "supervisor" c.agents)) λ cfg.
      bind (item cfg.endpoint_alias (find cfg.endpoint_alias c.endpoints)) λ ep.
        bind (key_of ep (env.get_env ep.api_key_env)) λ api_key.
          ok
            (record { provider = ark; api_key = api_key; base_url = rstrip_slash ep.base_url }, cfg)
