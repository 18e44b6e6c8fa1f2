-- ===== src/Scripts/Endpoints/Priced.antt =====
-- The exit code of scripts/check_endpoints.py.
use auto_sentinel.Prelude.{
  ℕ, String, ◌++◌, ◌≡◌, ◌≢◌, refl, sym, ap, ◌∙◌, ◌↔◌, Bool, true, false, ◌&&◌, List, [], ◌∷◌,
  if◌then◌else◌, arith,
}
use auto_sentinel.Prelude.Strings.{◌+++◌}
use auto_sentinel.Prelude.Strings.Affixes.{and-split}
use auto_sentinel.Prelude.Int.{ℤ, ltb_ℤ, pos}
use auto_sentinel.Effects.{Exc, Result, ok, err, continue, Exec}
use auto_sentinel.Python.{Python}
use auto_sentinel.Llm.Protocol.{LlmResponse}
use auto_sentinel.Llm.Client.{Platform, Process}
use auto_sentinel.Llm.Factory.{AgentModelConfig, Environment, BuiltClient, build_client_for_agent}
use auto_sentinel.Scripts.Endpoints.{
  agents, complete_of, ping, is_priced, shown, called, told, probe, probe_all, main,
}

false_ne_true : ◌≢◌ {A = Bool} false true
false_ne_true e = cc

err_ne_ok' : {A : Type 0} (e : Exc) (a : A) → ◌≢◌ {A = Result A} (err e) (ok a)
err_ne_ok' e a h = cc

err_ne_ok :
    {A : Type 0} (e : Exc) (a : A) (w w' : Process)
    → ◌≢◌ {A = Result A × Process} (err e, w) (ok a, w')
err_ne_ok e a w w' h = err_ne_ok' e a (ap (λ x. x.0) h)

ok_path : {A : Type 0} (a b : A) → ◌≡◌ {A = Result A} (ok a) (ok b) → a ≡ b
ok_path a b h = cc

answer_path :
    {A : Type 0} (a b : A) (w w' : Process)
    → ◌≡◌ {A = Result A × Process} (ok a, w) (ok b, w')
    → (a ≡ b) × (w ≡ w')
answer_path a b w w' h = (ok_path a b (ap (λ x. x.0) h), ap (λ x. x.1) h)

module _ (py : Python) (env : Environment) (platform : BuiltClient → Platform)
    (describe : Exc → String) (six_decimals : ℤ → String) where
  -- The agent's client is built, and answers the probe for a price.
  abbrev pub Answers : String → String → Process → Process → Type 0
  Answers agent trace_id w w' =
      (client : BuiltClient) × (cfg : AgentModelConfig) × (resp : LlmResponse)
      × (build_client_for_agent env agent ≡ ok (client, cfg))
      × (complete_of client.provider (platform client) (ping agent trace_id cfg) w ≡ (ok resp, w'))
      × (ltb_ℤ (pos 0) resp.cost ≡ true)

  -- One agent after the other, each in the world that the one before it has left.
  abbrev pub AllAnswer : List String → String → Process → Type 0
  AllAnswer [] trace_id w = Unit
  AllAnswer (agent ∷ rest) trace_id w =
      (w' : Process) × Answers agent trace_id w w' × AllAnswer rest trace_id w'

  abbrev Tried : Type 0
  Tried = Result (Bool × List String) × Process

  abbrev call_of :
      String → String → Process → BuiltClient × AgentModelConfig → Result LlmResponse × Process
  call_of agent trace_id w (client, cfg) =
      complete_of client.provider (platform client) (ping agent trace_id cfg) w

  -- Two accounts of the same call.
  same_call :
      (agent trace_id : String) (w : Process) (x y : BuiltClient × AgentModelConfig)
      (p q : Result LlmResponse × Process)
      → build_client_for_agent env agent ≡ ok x
      → build_client_for_agent env agent ≡ ok y
      → call_of agent trace_id w x ≡ p
      → call_of agent trace_id w y ≡ q
      → p ≡ q
  same_call agent trace_id w x y p q h h' k k' =
      let e : x ≡ y = ok_path x y (sym h ∙ h') in sym k ∙ ap (call_of agent trace_id w) e ∙ k'

  -- A probe has ended, and counts exactly if the agent has answered for a price.
  abbrev Probed : String → String → Process → Tried → Type 0
  Probed agent trace_id w (err e, w1) = ⊥
  Probed agent trace_id w (ok (b, lines), w1) =
      (b ≡ true → Answers agent trace_id w w1)
      × ((w' : Process) → Answers agent trace_id w w' → (b ≡ true) × (w1 ≡ w'))

  abbrev told_of : Result (Bool × String) × Process → Tried
  told_of (r, w) = told py env platform describe six_decimals r w

  Probed-called :
      (agent trace_id : String) (w : Process) (client : BuiltClient) (cfg : AgentModelConfig)
      (q : Result LlmResponse × Process)
      → build_client_for_agent env agent ≡ ok (client, cfg)
      → complete_of client.provider (platform client) (ping agent trace_id cfg) w ≡ q
      → Probed agent trace_id w (
          told_of (
            continue q (λ resp w'. (
              ok (
                is_priced py env platform describe six_decimals resp,
                shown py env platform describe six_decimals resp cfg,
              ),
              w',
            ))))
  Probed-called agent trace_id w client cfg (err e, w1) h k = (
    λ p. absurd (false_ne_true p),
    λ w' (client', cfg', resp', h', k', p'). absurd (
        err_ne_ok e resp' w1 w'
          (same_call agent trace_id w (client, cfg) (client', cfg') _ _ h h' k k')),
  )
  Probed-called agent trace_id w client cfg (ok resp, w1) h k = (
    λ p. (client, cfg, resp, h, k, p),
    λ w' (client', cfg', resp', h', k', p').
        let same = same_call agent trace_id w (client, cfg) (client', cfg') _ _ h h' k k' in
        let (r, t) = answer_path resp resp' w1 w' same in (rw (sym r) at p', t),
  )

  Probed-built :
      (agent trace_id : String) (w : Process) (q : Result (BuiltClient × AgentModelConfig))
      → build_client_for_agent env agent ≡ q
      → Probed agent trace_id w
          (told_of (continue (q, w) (called py env platform describe six_decimals agent trace_id)))
  Probed-built agent trace_id w (err e) h = (
    λ p. absurd (false_ne_true p),
    λ w' (client', cfg', resp', h', k', p'). absurd (err_ne_ok' e (client', cfg') (sym h ∙ h')),
  )
  Probed-built agent trace_id w (ok (client, cfg)) h =
      Probed-called agent trace_id w client cfg
        (complete_of client.provider (platform client) (ping agent trace_id cfg) w) h refl

  Probed-try :
      (agent trace_id : String) (w : Process)
      → Probed agent trace_id w
          (told_of (probe py env platform describe six_decimals agent trace_id w))
  unfolding probe
  Probed-try agent trace_id w =
      Probed-built agent trace_id w (build_client_for_agent env agent) refl

  abbrev loop : List String → String → Process → Tried
  loop = probe_all py env platform describe six_decimals

  -- The loop ends, and its flag stays true exactly if all agents answer.
  abbrev ProbedAll : List String → String → Process → Tried → Type 0
  ProbedAll names trace_id w (err e, w1) = ⊥
  ProbedAll names trace_id w (ok (b, lines), w1) = (b ≡ true) ↔ AllAnswer names trace_id w

  ProbedAll-cons :
      (agent : String) (rest : List String) (trace_id : String) (w w1 : Process) (b : Bool)
      (lines : List String) (q : Tried)
      → Probed agent trace_id w (ok (b, lines), w1)
      → ProbedAll rest trace_id w1 q
      → ProbedAll (agent ∷ rest) trace_id w (
          continue q
            (λ others w'. (ok (b && others.0, ("[" +++ agent +++ "]") ∷ (lines ++ others.1)), w')))
  ProbedAll-cons agent rest trace_id w w1 b lines (err e, w2) (f, g) h = absurd h
  ProbedAll-cons agent rest trace_id w w1 b lines (ok (c, more), w2) (f, g) (to, from) = (
    λ both. let (p, q) = and-split b c both in (w1, f p, to q),
    λ (w', answers, all). let (p, e) = g w' answers in rw (p, from (rw (sym e) at all)) refl,
  )

  ProbedAll-first :
      (agent : String) (rest : List String) (trace_id : String) (w : Process) (q : Tried)
      → Probed agent trace_id w q
      → ((w1 : Process) → ProbedAll rest trace_id w1 (loop rest trace_id w1))
      → ProbedAll (agent ∷ rest) trace_id w (
          continue q λ first w1. continue (loop rest trace_id w1) λ others w'.
            (ok (first.0 && others.0, ("[" +++ agent +++ "]") ∷ (first.1 ++ others.1)), w'))
  ProbedAll-first agent rest trace_id w (err e, w1) h k = absurd h
  ProbedAll-first agent rest trace_id w (ok (b, lines), w1) h k =
      ProbedAll-cons agent rest trace_id w w1 b lines (loop rest trace_id w1) h (k w1)

  ProbedAll-probe_all :
      (names : List String) (trace_id : String) (w : Process)
      → ProbedAll names trace_id w (loop names trace_id w)
  unfolding probe_all
  ProbedAll-probe_all [] trace_id w = (λ h. tt, λ h. refl)
  ProbedAll-probe_all (agent ∷ rest) trace_id w =
      ProbedAll-first agent rest trace_id w
        (told_of (probe py env platform describe six_decimals agent trace_id w))
        (Probed-try agent trace_id w) (ProbedAll-probe_all rest trace_id)

  -- The probe of the endpoints returns, and its code is 0 exactly if all agents answered.
  abbrev pub Priced : String → Process → Result (ℕ × List String) × Process → Type 0
  Priced trace_id w (err e, w1) = ⊥
  Priced trace_id w (ok (code, lines), w1) = (code ≡ 0) ↔ AllAnswer agents trace_id w

  code-zero : (b : Bool) → ◌≡◌ {A = ℕ} (if b then 0 else 1) 0 ↔ (b ≡ true)
  code-zero true = (λ h. refl, λ h. refl)
  code-zero false = (λ h. absurd (omega (arith, h)), λ h. absurd (false_ne_true h))

  Priced-probed :
      (trace_id : String) (w : Process) (q : Tried) (intro : String) (end_of : Bool → String)
      → ProbedAll agents trace_id w q
      → Priced trace_id w (
          continue q
            λ all w'. (ok (if all.0 then 0 else 1, intro ∷ (all.1 ++ (end_of all.0 ∷ []))), w'))
  Priced-probed trace_id w (err e, w1) intro end_of h = h
  Priced-probed trace_id w (ok (b, lines), w1) intro end_of (to, from) =
      (λ z. to ((code-zero b).0 z), λ all. (code-zero b).1 (from all))

  -- Where the source of ids returns, the check of the endpoints returns too, whatever the providers
  -- raise; its code is 0 exactly if for each of the three agents, one after the other, the configuration
  -- gives a client and that client's call returns a response with a cost above 0.
  pub main-Priced :
      (token_hex : Exec Process String) (trace_id : String) (w w1 : Process)
      → token_hex w ≡ (ok trace_id, w1)
      → Priced trace_id w1 (main py env platform describe six_decimals token_hex w)
  unfolding main
  main-Priced token_hex trace_id w w1 h = rw h (
      Priced-probed trace_id w1 (loop agents trace_id w1) _
        (λ b.
          if b
          then "All three Ark access points reachable + priced."
          else "One or more endpoints FAILED — see above.")
        (ProbedAll-probe_all agents trace_id w1))
