-- ===== src/Holdout/Baseline.antt =====
-- What scripts/run_holdout_eval.py scores where no reply can be read.
use auto_sentinel.Prelude.{
  ℕ, ◌+◌, String, ◌≡◌, refl, inl, inr, Bool, ◌||◌, some, List, [], ◌∷◌, if◌then◌else◌,
}
use auto_sentinel.Prelude.Strings.{◌==◌}
use auto_sentinel.Prelude.Dict.{find}
use auto_sentinel.Effects.{json_decode_error, ok, err, Exec}
use auto_sentinel.Python.{Python}
use auto_sentinel.Llm.Protocol.{LlmClient, LlmRequest}
use auto_sentinel.Llm.Factory.{AgentModelConfig}
use auto_sentinel.State.{AgentState, Update, Write, merge}
use auto_sentinel.Agents.Replies.{recover, ask}
use auto_sentinel.Agents.Prompts.Supervisor.{system_prompt, user_prompt}
use auto_sentinel.Agents.Supervisor.{fallback, parse_routing, format_context, run}
use auto_sentinel.Benchmark.Summary.Categories.{IsCategory}
use auto_sentinel.Holdout.{
  HoldoutIncident, Outcome, category_to_specialist, make_state, outcome_of, evaluate, evaluate_all,
  hits,
}

-- A call that returns, whatever the world.
abbrev pub Returns : {A S : Type 0} → Exec S A → (A → Type 0) → Type 0
Returns {A} {S} m good = (s : S) → (a : A) × (t : S) × (m s ≡ (ok a, t)) × good a

-- A model that always answers, and never with JSON.
abbrev pub IsUnreadable : {S : Type 0} → Python → LlmClient S → Type 0
IsUnreadable py client =
    (r : LlmRequest)
    → Returns (client r) (λ x. (e : String) × (py.loads x.content ≡ err (json_decode_error e)))

abbrev pub is_default : HoldoutIncident → Bool
is_default x = (x.expected_category == "CODE") || (x.expected_category == "SECURITY")

-- The incidents whose specialist is the one that the supervisor falls back to.
abbrev pub default_count : List HoldoutIncident → ℕ
default_count [] = 0
default_count (x ∷ xs) = (if is_default x then 1 else 0) + default_count xs

abbrev pub AllLabelled : List HoldoutIncident → Type 0
AllLabelled [] = Unit
AllLabelled (x ∷ xs) = IsCategory x.expected_category × AllLabelled xs

abbrev fallback_update : Update
fallback_update =
    Write.specialist fallback.0
    ∷ Write.routing_decision fallback.1
    ∷ Write.agent_trace ("SupervisorAgent" ∷ [])
    ∷ []

expected_hit :
    (c : String)
    → IsCategory c
    → (expected : String) × (find c category_to_specialist ≡ some expected)
      × ((fallback.0 == expected) ≡ ((c == "CODE") || (c == "SECURITY")))
expected_hit c (inl e) = ("code_fixer", rw e refl, rw e refl)
expected_hit c (inr (inl e)) = ("infra_sre", rw e refl, rw e refl)
expected_hit c (inr (inr (inl e))) = ("code_fixer", rw e refl, rw e refl)
expected_hit c (inr (inr (inr e))) = ("infra_sre", rw e refl, rw e refl)

module _ {S : Type 0} (py : Python) (client : LlmClient S) (config : AgentModelConfig)
    (token_hex : Exec S String) (draws : Returns token_hex (λ id. Unit))
    (unreadable : IsUnreadable py client) where
  parse_routing-unreadable :
      (content e : String)
      → py.loads content ≡ err (json_decode_error e)
      → parse_routing py content ≡ ok fallback
  unfolding parse_routing recover
  parse_routing-unreadable content e h = rw h refl

  run-unreadable :
      (st : AgentState) (s : S) → (t : S) × (run py client config st s ≡ (ok fallback_update, t))
  unfolding run
  run-unreadable st s =
      let (x, t, e, (m, h)) =
        unreadable (ask config "supervisor" system_prompt (user_prompt (format_context py st)) st)
          s in
      (t, rw (e, parse_routing-unreadable x.content m h) refl)

  evaluate-unreadable :
      (x : HoldoutIncident) (s : S)
      → IsCategory x.expected_category
      → (o : Outcome) × (t : S) × (evaluate token_hex (run py client config) x s ≡ (ok o, t))
        × (o.is_hit ≡ is_default x)
  unfolding evaluate merge
  evaluate-unreadable x s c =
      let (id, t, drawn, u) = draws s in
      let st = make_state x.error_log id in
      let (w, answered) = run-unreadable st t in
      let (expected, found, hit) = expected_hit x.expected_category c in
      (outcome_of x (merge fallback_update st) expected, w, rw (drawn, answered, found) refl, hit)

  -- A model whose replies are never JSON still scores: the evaluation ends, and its hits are exactly
  -- the incidents of the categories CODE and SECURITY, for which the supervisor falls back to the
  -- specialist that is expected. The category of each incident is one of the four words.
  pub hits-unreadable :
      (xs : List HoldoutIncident) (s : S)
      → AllLabelled xs
      → (os : List Outcome) × (t : S) × (evaluate_all token_hex (run py client config) xs s
          ≡ (ok os, t))
        × (hits os ≡ default_count xs)
  unfolding evaluate_all
  hits-unreadable [] s h = ([], s, refl, refl)
  hits-unreadable (x ∷ xs) s (c, h) =
      let (o, t, first, hit) = evaluate-unreadable x s c in
      let (os, w, rest, scored) = hits-unreadable xs t h in
      (o ∷ os, w, rw (first, rest) refl, rw (hit, scored) refl)
