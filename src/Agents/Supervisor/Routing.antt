-- ===== src/Agents/Supervisor/Routing.antt =====
-- The specialist that autosentinel/agents/supervisor.py writes.
use auto_sentinel.Prelude.{
  String, ◌≡◌, refl, ap, sym, ◌⊎◌, inl, inr, true, false, Bool-cases, some, [], ◌∷◌,
}
use auto_sentinel.Prelude.Strings.{is_one_of, nonempty}
use auto_sentinel.Effects.{Result, ok, err, bind, Exec, continue, lift, pure, ◌>>=◌}
use auto_sentinel.Python.{Python}
use auto_sentinel.Python.Json.{Value, text, object, get, find_text, lookup, value_or}
use auto_sentinel.Llm.Protocol.{LlmClient, LlmResponse}
use auto_sentinel.Llm.Factory.{AgentModelConfig}
use auto_sentinel.State.{AgentState, Update, Write, merge}
use auto_sentinel.Agents.Replies.{ask, recover, is_caught}
use auto_sentinel.Agents.Prompts.Supervisor.{system_prompt, user_prompt}
use auto_sentinel.Agents.Supervisor.{
  valid_specialists, fallback, routing, parse_routing, format_context, run,
}

module _ (py : Python) where
  -- The reply is a JSON object that holds the text under the key.
  abbrev pub Holds : String → String → String → Type 0
  Holds content key v = bind (py.loads content) (λ reply. get reply key (text "")) ≡ ok (text v)

  -- The pair is the fallback, or both of its texts stand in the reply.
  abbrev pub IsRouting : String → String × String → Type 0
  IsRouting content (specialist, rationale) =
      (is_one_of specialist valid_specialists ≡ true)
      × (nonempty rationale ≡ true)
      × (((specialist ≡ "code_fixer") × (rationale ≡ "LLM 解析失败,fallback 到 code_fixer"))
          ⊎ (Holds content "specialist" specialist × Holds content "rationale" rationale))

  abbrev Routed : String → Result (String × String) → Type 0
  Routed content (ok pair) = IsRouting content pair
  Routed content (err e) = (py.loads content ≡ err e) × (is_caught e ≡ false)

  IsRouting-fallback : (content : String) → IsRouting content fallback
  unfolding is_one_of
  IsRouting-fallback content = (refl, refl, inl (refl, refl))

  IsRouting-found :
      (content s : String) (v : Value)
      → is_one_of s valid_specialists ≡ true
      → Holds content "specialist" s
      → bind (py.loads content) (λ reply. get reply "rationale" (text "")) ≡ ok v
      → IsRouting content (routing (some s) v)
  IsRouting-found content s (text r) listed h k = elim (Bool-cases (nonempty r)) [
    | inl filled ↦ rw filled (listed, filled, inr (h, k))
    | inr empty ↦ rw empty (IsRouting-fallback content)
  ]
  IsRouting-found content s v listed h k = IsRouting-fallback content

  Routed-values :
      (content : String) (s v : Value)
      → bind (py.loads content) (λ reply. get reply "specialist" (text "")) ≡ ok s
      → bind (py.loads content) (λ reply. get reply "rationale" (text "")) ≡ ok v
      → Routed content
          (recover fallback (bind (find_text s valid_specialists) (λ found. ok (routing found v))))
  unfolding recover find_text
  Routed-values content (text s) v h k = elim (Bool-cases (is_one_of s valid_specialists)) [
    | inl listed ↦ rw listed (IsRouting-found content s v listed h k)
    | inr missing ↦ rw missing (IsRouting-fallback content)
  ]
  Routed-values content s v h k = IsRouting-fallback content

  abbrev after_reply : Value → Result (String × String)
  after_reply reply = bind (get reply "specialist" (text "")) λ specialist.
      bind (get reply "rationale" (text "")) λ rationale.
        bind (find_text specialist valid_specialists) λ found. ok (routing found rationale)

  Routed-reply :
      (content : String) (reply : Value)
      → py.loads content ≡ ok reply
      → Routed content (recover fallback (after_reply reply))
  unfolding recover get
  Routed-reply content (object fs) e =
      Routed-values content (value_or (text "") (lookup "specialist" fs))
        (value_or (text "") (lookup "rationale" fs)) (rw e) (rw e)
  Routed-reply content reply e = IsRouting-fallback content

  Routed-loads :
      (content : String) (r : Result Value)
      → py.loads content ≡ r
      → Routed content (recover fallback (bind r after_reply))
  unfolding recover
  Routed-loads content (ok reply) e = Routed-reply content reply e
  Routed-loads content (err x) e = elim (Bool-cases (is_caught x)) [
    | inl caught ↦ rw caught (IsRouting-fallback content)
    | inr other ↦ rw other (e, other)
  ]

  Routed-parse_routing : (content : String) → Routed content (parse_routing py content)
  unfolding parse_routing
  Routed-parse_routing content = Routed-loads content (py.loads content) refl

  module _ {S : Type 0} (client : LlmClient S) (config : AgentModelConfig) where
    abbrev pub call_model : AgentState → Exec S LlmResponse
    call_model st =
        client (ask config "supervisor" system_prompt (user_prompt (format_context py st)) st)

    -- The state after the node names a specialist and a reason, by the reply of the model.
    abbrev pub IsRoutedState : AgentState → S → AgentState → Type 0
    IsRoutedState st w t =
        (x : LlmResponse) × ((call_model st w).0 ≡ ok x)
        × ((pair : String × String) × (t.specialist ≡ some pair.0)
            × (t.routing_decision ≡ some pair.1)
            × (t.cost_exhausted ≡ st.cost_exhausted)
            × IsRouting x.content pair)

    abbrev route : String × String → Update
    route pair =
        Write.specialist pair.0
        ∷ Write.routing_decision pair.1
        ∷ Write.agent_trace ("SupervisorAgent" ∷ [])
        ∷ []

    IsRoutedState-parsed :
        (st : AgentState) (w s : S) (u : Update) (x : LlmResponse) (q : Result (String × String))
        → (call_model st w).0 ≡ ok x
        → Routed x.content q
        → (continue (q, s) (λ pair. pure (route pair))).0 ≡ ok u
        → IsRoutedState st w (merge u st)
    unfolding merge
    IsRoutedState-parsed st w s u x (ok pair) e routed h =
        let same : route pair ≡ u = cc in
        (
          x,
          e,
          (
            pair,
            ap (λ (z : Update). (merge z st).specialist) (sym same),
            ap (λ (z : Update). (merge z st).routing_decision) (sym same),
            ap (λ (z : Update). (merge z st).cost_exhausted) (sym same),
            routed,
          ),
        )
    IsRoutedState-parsed st w s u x (err y) e routed h = absurd (cc)

    IsRoutedState-answered :
        (st : AgentState) (w s : S) (u : Update) (r : Result LlmResponse)
        → (call_model st w).0 ≡ r
        → (continue (r, s) λ x. lift (parse_routing py x.content) >>= λ pair. pure (route pair)).0
          ≡ ok u
        → IsRoutedState st w (merge u st)
    IsRoutedState-answered st w s u (ok x) e h =
        IsRoutedState-parsed st w s u x (parse_routing py x.content) e
          (Routed-parse_routing x.content) h
    IsRoutedState-answered st w s u (err y) e h = absurd (cc)

    -- If the node returns, the model has answered, and the state names one of the two specialists and a
    -- reason that is not empty; both stand literally in the JSON object of the reply, or they are the
    -- fallback. The flag of the budget stays.
    pub run-IsRoutedState :
        (st : AgentState) (w : S) (u : Update)
        → (run py client config st w).0 ≡ ok u
        → IsRoutedState st w (merge u st)
    unfolding run
    run-IsRoutedState st w u h =
        let (r, s) = call_model st w in IsRoutedState-answered st w s u r refl h
