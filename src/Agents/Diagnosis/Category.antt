-- ===== src/Agents/Diagnosis/Category.antt =====
-- The category that autosentinel/agents/diagnosis.py writes.
use auto_sentinel.Prelude.{String, ◌≡◌, refl, ap, sym, ◌⊎◌, inl, inr, true, some, [], ◌∷◌}
use auto_sentinel.Prelude.Strings.{is_one_of}
use auto_sentinel.Effects.{Result, ok, err, Exec, continue, lift, pure, ◌>>=◌}
use auto_sentinel.Python.{Python}
use auto_sentinel.Llm.Protocol.{LlmClient, LlmResponse}
use auto_sentinel.Llm.Factory.{AgentModelConfig}
use auto_sentinel.State.{AgentState, Update, Write, merge}
use auto_sentinel.Agents.Replies.{ask}
use auto_sentinel.Agents.Replies.Choice.{IsChoice, Says, read_choice-IsChoice}
use auto_sentinel.Agents.Prompts.Diagnosis.{system_prompt}
use auto_sentinel.Agents.Diagnosis.{valid_categories, parse_category, describe_log, run}

listed : is_one_of "CODE" valid_categories ≡ true
unfolding is_one_of
listed = refl

module _ (py : Python) {S : Type 0} (client : LlmClient S) (config : AgentModelConfig) where
  abbrev pub call_model : AgentState → Exec S LlmResponse
  call_model st = client (ask config "diagnosis" system_prompt (describe_log py st.error_log) st)

  -- The category is CODE, or what the model's reply says.
  abbrev pub Categorized : AgentState → S → Update → Type 0
  Categorized st w u =
      (v : String) × ((merge u st).error_category ≡ some v)
      × (is_one_of v valid_categories ≡ true)
      × ((v ≡ "CODE")
          ⊎ ((x : LlmResponse) × ((call_model st w).0 ≡ ok x)
              × Says py "category" valid_categories "CODE" x.content v))

  abbrev categorize : String → Update
  categorize v = Write.error_category v ∷ Write.agent_trace ("DiagnosisAgent" ∷ []) ∷ []

  Categorized-parsed :
      (st : AgentState) (w s : S) (u : Update) (x : LlmResponse) (q : Result String)
      → (call_model st w).0 ≡ ok x
      → IsChoice py "category" valid_categories "CODE" x.content q
      → (continue (q, s) (λ v. pure (categorize v))).0 ≡ ok u
      → Categorized st w u
  unfolding merge
  Categorized-parsed st w s u x (ok v) e choice h =
      let same : categorize v ≡ u = cc in
      (
        v,
        ap (λ (z : Update). (merge z st).error_category) (sym same),
        choice.0,
        elim choice.1 [ inl fallback ↦ inl fallback | inr says ↦ inr (x, e, says) ],
      )
  Categorized-parsed st w s u x (err y) e choice h = absurd (cc)

  Categorized-answered :
      (st : AgentState) (w s : S) (u : Update) (r : Result LlmResponse)
      → (call_model st w).0 ≡ r
      → (continue (r, s) λ x. lift (parse_category py x.content) >>= λ v. pure (categorize v)).0
        ≡ ok u
      → Categorized st w u
  unfolding parse_category
  Categorized-answered st w s u (ok x) e h =
      Categorized-parsed st w s u x (parse_category py x.content) e
        (read_choice-IsChoice py "category" valid_categories "CODE" x.content listed) h
  Categorized-answered st w s u (err y) e h = absurd (cc)

  -- If the node returns, the category in the state is one of the four; it is CODE, or the model has
  -- answered with a JSON object that holds it literally under its key.
  pub run-Categorized :
      (st : AgentState) (w : S) (u : Update)
      → (run py client config st w).0 ≡ ok u
      → Categorized st w u
  unfolding run
  run-Categorized st w u h = let (r, s) = call_model st w in Categorized-answered st w s u r refl h
