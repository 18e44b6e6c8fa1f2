-- ===== src/Agents/SecurityReviewer/Verdict.antt =====
-- The verdicts of autosentinel/agents/security_reviewer.py.
use auto_sentinel.Prelude.{
  String, ◌≡◌, ◌≢◌, refl, sym, ◌∙◌, subst, ◌⊎◌, inl, inr, Bool, true, false, Bool-cases, Option,
  none, some, if◌then◌else◌, arith,
}
use auto_sentinel.Prelude.Strings.{◌+++◌, contains, is_one_of}
use auto_sentinel.Prelude.Strings.Laws.{contains-append, any_of_mem, or-true}
use auto_sentinel.Effects.{Exc, llm_timeout_error, llm_provider_error, Result, ok, err, Exec}
use auto_sentinel.Python.{Python}
use auto_sentinel.Llm.Protocol.{LlmClient, LlmResponse}
use auto_sentinel.Llm.Factory.{AgentModelConfig}
use auto_sentinel.State.{AgentState, Update, merge}
use auto_sentinel.Agents.Replies.{option_or, ask}
use auto_sentinel.Agents.Replies.Choice.{IsChoice, Says, read_choice-IsChoice}
use auto_sentinel.Agents.Prompts.SecurityReviewer.{system_prompt, user_prompt}
use auto_sentinel.Agents.SecurityReviewer.{
  high_risk_keywords, secret_credential_keywords, valid_verdicts, parse_verdict, is_denied, run,
}

high_ne_safe : ◌≢◌ {A = String} "HIGH_RISK" "SAFE"
high_ne_safe e = cc

safe_ne_caution : ◌≢◌ {A = String} "SAFE" "CAUTION"
safe_ne_caution e = cc

none_ne_safe : ◌≢◌ {A = Option String} none (some "SAFE")
none_ne_safe e = cc

listed : is_one_of "CAUTION" valid_verdicts ≡ true
unfolding is_one_of
listed = refl

module _ (py : Python) {S : Type 0} (client : LlmClient S) (config : AgentModelConfig) where
  abbrev pub artifact_of : AgentState → String
  artifact_of st = option_or "" st.fix_artifact

  -- The reviewer's call of its model.
  abbrev pub call_model : AgentState → Exec S LlmResponse
  call_model st =
      client (ask config "security_reviewer" system_prompt (user_prompt (artifact_of st)) st)

  abbrev pub is_llm_error : Exc → Bool
  is_llm_error (llm_timeout_error s) = true
  is_llm_error (llm_provider_error s) = true
  is_llm_error other = false

  abbrev pub parsed : Result String → Option String
  parsed (ok v) = some v
  parsed (err e) = if is_llm_error e then some "HIGH_RISK" else none

  -- What the model's answer comes to, before the overrides: `none` where the node raises.
  abbrev pub opinion : Result LlmResponse → Option String
  opinion (ok x) = parsed (parse_verdict py x.content)
  opinion (err e) = if is_llm_error e then some "HIGH_RISK" else none

  abbrev pub verdict_after : AgentState → Result Update → Option String
  verdict_after st (ok u) = (merge u st).security_verdict
  verdict_after st (err e) = none

  abbrev pub overridden : String → Option String → Option String
  overridden artifact none = none
  overridden artifact (some v) = some (if is_denied py artifact then "HIGH_RISK" else v)

  -- The verdict in the state after the node is the model's opinion under the overrides: the model
  -- is asked once; its reply is parsed; a timeout or a provider error counts as HIGH_RISK.
  pub verdict-run :
      (st : AgentState) (w : S)
      → verdict_after st (run py client config st w).0
        ≡ overridden (artifact_of st) (opinion (call_model st w).0)
  unfolding run merge
  verdict-run st w = ground arith

  -- A keyword of the first list stands in the text as it is, or one of the second list in the
  -- lowered text.
  abbrev pub Holds : String → String → Type 0
  Holds artifact kw =
      (a : String) × (b : String) × (((is_one_of kw high_risk_keywords ≡ true)
          × (artifact ≡ a +++ kw +++ b))
        ⊎ ((is_one_of kw secret_credential_keywords ≡ true) × (py.lower artifact ≡ a +++ kw +++ b)))

  is_denied_of_Holds : (artifact kw : String) → Holds artifact kw → is_denied py artifact ≡ true
  unfolding is_denied
  is_denied_of_Holds artifact kw (a, b, inl (listed, e)) = rw (
      any_of_mem (λ x. contains x artifact) kw high_risk_keywords listed
        (rw e (contains-append a kw b)))
  is_denied_of_Holds artifact kw (a, b, inr (listed, e)) =
      let second =
        any_of_mem (λ x. contains x (py.lower artifact)) kw secret_credential_keywords listed
          (rw e (contains-append a kw b)) in
      rw (second, or-true)

  denied :
      (st : AgentState) (w : S) (u : Update)
      → is_denied py (artifact_of st) ≡ true
      → (run py client config st w).0 ≡ ok u
      → (merge u st).security_verdict ≡ some "HIGH_RISK"
  unfolding run merge
  denied st w u d r = ground arith

  -- Whatever the model says: if the artifact holds a keyword of a deny-list and the node returns, its
  -- verdict is HIGH_RISK.
  pub keyword-high_risk :
      (st : AgentState) (w : S) (kw : String) (u : Update)
      → Holds (artifact_of st) kw
      → (run py client config st w).0 ≡ ok u
      → (merge u st).security_verdict ≡ some "HIGH_RISK"
  keyword-high_risk st w kw u h r = denied st w u (is_denied_of_Holds (artifact_of st) kw h) r

  parsed-safe :
      (content : String) (q : Result String)
      → IsChoice py "verdict" valid_verdicts "CAUTION" content q
      → parsed q ≡ some "SAFE"
      → Says py "verdict" valid_verdicts "CAUTION" content "SAFE"
  parsed-safe content (ok v) choice h =
      let e : v ≡ "SAFE" = cc in
      subst (λ s. Says py "verdict" valid_verdicts "CAUTION" content s) e
        (elim choice.1 [
          | inl caution ↦ absurd (safe_ne_caution (sym e ∙ caution))
          | inr says ↦ says
        ])
  parsed-safe content (err x) choice h = absurd (ground (arith, high_ne_safe))

  opinion-safe :
      (r : Result LlmResponse)
      → opinion r ≡ some "SAFE"
      → (x : LlmResponse) × (r ≡ ok x) × Says py "verdict" valid_verdicts "CAUTION" x.content "SAFE"
  unfolding parse_verdict
  opinion-safe (err e) h = absurd (ground (arith, high_ne_safe))
  opinion-safe (ok x) h =
      let choice = read_choice-IsChoice py "verdict" valid_verdicts "CAUTION" x.content listed in
      (x, refl, parsed-safe x.content (parse_verdict py x.content) choice h)

  not_overridden :
      (artifact : String) (o : Option String)
      → overridden artifact o ≡ some "SAFE"
      → (is_denied py artifact ≡ false) × (o ≡ some "SAFE")
  not_overridden artifact none h = absurd (none_ne_safe h)
  not_overridden artifact (some v) h = elim (Bool-cases (is_denied py artifact)) [
    | inl yes_denied ↦ absurd (ground (arith, high_ne_safe))
    | inr allowed ↦ (allowed, rw allowed at h)
  ]

  -- A verdict of SAFE comes only from a model that answered, with a JSON object whose verdict is
  -- literally SAFE, about an artifact that no deny-list matches.
  pub safe_needs_model :
      (st : AgentState) (w : S)
      → verdict_after st (run py client config st w).0 ≡ some "SAFE"
      → (is_denied py (artifact_of st) ≡ false)
        × ((x : LlmResponse) × ((call_model st w).0 ≡ ok x)
            × Says py "verdict" valid_verdicts "CAUTION" x.content "SAFE")
  safe_needs_model st w h =
      let kept =
        not_overridden (artifact_of st) (opinion (call_model st w).0)
          (sym (verdict-run st w) ∙ h) in
      (kept.0, opinion-safe (call_model st w).0 kept.1)
