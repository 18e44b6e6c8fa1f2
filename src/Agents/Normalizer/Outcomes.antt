-- ===== src/Agents/Normalizer/Outcomes.antt =====
-- What autosentinel/agents/_artifact_normalizer.py promises of each outcome.
use auto_sentinel.Prelude.{
  String, ◌≡◌, ◌≢◌, refl, sym, ◌∙◌, ◌⊎◌, inl, inr, true, false, Bool-cases, some,
}
use auto_sentinel.Prelude.Strings.{nonempty, strip}
use auto_sentinel.Effects.{Result, ok, err}
use auto_sentinel.Python.{Python, Compiled, compiles, syntax_error, fails}
use auto_sentinel.Agents.Normalizer.{
  Outcome, verbatim, wrapped, rejected, NormalizedArtifact, is_fragment, wrap, rewrapped,
  classified, normalize_fix_artifact,
}

compiles_ne_syntax_error : (e : String) → syntax_error e ≢ compiles
compiles_ne_syntax_error e h = cc

module _ (py : Python) (artifact : String) where
  abbrev pub Promise : Outcome → NormalizedArtifact → Type 0
  Promise verbatim n = (n.code ≡ artifact) × (py.compile artifact ≡ compiles)
  Promise wrapped n =
      (n.code ≡ wrap py artifact)
      × (py.compile n.code ≡ compiles)
      × ((e : String) × (py.compile artifact ≡ syntax_error e) × (is_fragment e ≡ true))
  Promise rejected n =
      (n.code ≡ "")
      × ((why : String) × (n.reason ≡ some why))
      × ((nonempty (strip artifact) ≡ false) ⊎ (py.compile artifact ≢ compiles))

  abbrev pub IsNormal : Result NormalizedArtifact → Type 0
  IsNormal (ok n) = Promise n.outcome n
  IsNormal (err x) = (py.compile artifact ≡ fails x) ⊎ (py.compile (wrap py artifact) ≡ fails x)

  rewrapped-IsNormal :
      (c : Compiled) (e : String)
      → py.compile artifact ≡ syntax_error e
      → is_fragment e ≡ true
      → py.compile (wrap py artifact) ≡ c
      → IsNormal (rewrapped py (wrap py artifact) c)
  rewrapped-IsNormal compiles e h f k = (refl, k, (e, h, f))
  rewrapped-IsNormal (syntax_error x) e h f k =
      (refl, (_, refl), inr (λ c. compiles_ne_syntax_error e (sym h ∙ c)))
  rewrapped-IsNormal (fails x) e h f k = inr k

  classified-IsNormal :
      (c : Compiled) → py.compile artifact ≡ c → IsNormal (classified py artifact c)
  classified-IsNormal compiles h = (refl, h)
  classified-IsNormal (syntax_error e) h = elim (Bool-cases (is_fragment e)) [
    | inl f ↦ rw f (rewrapped-IsNormal (py.compile (wrap py artifact)) e h f refl)
    | inr f ↦ rw f (refl, (_, refl), inr (λ c. compiles_ne_syntax_error e (sym h ∙ c)))
  ]
  classified-IsNormal (fails x) h = inl h

  -- Every outcome is what it says. `verbatim`: the code is the artifact, and compiles. `wrapped`: the
  -- code is the wrapped artifact, and compiles, where the artifact alone failed as a fragment.
  -- `rejected`: no code, a reason, and an artifact that is blank or does not compile. The function
  -- raises only what `compile` raises besides a SyntaxError.
  pub normalize-IsNormal : IsNormal (normalize_fix_artifact py artifact)
  unfolding normalize_fix_artifact
  normalize-IsNormal = elim (Bool-cases (nonempty (strip artifact))) [
    | inl h ↦ rw h (classified-IsNormal (py.compile artifact) refl)
    | inr h ↦ rw h (refl, (_, refl), inl h)
  ]
