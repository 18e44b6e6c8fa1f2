-- ===== src/Agents/Normalizer.antt =====
-- autosentinel/agents/_artifact_normalizer.py
pub mod Outcomes
use auto_sentinel.Prelude.{
  String, ◌≡◌, ◌≢◌, refl, ◌⊎◌, inl, inr, Bool, true, false, ◌||◌, Bool-cases, Option, none, some,
  List, [], ◌∷◌, if◌then◌else◌, any, arith,
}
use auto_sentinel.Prelude.Strings.{◌+++◌, contains, nonempty, strip}
use auto_sentinel.Effects.{Exc, Result, ok, err}
use auto_sentinel.Python.{Python, Compiled, compiles, syntax_error, fails}

-- `_FRAGMENT_SYMPTOMS`
abbrev pub fragment_symptoms : List String
fragment_symptoms = "'return' outside function" ∷ "'yield' outside function" ∷ []

-- `_WRAPPER_TEMPLATE.format(body=…)`
unfoldable pub wrapper : String → String
wrapper body =
    "def __autosentinel_fix__():\n" +++ body
    +++ "\n\n_autosentinel_result = __autosentinel_fix__()\n"
    +++ "if hasattr(_autosentinel_result, \"send\") and hasattr(_autosentinel_result, \"throw\"):\n"
    +++ "    for _ in _autosentinel_result:\n" +++ "        pass\n"

pub data Outcome : Type 0 where
  verbatim wrapped rejected : Outcome

abbrev pub outcome_name : Outcome → String
outcome_name verbatim = "verbatim"
outcome_name wrapped = "wrapped"
outcome_name rejected = "rejected"

pub record NormalizedArtifact : Type 0 where
  pub code : String
  pub outcome : Outcome
  pub reason : Option String

abbrev pub reject : String → NormalizedArtifact
reject why = record { code = ""; outcome = rejected; reason = some why }

abbrev pub is_fragment : String → Bool
is_fragment error = any (λ symptom. contains symptom error) fragment_symptoms

module _ (py : Python) where
  abbrev pub wrap : String → String
  wrap artifact = wrapper (py.indent artifact)

  -- The recompilation of the wrapped text.
  abbrev pub rewrapped : String → Compiled → Result NormalizedArtifact
  rewrapped code compiles = ok (record { code = code; outcome = wrapped; reason = none })
  rewrapped code (syntax_error e) = ok (reject ("SyntaxError: " +++ e))
  rewrapped code (fails e) = err e

  abbrev pub classified : String → Compiled → Result NormalizedArtifact
  classified artifact compiles = ok (record { code = artifact; outcome = verbatim; reason = none })
  classified artifact (syntax_error e) =
      if is_fragment e
      then rewrapped (wrap artifact) (py.compile (wrap artifact))
      else ok (reject ("SyntaxError: " +++ e))
  classified artifact (fails e) = err e

  unfoldable pub normalize_fix_artifact : String → Result NormalizedArtifact
  unfolding strip contains
  normalize_fix_artifact artifact =
      if nonempty (strip artifact)
      then classified artifact (py.compile artifact)
      else ok (reject "empty artifact")
