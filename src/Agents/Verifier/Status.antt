-- ===== src/Agents/Verifier/Status.antt =====
-- What the execution result of autosentinel/agents/verifier.py says.
use auto_sentinel.Prelude.{
  ℕ, ◌-◌, String, ◌≡◌, refl, Bool, false, Bool-cases, if◌then◌else◌, inl, inr, Option, none, some,
}
use auto_sentinel.Prelude.Int.{ℤ}
use auto_sentinel.Prelude.Strings.{◌==◌}
use auto_sentinel.Effects.{read_timeout, Result, ok, err, Exec, ◌>>◌, continue}
use auto_sentinel.Python.{Python}
use auto_sentinel.Python.Json.{is_zero}
use auto_sentinel.State.{AgentState, ExecutionResult, Update, merge}
use auto_sentinel.Agents.Normalizer.{
  Outcome, verbatim, wrapped, rejected, NormalizedArtifact, normalize_fix_artifact,
}
use auto_sentinel.Agents.Verifier.{
  Docker, collect, on_timeout, observe, observed, replaced, in_workdir, sandboxed, reported,
  execute, verify, run, outcome_of,
}

abbrev pub exited_with_zero : Option ℤ → Bool
exited_with_zero none = false
exited_with_zero (some code) = is_zero code

-- The status is `success` exactly if the container exited with the code 0.
abbrev pub IsHonest : ExecutionResult → Type 0
IsHonest r = (r.status == "success") ≡ exited_with_zero r.return_code

-- Either there is a result, which is honest, and no error; or an error and no result.
abbrev pub Reports : Option ExecutionResult → Option String → Type 0
Reports (some r) error = (error ≡ none) × IsHonest r
Reports none error = (why : String) × (error ≡ some why)

abbrev Honest : Result ExecutionResult → Type 0
Honest (ok r) = IsHonest r
Honest (err e) = Unit

module _ {S : Type 0} (py : Python) (docker : Docker S) where
  Honest-bind :
      {A : Type 0} (p : Result A × S) (f : A → Exec S ExecutionResult)
      → ((a : A) (s : S) → Honest (f a s).0)
      → Honest (continue p f).0
  Honest-bind (ok a, s) f h = h a s
  Honest-bind (err e, s) f h = tt

  exit_status :
      (code : ℤ) (out errors : String) (ms : ℕ)
      → IsHonest
          (outcome_of (if is_zero code then "success" else "failure") (some code) out errors ms)
  exit_status code out errors ms = elim (Bool-cases (is_zero code)) [ inl z ↦ rw z | inr z ↦ rw z ]

  Honest-collect : (began c : ℕ) (s : S) → Honest (collect py docker began c s).0
  Honest-collect began c s = Honest-bind (docker.wait c s) _ λ code s₁.
      Honest-bind (docker.logs_stdout c s₁) _ λ out s₂.
        Honest-bind (docker.logs_stderr c s₂) _
          λ errors s₃. exit_status code out errors (docker.clock s₁ - began)

  Honest-on_timeout :
      (began c : ℕ) (r : Result ExecutionResult) (s : S)
      → Honest r
      → Honest (on_timeout py docker began c r s).0
  Honest-on_timeout began c (err (read_timeout e)) s h =
      Honest-bind (docker.kill c s) _ λ done s₁. refl
  Honest-on_timeout began c r s h = h

  Honest-observed : (p : Result ℕ × S) → Honest (observed py docker p).0
  unfolding observe
  Honest-observed (err e, s) = tt
  Honest-observed (ok c, s) =
      let (r, s') = collect py docker (docker.clock s) c s in
      Honest-on_timeout (docker.clock s) c r s' (Honest-collect (docker.clock s) c s)

  Honest-replaced :
      (q : Result (Unit {0})) (r : Result ExecutionResult)
      → Honest r
      → Honest (replaced py docker q r)
  Honest-replaced (ok done) r h = h
  Honest-replaced (err e) r h = tt

  Honest-in_workdir :
      (code : String) (p : Result String × S) → Honest (in_workdir py docker code p).0
  Honest-in_workdir code (err e, s) = tt
  Honest-in_workdir code (ok dir, s) =
      let block = observed py docker ((docker.write_fix dir code >> docker.start dir) s) in
      Honest-replaced (docker.remove_workdir dir block.2).0 block.0
        (Honest-observed ((docker.write_fix dir code >> docker.start dir) s))

  abbrev pub Verified : AgentState → Result Update → Type 0
  Verified st (ok u) = Reports (merge u st).execution_result (merge u st).execution_error
  Verified st (err e) =
      (artifact : String) × (st.fix_artifact ≡ some artifact)
      × (normalize_fix_artifact py artifact ≡ err e)

  Reports-reported :
      (st : AgentState) (n : NormalizedArtifact) (r : Result ExecutionResult)
      → Honest r
      → Reports
          (merge (reported py docker n r) st).execution_result
          (merge (reported py docker n r) st).execution_error
  unfolding merge
  Reports-reported st n (ok r) h = (refl, h)
  Reports-reported st n (err e) h = (_, refl)

  Verified-execute :
      (st : AgentState) (o : Outcome) (n : NormalizedArtifact) (w : S)
      → Verified st (execute py docker o n w).0
  unfolding merge sandboxed
  Verified-execute st rejected n w = (refl, refl)
  Verified-execute st verbatim n w =
      Reports-reported st n _ (Honest-in_workdir n.code (docker.make_workdir w))
  Verified-execute st wrapped n w =
      Reports-reported st n _ (Honest-in_workdir n.code (docker.make_workdir w))

  Verified-normalized :
      (st : AgentState) (artifact : String) (q : Result NormalizedArtifact) (w : S)
      → st.fix_artifact ≡ some artifact
      → normalize_fix_artifact py artifact ≡ q
      → Verified st (continue (q, w) (λ n. execute py docker n.outcome n)).0
  Verified-normalized st artifact (ok n) w e h = Verified-execute st n.outcome n w
  Verified-normalized st artifact (err x) w e h = (artifact, e, h)

  Verified-verify :
      (st : AgentState) (o : Option String) (w : S)
      → st.fix_artifact ≡ o
      → Verified st (verify py docker o w).0
  unfolding merge
  Verified-verify st none w e = (refl, refl)
  Verified-verify st (some artifact) w e =
      Verified-normalized st artifact (normalize_fix_artifact py artifact) w e refl

  pub run-Verified : (st : AgentState) (w : S) → Verified st (run py docker st w).0
  unfolding run
  run-Verified st w = Verified-verify st st.fix_artifact w refl
