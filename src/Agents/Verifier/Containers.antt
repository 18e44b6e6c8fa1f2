-- ===== src/Agents/Verifier/Containers.antt =====
-- Which containers a call of autosentinel/agents/verifier.py leaves running.
use auto_sentinel.Prelude.{
  ℕ, String, ◌≡◌, refl, sym, ap, ◌∙◌, ◌⊎◌, inl, inr, Bool, true, false, Bool-cases, Option, none,
  some, nat_eq, arith,
}
use auto_sentinel.Effects.{Exc, read_timeout, Result, ok, err, Exec, ◌>>◌, continue}
use auto_sentinel.Python.{Python}
use auto_sentinel.State.{AgentState, ExecutionResult}
use auto_sentinel.Agents.Normalizer.{
  Outcome, verbatim, wrapped, rejected, NormalizedArtifact, normalize_fix_artifact,
}
use auto_sentinel.Agents.Verifier.{
  Docker, collect, on_timeout, observe, observed, in_workdir, sandboxed, removed, finish, execute,
  verify, run,
}

-- What docker documents of running containers: `start` runs a new one or fails, a `remove` with force
-- that returns has ended its container, and no call changes which other containers run.
pub record RunsContainers {S : Type 0} (docker : Docker S) (running : S → ℕ → Bool) : Type 0 where
  pub make_workdir : (s : S) (k : ℕ) → running (docker.make_workdir s).1 k ≡ running s k
  pub remove_workdir :
      (d : String) (s : S) (k : ℕ) → running (docker.remove_workdir d s).1 k ≡ running s k
  pub write_fix :
      (d code : String) (s : S) (k : ℕ) → running (docker.write_fix d code s).1 k ≡ running s k
  pub start_fails :
      (d : String) (s : S) (e : Exc) (k : ℕ)
      → (docker.start d s).0 ≡ err e
      → running (docker.start d s).1 k ≡ running s k
  pub start_is_new :
      (d : String) (s : S) (c : ℕ) → (docker.start d s).0 ≡ ok c → running s c ≡ false
  pub start_keeps :
      (d : String) (s : S) (c k : ℕ)
      → (docker.start d s).0 ≡ ok c
      → nat_eq k c ≡ false
      → running (docker.start d s).1 k ≡ running s k
  pub wait_others :
      (c : ℕ) (s : S) (k : ℕ) → nat_eq k c ≡ false → running (docker.wait c s).1 k ≡ running s k
  pub logs_stdout :
      (c : ℕ) (s : S) (k : ℕ)
      → nat_eq k c ≡ false
      → running (docker.logs_stdout c s).1 k ≡ running s k
  pub logs_stderr :
      (c : ℕ) (s : S) (k : ℕ)
      → nat_eq k c ≡ false
      → running (docker.logs_stderr c s).1 k ≡ running s k
  pub kill :
      (c : ℕ) (s : S) (k : ℕ) → nat_eq k c ≡ false → running (docker.kill c s).1 k ≡ running s k
  pub remove_self :
      (c : ℕ) (s : S) → (docker.remove c s).0 ≡ ok tt → running (docker.remove c s).1 c ≡ false
  pub remove_others :
      (c : ℕ) (s : S) (k : ℕ) → nat_eq k c ≡ false → running (docker.remove c s).1 k ≡ running s k

eq_of_nat_eq : (a b : ℕ) → nat_eq a b ≡ true → a ≡ b
eq_of_nat_eq a b h = ground arith

module _ {S : Type 0} (py : Python) (docker : Docker S) (running : S → ℕ → Bool)
    (laws : RunsContainers docker running) where
  -- Apart from the container `c`, the same containers run as before.
  abbrev Apart : ℕ → (ℕ → Bool) → S → Type 0
  Apart c before s = (k : ℕ) → nat_eq k c ≡ false → running s k ≡ before k

  Apart-bind :
      {A B : Type 0} (c : ℕ) (before : ℕ → Bool) (p : Result A × S) (f : A → Exec S B)
      → Apart c before p.1
      → ((a : A) (s : S) → Apart c before s → Apart c before (f a s).1)
      → Apart c before (continue p f).1
  Apart-bind c before (ok a, s) f h k = k a s h
  Apart-bind c before (err e, s) f h k = h

  Apart-collect :
      (began c : ℕ) (before : ℕ → Bool) (s : S)
      → Apart c before s
      → Apart c before (collect py docker began c s).1
  Apart-collect began c before s h =
      Apart-bind c before (docker.wait c s) _ (λ k ne. laws.wait_others c s k ne ∙ h k ne)
        λ code s₁ h₁.
          Apart-bind c before (docker.logs_stdout c s₁) _
            (λ k ne. laws.logs_stdout c s₁ k ne ∙ h₁ k ne)
            λ out s₂ h₂.
              Apart-bind c before (docker.logs_stderr c s₂) _
                (λ k ne. laws.logs_stderr c s₂ k ne ∙ h₂ k ne) λ errors s₃ h₃. h₃

  Apart-on_timeout :
      (began c : ℕ) (before : ℕ → Bool) (r : Result ExecutionResult) (s : S)
      → Apart c before s
      → Apart c before (on_timeout py docker began c r s).1
  Apart-on_timeout began c before (err (read_timeout e)) s h =
      Apart-bind c before (docker.kill c s) _ (λ k ne. laws.kill c s k ne ∙ h k ne) λ done s₁ h₁. h₁
  Apart-on_timeout began c before r s h = h

  Apart-observe :
      (c : ℕ) (before : ℕ → Bool) (s : S)
      → Apart c before s
      → Apart c before (observe py docker c s).1
  unfolding observe
  Apart-observe c before s h =
      let (r, s') = collect py docker (docker.clock s) c s in
      Apart-on_timeout (docker.clock s) c before r s' (Apart-collect (docker.clock s) c before s h)

  -- What a block leaves: no new container, or one, the block's own.
  abbrev Owned : (ℕ → Bool) → Option ℕ → S → Type 0
  Owned before none s = (k : ℕ) → running s k ≡ before k
  Owned before (some c) s = (before c ≡ false) × Apart c before s

  Owned-observed :
      (dir : String) (before : ℕ → Bool) (s : S) (p : Result ℕ × S)
      → docker.start dir s ≡ p
      → ((k : ℕ) → running s k ≡ before k)
      → let (r, c, s') = observed py docker p in Owned before c s'
  Owned-observed dir before s (err e, s₁) h same = λ k.
      sym (ap (λ (q : Result ℕ × S). running q.1 k) h)
      ∙ laws.start_fails dir s e k (ap (λ (q : Result ℕ × S). q.0) h)
      ∙ same k
  Owned-observed dir before s (ok c, s₁) h same =
      let started : (docker.start dir s).0 ≡ ok c = ap (λ (q : Result ℕ × S). q.0) h in
      (
        sym (same c) ∙ laws.start_is_new dir s c started,
        Apart-observe c before s₁ (λ k ne.
            sym (ap (λ (q : Result ℕ × S). running q.1 k) h)
            ∙ laws.start_keeps dir s c k started ne
            ∙ same k),
      )

  Owned-written :
      (dir : String) (before : ℕ → Bool) (p : Result (Unit {0}) × S)
      → ((k : ℕ) → running p.1 k ≡ before k)
      → let (r, c, s) = observed py docker (continue p (λ done. docker.start dir)) in
        Owned before c s
  Owned-written dir before (ok done, s) same =
      Owned-observed dir before s (docker.start dir s) refl same
  Owned-written dir before (err e, s) same = same

  Owned-closed :
      (dir : String) (before : ℕ → Bool) (r : Result ExecutionResult) (c : Option ℕ) (s : S)
      → Owned before c s
      → Owned before c (docker.remove_workdir dir s).1
  Owned-closed dir before r none s h = λ k. laws.remove_workdir dir s k ∙ h k
  Owned-closed dir before r (some c) s h = (h.0, λ k ne. laws.remove_workdir dir s k ∙ h.1 k ne)

  Owned-in_workdir :
      (code : String) (before : ℕ → Bool) (p : Result String × S)
      → ((k : ℕ) → running p.1 k ≡ before k)
      → let (r, c, s) = in_workdir py docker code p in Owned before c s
  Owned-in_workdir code before (err e, s) same = same
  Owned-in_workdir code before (ok dir, s) same =
      let (r, c, s') = observed py docker ((docker.write_fix dir code >> docker.start dir) s) in
      Owned-closed dir before r c s' (
        Owned-written dir before (docker.write_fix dir code s)
          (λ k. laws.write_fix dir code s k ∙ same k))

  -- The removal of a new container has raised; the other containers run as before.
  abbrev pub Left : (ℕ → Bool) → S → Type 0
  Left before w =
      (c : ℕ) × (e : Exc) × (s : S) × ((docker.remove c s).0 ≡ err e)
      × (w ≡ (docker.remove c s).1)
      × (before c ≡ false)
      × ((k : ℕ) → nat_eq k c ≡ false → running w k ≡ before k)

  -- The same containers run as before, or the removal of a new one has raised.
  abbrev pub Contained : (ℕ → Bool) → S → Type 0
  Contained before w = ((k : ℕ) → running w k ≡ before k) ⊎ Left before w

  Contained-remove :
      (before : ℕ → Bool) (c : ℕ) (s : S) (r : Result (Unit {0}))
      → (docker.remove c s).0 ≡ r
      → Owned before (some c) s
      → Contained before (docker.remove c s).1
  Contained-remove before c s (err e) q h =
      inr (c, e, s, q, refl, h.0, λ k other. laws.remove_others c s k other ∙ h.1 k other)
  Contained-remove before c s (ok done) q h = inl λ k. elim (Bool-cases (nat_eq k c)) [
    | inl own ↦ rw (eq_of_nat_eq k c own) (laws.remove_self c s q ∙ sym h.0)
    | inr other ↦ laws.remove_others c s k other ∙ h.1 k other
  ]

  Contained-removed :
      (before : ℕ → Bool) (c : Option ℕ) (s : S)
      → Owned before c s
      → Contained before (removed py docker c s)
  Contained-removed before none s h = inl h
  Contained-removed before (some c) s h = Contained-remove before c s (docker.remove c s).0 refl h

  Contained-sandboxed :
      (n : NormalizedArtifact) (code : String) (w : S)
      → Contained (running w) (finish py docker n (sandboxed py docker code w)).1
  unfolding sandboxed
  Contained-sandboxed n code w =
      let (r, c, s) = in_workdir py docker code (docker.make_workdir w) in
      Contained-removed (running w) c s
        (Owned-in_workdir code (running w) (docker.make_workdir w) (laws.make_workdir w))

  Contained-execute :
      (o : Outcome) (n : NormalizedArtifact) (w : S)
      → Contained (running w) (execute py docker o n w).1
  Contained-execute rejected n w = inl λ k. refl
  Contained-execute verbatim n w = Contained-sandboxed n n.code w
  Contained-execute wrapped n w = Contained-sandboxed n n.code w

  Contained-normalized :
      (q : Result NormalizedArtifact) (w : S)
      → Contained (running w) (continue (q, w) (λ n. execute py docker n.outcome n)).1
  Contained-normalized (ok n) w = Contained-execute n.outcome n w
  Contained-normalized (err e) w = inl λ k. refl

  Contained-verify : (o : Option String) (w : S) → Contained (running w) (verify py docker o w).1
  Contained-verify none w = inl λ k. refl
  Contained-verify (some artifact) w = Contained-normalized (normalize_fix_artifact py artifact) w

  -- After a call of the verifier exactly the containers run that ran before, also after a timeout or an
  -- error of docker: one that the call started has been removed. The one exception is that docker's
  -- removal has itself raised, of one container that did not run before; then the world is the one that
  -- this attempt has left, and all other containers run as before.
  pub running-run : (st : AgentState) (w : S) → Contained (running w) (run py docker st w).1
  unfolding run
  running-run st w = Contained-verify st.fix_artifact w
