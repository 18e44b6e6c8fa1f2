-- ===== src/Agents/Producer/Attempts.antt =====
-- How often autosentinel/agents/_producer_contract.py asks the model, and for what.
use auto_sentinel.Prelude.{ℕ, ◌+◌, String, ◌≡◌, refl, arith}
use auto_sentinel.Effects.{Exc, Result, ok, err, continue}
use auto_sentinel.Python.{Python, Compiled, compiles, syntax_error, fails}
use auto_sentinel.Llm.Protocol.{LlmRequest, LlmClient}
use auto_sentinel.Agents.Producer.{
  compile_error, retry_request, call, settle, complete_script_artifact,
}

module _ (py : Python) {S : Type 0} (client : LlmClient S) (calls : S → ℕ)
    (counts : (r : LlmRequest) (w : S) → calls (client r w).1 ≡ calls w + 1) where
  -- How a fix may end, by the end `first` of its first call, which the client was asked `n` times
  -- before. The artifact compiles and is kept; or it does not, and what the second call gives is the
  -- end, whether it compiles or not; or the first call or the compiler has raised.
  pub data Produced (r : LlmRequest) (n : ℕ) (first q : Result String × S) : Type 0 where
    kept :
        (artifact : String)
        → first.0 ≡ ok artifact
        → py.compile artifact ≡ compiles
        → q ≡ first
        → calls q.1 ≡ n + 1
        → Produced r n first q
    retried :
        (artifact error : String)
        → first.0 ≡ ok artifact
        → py.compile artifact ≡ syntax_error error
        → q ≡ call py client (retry_request error artifact r) first.1
        → calls q.1 ≡ n + 2
        → Produced r n first q
    uncompiled :
        (artifact : String) (e : Exc)
        → first.0 ≡ ok artifact
        → py.compile artifact ≡ fails e
        → q ≡ (err e, first.1)
        → calls q.1 ≡ n + 1
        → Produced r n first q
    unanswered : (e : Exc) → first.0 ≡ err e → q ≡ first → calls q.1 ≡ n + 1 → Produced r n first q

  calls-call : (r : LlmRequest) (w : S) → calls (call py client r w).1 ≡ calls w + 1
  unfolding call
  calls-call r w = ground (arith, counts r w)

  compiled-Produced :
      (r : LlmRequest) (n : ℕ) (artifact : String) (c : Compiled) (w : S)
      → calls w ≡ n + 1
      → py.compile artifact ≡ c
      → Produced r n
          (ok artifact, w)
          (continue (compile_error c, w) (λ error. settle py client r artifact error))
  compiled-Produced r n artifact compiles w h e = kept artifact refl e refl h
  compiled-Produced r n artifact (fails x) w h e = uncompiled artifact x refl e refl h
  compiled-Produced r n artifact (syntax_error x) w h e =
      retried artifact x refl e refl (omega (arith, calls-call (retry_request x artifact r) w))

  first-Produced :
      (r : LlmRequest) (n : ℕ) (p : Result String × S)
      → calls p.1 ≡ n + 1
      → Produced r n p (
          continue p λ artifact s.
            continue
              (compile_error (py.compile artifact), s)
              (λ error. settle py client r artifact error))
  first-Produced r n (ok artifact, w) h =
      compiled-Produced r n artifact (py.compile artifact) w h refl
  first-Produced r n (err e, w) h = unanswered e refl refl h

  -- If the artifact of the first call compiles, it is the fix, and the client has been asked once. If
  -- it has a SyntaxError, the client has been asked twice, and the fix is what comes back for the
  -- request with that artifact and that error appended. If the first call raises, or the compiler
  -- raises anything else, that is raised after one call. The client counts its calls.
  pub complete_script-Produced :
      (r : LlmRequest) (w : S)
      → Produced r (calls w) (call py client r w) (complete_script_artifact py client r w)
  unfolding complete_script_artifact
  complete_script-Produced r w = first-Produced r (calls w) (call py client r w) (calls-call r w)
