-- ===== src/Agents/Verifier.antt =====
-- autosentinel/agents/verifier.py: the only agent that runs the fix, in a container.
pub mod Containers
pub mod Status
use auto_sentinel.Prelude.{
  ℕ, ◌-◌, String, Bool, Option, none, some, List, [], ◌∷◌, if◌then◌else◌, nat_eq,
}
use auto_sentinel.Prelude.Int.{ℤ, pos, negsuc}
use auto_sentinel.Effects.{
  Exc, read_timeout, message, Result, ok, err, Exec, pure, raise, lift, ◌>>=◌, ◌>>◌, try_with,
}
use auto_sentinel.Python.{Python}
use auto_sentinel.Python.Json.{is_zero}
use auto_sentinel.State.{AgentState, ExecutionResult, Normalization, Update, Write}
use auto_sentinel.Agents.Normalizer.{
  Outcome, verbatim, wrapped, rejected, outcome_name, NormalizedArtifact, normalize_fix_artifact,
}
use auto_sentinel.Agents.Replies.{option_or}

-- What the agent uses of tempfile, pathlib, docker and time, over a world `S`.
pub record Docker (S : Type 0) : Type 0 where
  -- `TemporaryDirectory(...)`: its entry and its exit.
  pub make_workdir : Exec S String
  pub remove_workdir : String → Exec S (Unit {0})
  -- `(Path(workdir) / "fix.py").write_text(code)`
  pub write_fix : String → String → Exec S (Unit {0})
  -- `docker.from_env()` and `client.containers.run(...)` on the directory: the container's id.
  pub start : String → Exec S ℕ
  -- `container.wait(timeout=5)["StatusCode"]`, `container.logs(...)`, `kill`, `remove`.
  pub wait : ℕ → Exec S ℤ
  pub logs_stdout : ℕ → Exec S String
  pub logs_stderr : ℕ → Exec S String
  pub kill : ℕ → Exec S (Unit {0})
  pub remove : ℕ → Exec S (Unit {0})
  -- `time.monotonic()`, in milliseconds.
  pub clock : S → ℕ

abbrev pub outcome_of : String → Option ℤ → String → String → ℕ → ExecutionResult
outcome_of status code stdout stderr ms = record {
  status = status;
  return_code = code;
  stdout = stdout;
  stderr = stderr;
  duration_ms = ms;
  error = none;
}

abbrev pub trace : Update
trace = Write.agent_trace ("VerifierAgent" ∷ []) ∷ []

-- The update where there is no artifact.
abbrev pub skipped : Update
skipped =
    Write.execution_result (some (outcome_of "skipped" none "" "" 0))
    ∷ Write.execution_error none
    ∷ trace

abbrev pub normalization_of : NormalizedArtifact → Normalization
normalization_of n = record { outcome = outcome_name n.outcome; reason = n.reason }

-- The update where the artifact was rejected.
abbrev pub refused : NormalizedArtifact → Update
refused n =
    Write.execution_result
      (some (outcome_of "failure" none "" (option_or "artifact rejected" n.reason) 0))
    ∷ Write.execution_error none
    ∷ Write.fix_normalization (normalization_of n)
    ∷ trace

module _ {S : Type 0} (py : Python) (docker : Docker S) where
  open docker use {
    make_workdir, remove_workdir, write_fix, start, wait, logs_stdout, logs_stderr, kill, remove,
    clock,
  }

  -- The inner `try`, which began at the time `began`.
  abbrev pub collect : ℕ → ℕ → Exec S ExecutionResult
  collect began c = do
    code ← wait c
    ended ← λ s. (ok (clock s), s)
    stdout ← logs_stdout c
    stderr ← logs_stderr c
    pure (
        outcome_of (if is_zero code then "success" else "failure") (some code) stdout stderr
          (ended - began))

  -- `except requests.exceptions.ReadTimeout`
  abbrev pub on_timeout : ℕ → ℕ → Result ExecutionResult → Exec S ExecutionResult
  on_timeout began c (ok r) = pure r
  on_timeout began c (err (read_timeout e)) = do
    ended ← λ s. (ok (clock s), s)
    kill c
    pure (outcome_of "timeout" none "" "" (ended - began))
  on_timeout began c (err e) = raise e

  unfoldable pub observe : ℕ → Exec S ExecutionResult
  observe c s = try_with (collect (clock s) c) (on_timeout (clock s) c) s

  -- The end of a block that may have set the variable `container`.
  abbrev pub Block : Type 0
  Block = Result ExecutionResult × Option ℕ × S

  abbrev pub observed : Result ℕ × S → Block
  observed (err e, s) = (err e, none, s)
  observed (ok c, s) = let (r, s') = observe c s in (r, some c, s')

  -- `__exit__` of the directory: an exception that it raises takes the place of the block's end.
  abbrev pub replaced : Result (Unit {0}) → Result ExecutionResult → Result ExecutionResult
  replaced (ok done) r = r
  replaced (err e) r = err e

  abbrev pub closed : String → Block → Block
  closed dir (r, c, s) = let (q, s') = remove_workdir dir s in (replaced q r, c, s')

  abbrev pub in_workdir : String → Result String × S → Block
  in_workdir code (err e, s) = (err e, none, s)
  in_workdir code (ok dir, s) = closed dir (observed ((write_fix dir code >> start dir) s))

  -- The `with` block, inside the outer `try`.
  unfoldable pub sandboxed : String → S → Block
  unfolding observe
  sandboxed code s = in_workdir code (make_workdir s)

  -- `finally`: what `remove` raises is swallowed.
  abbrev pub removed : Option ℕ → S → S
  removed none s = s
  removed (some c) s = (remove c s).1

  -- The update of the outer `try` and of its `except`.
  abbrev pub reported : NormalizedArtifact → Result ExecutionResult → Update
  reported n (ok r) =
      Write.execution_result (some r)
      ∷ Write.execution_error none
      ∷ Write.fix_normalization (normalization_of n)
      ∷ trace
  reported n (err e) =
      Write.execution_result none
      ∷ Write.execution_error (some (message py.show_decimal e))
      ∷ Write.fix_normalization (normalization_of n)
      ∷ trace

  abbrev pub finish : NormalizedArtifact → Block → Result Update × S
  finish n (r, c, s) = (ok (reported n r), removed c s)

  abbrev pub execute : Outcome → NormalizedArtifact → Exec S Update
  execute rejected n s = (ok (refused n), s)
  execute verbatim n s = finish n (sandboxed n.code s)
  execute wrapped n s = finish n (sandboxed n.code s)

  abbrev pub verify : Option String → Exec S Update
  verify none = pure skipped
  verify (some artifact) = do n ← lift (normalize_fix_artifact py artifact); execute n.outcome n

  -- `VerifierAgent.run`
  unfoldable pub run : AgentState → Exec S Update
  unfolding sandboxed
  run st = verify st.fix_artifact
