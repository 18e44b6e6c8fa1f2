-- ===== src/Entry/Tracing.antt =====
-- autosentinel/tracing.py: the parent trace, and `run_pipeline` with it. The dashboard's package, its
-- settings and the Langfuse client are parameters.
use auto_sentinel.Prelude.{
  String, ◌≡◌, refl, Bool, true, false, Bool-cases, inl, inr, ◌&&◌, Option, none, some, List, [],
  ◌∷◌, if◌then◌else◌,
}
use auto_sentinel.Prelude.Strings.{◌+++◌, nonempty}
use auto_sentinel.Effects.{
  Exc, file_not_found, Result, ok, err, Exec, pure, ◌>>=◌, ◌>>◌, try_with, continue,
}
use auto_sentinel.State.{initial_state}
use auto_sentinel.Pipeline.{Agents, Services, invoke}
use auto_sentinel.Entry.{truthy_id, outcome, run_pipeline}

pub record Settings : Type 0 where
  pub langfuse_host : String
  pub langfuse_public_key : String
  pub langfuse_secret_key : String

-- What the module uses and does not implement.
pub record Dashboard (S : Type 0) : Type 0 where
  -- The two imports: None where they end in an ImportError.
  pub settings : Exec S (Option Settings)
  -- `Langfuse(...)`, `client.trace` with its id, name and tags, and `client.flush`.
  pub connect : Settings → Exec S (Unit {0})
  pub trace : String → String → List String → Exec S (Unit {0})
  pub flush : Exec S (Unit {0})
  -- `logger.exception`
  pub log_exception : String → Exc → S → S

module _ {S : Type 0} (dashboard : Dashboard S) where
  abbrev pub configured : Option Settings → Exec S Bool
  configured none = pure false
  configured (some c) =
      if nonempty c.langfuse_public_key && nonempty c.langfuse_secret_key
      then dashboard.connect c >> pure true
      else pure false

  -- `_langfuse_client`: whether there is a client.
  unfoldable pub langfuse_client : Exec S Bool
  langfuse_client = do found ← dashboard.settings; configured found

  abbrev pub traced : String → String → String → Bool → Exec S (Unit {0})
  traced trace_id project component false = pure tt
  traced trace_id project component true = do
    dashboard.trace trace_id (project +++ "/" +++ component)
        (("project:" +++ project) ∷ ("component:" +++ component) ∷ [])
    dashboard.flush

  abbrev pub swallowed : String → Result (Unit {0}) → Exec S (Unit {0})
  swallowed trace_id (ok done) s = (ok tt, s)
  swallowed trace_id (err e) s = (
    ok tt,
    dashboard.log_exception ("failed to open parent Langfuse trace for " +++ trace_id) e s,
  )

  -- `open_parent_trace`
  unfoldable pub open_parent_trace : String → String → String → Exec S (Unit {0})
  unfolding langfuse_client ◌+++◌
  open_parent_trace trace_id project component =
      if nonempty trace_id
      then try_with (do client ← langfuse_client; traced trace_id project component client)
          (swallowed trace_id)
      else pure tt

  open_parent_trace-returns :
      (trace_id project component : String) (s : S)
      → (open_parent_trace trace_id project component s).0 ≡ ok tt
  unfolding open_parent_trace
  open_parent_trace-returns trace_id project component s = elim (Bool-cases (nonempty trace_id)) [
    | inl there ↦
        rw there (returns (continue (langfuse_client s) (traced trace_id project component)))
    | inr empty ↦ rw empty refl
  ]
    where
      returns : (q : Result (Unit {0}) × S) → (swallowed trace_id q.0 q.1).0 ≡ ok tt
      returns (ok done, t) = refl
      returns (err e, t) = refl

  -- Where there are no keys, or no package, nothing is traced.
  open_parent_trace-unconfigured :
      (trace_id project component : String) (s t : S)
      → langfuse_client s ≡ (ok false, t)
      → open_parent_trace trace_id project component s ≡ (ok tt, if nonempty trace_id then t else s)
  unfolding open_parent_trace
  open_parent_trace-unconfigured trace_id project component s t h =
      elim (Bool-cases (nonempty trace_id)) [
        | inl there ↦ rw (there, h) refl
        | inr empty ↦ rw empty refl
      ]

  -- `if trace_id:` of `run_pipeline`.
  abbrev pub open_for : Option String → Exec S (Unit {0})
  open_for none = pure tt
  open_for (some id) = open_parent_trace id "auto-sentinel" "pipeline"

  module _ (services : Services S) (agents : Agents S) (exists : String → S → Bool) where
    -- What follows the start of the trace.
    abbrev run_graph : String → Option String → Exec S String
    run_graph path id s =
        let r = invoke services agents (initial_state path id) s in
        (outcome r.position r.state, r.world)

    -- `run_pipeline` with its trace: it opens it once the log is found, and before the graph runs.
    unfoldable pub traced_run_pipeline : String → Option String → Exec S String
    unfolding open_parent_trace
    traced_run_pipeline log_path trace_id s =
        let path = services.python.path_text log_path in
        if exists path s
        then (open_for (truthy_id trace_id) >> run_graph path (truthy_id trace_id)) s
        else (err (file_not_found ("Log file not found: " +++ path)), s)

    open_for-returns : (id : Option String) (s : S) → (open_for id s).0 ≡ ok tt
    open_for-returns none s = refl
    open_for-returns (some id) s = open_parent_trace-returns id "auto-sentinel" "pipeline" s

    continue-returned :
        {A : Type 0} (q : Result (Unit {0}) × S) (f : Exec S A)
        → q.0 ≡ ok tt
        → continue q (λ done. f) ≡ f q.1
    continue-returned (ok done, t) f h = refl
    continue-returned (err e, t) f h = absurd cc

    -- A trace never breaks the pipeline: whatever the dashboard does or raises, `run_pipeline` with its
    -- trace comes to what it comes to without one, in the world that the trace has left. The trace leaves
    -- the log where it is.
    pub traced_run_pipeline-run_pipeline :
        (log_path : String) (trace_id : Option String) (s : S)
        → exists (services.python.path_text log_path) (open_for (truthy_id trace_id) s).1
          ≡ exists (services.python.path_text log_path) s
        → exists (services.python.path_text log_path) s ≡ true
        → traced_run_pipeline log_path trace_id s
          ≡ run_pipeline services agents exists log_path trace_id
              (open_for (truthy_id trace_id) s).1
    unfolding traced_run_pipeline run_pipeline
    traced_run_pipeline-run_pipeline log_path trace_id s same there =
        rw (same, there)
          (continue-returned (open_for (truthy_id trace_id) s) _
            (open_for-returns (truthy_id trace_id) s))
