-- ===== src/Api/Board/Gateway.antt =====
-- The gateway of autosentinel/api as a whole: submissions, and the worker that takes one job at a time.
use auto_sentinel.Prelude.{
  String, ◌≡◌, refl, ◌∙◌, ap, Bool, true, Bool-cases, inl, inr, Option, none, some, List, [], ◌∷◌,
  ◌++◌, if◌then◌else◌,
}
use auto_sentinel.Prelude.Strings.{◌==◌}
use auto_sentinel.Effects.{Result, ok, err, continue}
use auto_sentinel.Effects.Frame.{continue-ok}
use auto_sentinel.Llm.Protocol.{is_trace_id}
use auto_sentinel.Pipeline.{Agents, Services}
use auto_sentinel.Entry.{run_pipeline}
use auto_sentinel.Entry.Quiet.{QuietAgents}
use auto_sentinel.Api.Results.{Store, incoming_path}
use auto_sentinel.Api.Worker.{AlertJob, process}
use auto_sentinel.Api.Routes.{
  Reply, response, http_error, AlertPayload, AlertJobResponse, dump, accept, ingest_alert,
}
use auto_sentinel.Api.Board.{Office, Opens, ids, opened, IsNamed, AllNamed, view, Disk}
use auto_sentinel.Api.Board.Pages.{view-write_incoming}
use auto_sentinel.Api.Board.Runs.{store_of, UnseenCalls}
use auto_sentinel.Api.Board.Refinement.{Settles-process}
use auto_sentinel.Api.Board.Steps.{
  Event, alert, turn, Answer, accepted, refused, failed, worked, OfficeStep, opens_new, opens_given,
  refuses, draws_none, settles, idles, OfficeReach, done, next,
}

-- The jobs that wait, and the world.
pub record Gateway (S : Type 0) : Type 0 where
  pub queue : List AlertJob
  pub world : S

module _ {S : Type 0} (services : Services S) (agents : Agents S) (exists : String → S → Bool)
    (listed : S → List String) where
  abbrev pub gateway_store : Store S
  gateway_store = store_of services exists listed

  -- An exception leaves the queue as it is.
  abbrev pub enqueued :
      List AlertJob → Result (Reply AlertJobResponse × List AlertJob) × S → Answer × Gateway S
  enqueued queue (ok (response r, queue'), s) =
      (accepted r.job_id, record { queue = queue'; world = s })
  enqueued queue (ok (http_error code why, queue'), s) =
      (refused code, record { queue = queue'; world = s })
  enqueued queue (err e, s) = (failed e, record { queue = queue; world = s })

  abbrev pub take_turn : List AlertJob → S → Gateway S
  take_turn [] s = record { queue = []; world = s }
  take_turn (job ∷ jobs) s = record {
    queue = jobs;
    world = (process services.python gateway_store (run_pipeline services agents exists) job s).1;
  }

  abbrev pub handle : Event → Gateway S → Answer × Gateway S
  handle (alert header payload) g =
      enqueued g.queue (
        ingest_alert services.python gateway_store services.token_hex header payload g.queue
          g.world)
  handle turn g = (worked, take_turn g.queue g.world)

  abbrev pub serve : List Event → Gateway S → List Answer × Gateway S
  serve [] g = ([], g)
  serve (e ∷ es) g = let (a, h) = handle e g in let (answers, k) = serve es h in (a ∷ answers, k)

  -- Each log in the queue has its job's id for a stem.
  abbrev pub IsReady : Gateway S → Type 0
  IsReady g = AllNamed services.python g.queue

  -- The office that a gateway stands for.
  abbrev pub office : Gateway S → Office
  office g = record { waiting = ids g.queue; board = view gateway_store g.world }

  -- A new id has the form of a trace id, and the stem of an alert's file is its id.
  pub record NamesAlerts : Type 0 where
    pub drawn : (s : S) (id : String) → (services.token_hex s).0 ≡ ok id → is_trace_id id ≡ true
    pub stem :
        (id : String)
        → is_trace_id id ≡ true
        → services.python.path_stem (services.python.path_text (incoming_path id)) ≡ id

module _ {S : Type 0} (services : Services S) (agents : Agents S) (exists : String → S → Bool)
    (listed : S → List String) (disk : Disk (store_of services exists listed))
    (unseen : UnseenCalls (store_of services exists listed) services agents)
    (quiet : QuietAgents agents) (names : NamesAlerts services agents exists listed) where
  abbrev store : Store S
  store = store_of services exists listed

  abbrev pub Ready : Gateway S → Type 0
  Ready = IsReady services agents exists listed

  abbrev pub standing : Gateway S → Office
  standing = office services agents exists listed

  -- The queue stays ready, and the office takes a step for the event and its answer.
  abbrev pub Implements : Event → Gateway S → Answer × Gateway S → Type 0
  Implements e g (a, h) = Ready h × OfficeStep services.token_hex (standing g) (standing h) e a

  ids-append :
      (jobs : List AlertJob) (job : AlertJob) → ids (jobs ++ job ∷ []) ≡ ids jobs ++ job.job_id ∷ []
  ids-append [] job = refl
  ids-append (x ∷ jobs) job = ap (λ l. x.job_id ∷ l) (ids-append jobs job)

  AllNamed-append :
      (jobs : List AlertJob) (job : AlertJob)
      → AllNamed services.python jobs
      → IsNamed services.python job
      → AllNamed services.python (jobs ++ job ∷ [])
  AllNamed-append [] job h k = (k, tt)
  AllNamed-append (x ∷ jobs) job (h, hs) k = (h, AllNamed-append jobs job hs k)

  Implements-accept :
      (e : Event) (payload : AlertPayload) (g : Gateway S) (id : String) (t : S)
      → Ready g
      → is_trace_id id ≡ true
      → ((j : String) → view store t j ≡ view store g.world j)
      → ((p : Office)
          → Opens id (standing g) p
          → OfficeStep services.token_hex (standing g) p e (accepted id))
      → Implements e g (
          enqueued services agents exists listed g.queue
            (accept services.python store payload g.queue (response id) t))
  Implements-accept e payload g id t named valid same step =
      let raw = services.python.dumps_line (dump payload) in
      let w = services.files.write_text (incoming_path id) raw t in
      rw (continue-ok w tt _ (disk.takes (incoming_path id) raw t)) (
        AllNamed-append g.queue _ named (names.stem id valid),
        step _ (record {
          waits_last = ids-append g.queue _;
          opened_only = λ j.
              view-write_incoming store disk id raw t j
              ∙ ap (λ x. if id == j then opened x else x) (same j);
        }),
      )

  -- An alert without a header, by what the source of ids gave.
  Implements-drawn :
      (payload : AlertPayload) (g : Gateway S) (q : Result String × S)
      → Ready g
      → (services.token_hex g.world).0 ≡ q.0
      → ((j : String) → view store q.1 j ≡ view store g.world j)
      → Implements (alert none payload) g (
          enqueued services agents exists listed g.queue (
            continue
              (continue q (λ id s. (ok (response id), s)))
              (λ id. accept services.python store payload g.queue id)))
  Implements-drawn payload g (ok id, t) ready drawn same =
      Implements-accept (alert none payload) payload g id t ready (names.drawn g.world id drawn)
        same (λ p. opens_new payload id g.world drawn)
  Implements-drawn payload g (err e, t) ready drawn same =
      (ready, draws_none payload e g.world drawn (record { same_queue = refl; same_board = same }))

  Implements-alert :
      (header : Option String) (payload : AlertPayload) (g : Gateway S)
      → Ready g
      → Implements
          (alert header payload)
          g
          (handle services agents exists listed (alert header payload) g)
  unfolding ingest_alert
  Implements-alert none payload g ready =
      Implements-drawn payload g (services.token_hex g.world) ready refl (unseen.token_hex g.world)
  Implements-alert (some id) payload g ready = elim (Bool-cases (is_trace_id id)) [
    | inl valid ↦ rw valid (
        Implements-accept (alert (some id) payload) payload g id g.world ready valid (λ j. refl)
          (λ p. opens_given payload id valid))
    | inr other ↦
        rw other
          (ready, refuses payload id other (record { same_queue = refl; same_board = λ j. refl }))
  ]

  Implements-take_turn :
      (queue : List AlertJob) (s : S)
      → AllNamed services.python queue
      → Implements turn
          (record { queue = queue; world = s })
          (worked, take_turn services agents exists listed queue s)
  Implements-take_turn [] s ready =
      (tt, idles refl (record { same_queue = refl; same_board = λ j. refl }))
  Implements-take_turn (job ∷ jobs) s (named, ready) = (
    ready,
    settles job.job_id refl
        (Settles-process services agents exists listed disk unseen quiet job s named).1,
  )

  Implements-handle :
      (e : Event) (g : Gateway S)
      → Ready g
      → Implements e g (handle services agents exists listed e g)
  Implements-handle (alert header payload) g ready = Implements-alert header payload g ready
  Implements-handle turn g ready = Implements-take_turn g.queue g.world ready

  -- The gateway implements the office, event by event, over any sequence of submissions and turns of
  -- the worker. A submission without a header draws an id and is accepted with it, or the source of ids
  -- has raised; one with a header is accepted with that id if it has the form of a trace id, and is
  -- refused with 400 otherwise. An accepted alert opens its id, leaves a result that is there, and waits
  -- last; a turn of the worker settles the job that waits longest, whatever the pipeline did; every
  -- other submission, and a turn with no job, change neither the queue nor the status of a job. The disk
  -- takes what is written, the agents leave the alerts, the results and the report's path alone, and new
  -- ids have the form of a trace id.
  pub serve-OfficeReach :
      (es : List Event) (g : Gateway S)
      → Ready g
      → let (answers, h) = serve services agents exists listed es g in
        OfficeReach services.token_hex (standing h) es answers (standing g)
  serve-OfficeReach [] g ready = done
  serve-OfficeReach (e ∷ es) g ready =
      let (ready', step) = Implements-handle e g ready in
      next step (serve-OfficeReach es (handle services agents exists listed e g).1 ready')
