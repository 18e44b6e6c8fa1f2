-- ===== src/Tests/Board.antt =====
-- The theorems on the gateway's board, over a disk that is a dict of texts.
use Prim.Native.Char.{code}
use auto_sentinel.Entry.CommandLine.{main}
use auto_sentinel.Api.Board.CommandLine.{main-answered}
use auto_sentinel.Prelude.{
  ℕ, zero, suc, String, ◌≡◌, refl, subst, Bool, true, none, some, List, [], ◌∷◌, if◌then◌else◌,
  nat_eq, arith,
}
use auto_sentinel.Prelude.Dict.{find, find-here}
use auto_sentinel.Prelude.Strings.{◌+++◌, all_chars, is_one_of}
use auto_sentinel.Effects.{ok, Exec, Result, pure}
use auto_sentinel.Python.{Python}
use auto_sentinel.Llm.Protocol.{is_hex, is_trace_id}
use auto_sentinel.State.{AgentState, Update, merge, initial_state}
use auto_sentinel.Nodes.ParseLog
use auto_sentinel.Nodes.Report
use auto_sentinel.Python.Json.{lookup}
use auto_sentinel.Pipeline.{Agents, Services, invoke}
use auto_sentinel.Entry.{run_pipeline}
use auto_sentinel.Entry.Quiet.{QuietAgents}
use auto_sentinel.Api.Results.{incoming_path}
use auto_sentinel.Api.Worker.{AlertJob, process}
use auto_sentinel.Api.Routes.{ingest_alert}
use auto_sentinel.Api.Board.{unknown, answered, Disk, view}
use auto_sentinel.Api.Board.Runs.{store_of, UnseenCalls}
use auto_sentinel.Api.Board.Steps.{Event, accepted, refused, worked, alert, turn, OfficeReach}
use auto_sentinel.Api.Board.Gateway.{Gateway, NamesAlerts, office, serve, serve-OfficeReach}
use auto_sentinel.Tests
use auto_sentinel.Tests.Gateway.{is_there, disk_files, payload}
use auto_sentinel.Tests.Gateway.{Disk as Texts}

abbrev drop_front : ℕ → String → String
drop_front zero s = s
drop_front (suc n) String.[] = ""
drop_front (suc n) (String.◌∷◌ c s) = drop_front n s

abbrev until_dot : String → String
until_dot String.[] = ""
until_dot (String.◌∷◌ c s) =
    let rest = until_dot s in if nat_eq (code c) b'.' then "" else String.◌∷◌ c rest

abbrev stem_of : String → String
stem_of path = until_dot (drop_front 14 path)

until_dot-append : (id : String) → all_chars is_hex id ≡ true → until_dot (id +++ ".json") ≡ id
unfolding ◌+++◌
until_dot-append String.[] h = refl
until_dot-append (String.◌∷◌ c s) h = ground (arith, until_dot-append s)

abbrev python : Python
python = record Tests.python { path_stem = stem_of }

abbrev services : Services Texts
services = record {
  python = python;
  files = disk_files;
  token_hex = pure "0123456789abcdef0123456789abcdef";
  spent = pure (record { bits = 0 });
}

abbrev idle : AgentState → Exec Texts Update
idle st = pure []

abbrev agents : Agents Texts
agents = record {
  diagnosis = idle;
  supervisor = idle;
  code_fixer = idle;
  infra_sre = idle;
  security_reviewer = idle;
  verifier = idle;
  specialist_key = λ category. "code_fixer";
}

abbrev exists : String → Texts → Bool
exists path d = is_there (find path d)

abbrev listed : Texts → List String
listed d = []

disk : Disk (store_of services exists listed)
disk = record {
  takes = λ path raw s. refl;
  written = λ path raw s. rw (find-here path raw s) refl;
  elsewhere = λ path raw q s h. rw h refl;
  makes = λ dir s. refl;
  made = λ dir q s. refl;
  read = λ path q s. refl;
}

unseen : UnseenCalls (store_of services exists listed) services agents
unseen = record {
  token_hex = λ s j. refl;
  spent = λ s j. refl;
  diagnosis = λ st s j. refl;
  supervisor = λ st s j. refl;
  code_fixer = λ st s j. refl;
  infra_sre = λ st s j. refl;
  security_reviewer = λ st s j. refl;
  verifier = λ st s j. refl;
}

quiet : QuietAgents agents
unfolding merge
quiet = record {
  diagnosis = λ st s. (refl, refl, refl);
  supervisor = λ st s. (refl, refl, refl);
  code_fixer = λ st s. (refl, refl, refl);
  infra_sre = λ st s. (refl, refl, refl);
  security_reviewer = λ st s. (refl, refl, refl);
  verifier = λ st s. (refl, refl, refl);
}

hex_of : (id : String) → is_trace_id id ≡ true → all_chars is_hex id ≡ true
unfolding is_trace_id
hex_of id h = ground arith

drawn_id :
    (id : String)
    → ◌≡◌ {A = Result String} (ok "0123456789abcdef0123456789abcdef") (ok id)
    → ◌≡◌ {A = String} "0123456789abcdef0123456789abcdef" id
drawn_id id h = cc

names : NamesAlerts services agents exists listed
unfolding ◌+++◌ is_trace_id
names = record {
  drawn = λ s id h. subst (λ k. is_trace_id k ≡ true) (drawn_id id h) refl;
  stem = λ id h. until_dot-append id (hex_of id h);
}

abbrev job : AlertJob
job = record {
  job_id = "a";
  log_path = incoming_path "a";
  service_name = "auth";
  enqueued_at = "2026-01-01T00:00:00Z";
  trace_id = "a";
}

abbrev closed : Gateway Texts
closed = record { queue = []; world = [] }

abbrev events : List Event
events = alert none payload ∷ turn ∷ alert (some "A") payload ∷ []

serve-OfficeReach_example :
    let (answers, h) = serve services agents exists listed events closed in
    OfficeReach services.token_hex
      (office services agents exists listed h)
      events
      answers
      (office services agents exists listed closed)
serve-OfficeReach_example =
    serve-OfficeReach services agents exists listed disk unseen quiet names events closed tt

-- The first submission is accepted, the worker reports the job whose log cannot be read, and the refused submission leaves no trace.
served :
    let (answers, g) = serve services agents exists listed events closed in
    (answers ≡ accepted "0123456789abcdef0123456789abcdef" ∷ worked ∷ refused 400 ∷ [])
    × (g.queue ≡ [])
    × (view (store_of services exists listed) g.world "0123456789abcdef0123456789abcdef" ≡ answered)
    × (view (store_of services exists listed) g.world "A" ≡ unknown)
unfolding ingest_alert process run_pipeline ◌+++◌ invoke initial_state ParseLog.parse_log
served = (refl, refl, refl, refl)

-- A log that JSON reads.
abbrev logged : Texts
logged = (incoming_path "a", "log") ∷ []

main-answered_example :
    view
      (store_of services exists listed)
      (main services agents exists (incoming_path "a") logged).1
      "a"
    ≡ answered
unfolding main run_pipeline ◌+++◌ invoke initial_state ParseLog.parse_log is_one_of lookup
    Report.format_report Report.analysis_dict Report.log_dict
main-answered_example =
    main-answered services agents exists listed disk unseen quiet (incoming_path "a") logged refl
