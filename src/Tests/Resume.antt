-- ===== src/Tests/Resume.antt =====
-- The theorems on the checkpointer and on the resume route, with a saver named by a text: the ones in
-- memory hold nothing, the one of a database holds every incident.
use auto_sentinel.Prelude.{String, ◌≡◌, refl, none, some, [], if◌then◌else◌, ◌+◌}
use auto_sentinel.Prelude.Strings.{◌==◌, ◌+++◌}
use auto_sentinel.Effects.{ok, pure}
use auto_sentinel.Pipeline.Checkpoints.{Process, Savers}
use auto_sentinel.Api.Routes.{http_error}
use auto_sentinel.Api.Resume.{ResumeRequest, Graph, resume_incident, resume_without_dsn}
use auto_sentinel.Tests.{World, idle, python, fresh}

abbrev savers : Savers String World
savers = record {
  memory_saver = λ w. ("memory", record w { written = w.written + 1 });
  open_postgres = λ dsn. pure dsn;
  close_postgres = λ dsn. pure tt;
}

abbrev graph : Graph String World
graph = record {
  get_state = λ saver id w. if saver == "memory" then none else some fresh;
  invoke_resume = λ saver value id. pure fresh;
}

abbrev process : Process String World
process = record { postgres_savers = []; open_checkpointer_cms = []; world = idle }

abbrev body : ResumeRequest
body = record { decision = "approve"; reviewer_notes = "" }

resume_without_dsn_example : resume_incident python savers graph none "incident" body process ≡ (
  ok (http_error 404 ("no resumable incident " +++ python.repr "incident")),
  record process { world = (savers.memory_saver idle).1 },
)
resume_without_dsn_example =
    resume_without_dsn python savers graph none "incident" body process (λ w id. refl) tt
