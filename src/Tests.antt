-- ===== src/Tests.antt =====
-- A small world on which the theorems are run: a model that answers each agent by its name, a docker
-- with a single slot for a container, files that are always there.
mod Llm
mod Agents
mod Pipeline
mod Gateway
mod Factory
mod Benchmark
mod Resume
mod Holdout
mod Scripts
mod Tracing
mod Publish
mod Board
use auto_sentinel.Prelude.{
  ℕ, ◌+◌, String, ◌≡◌, refl, Bool, true, false, ◌&&◌, Option, none, some, List, [], ◌∷◌,
  if◌then◌else◌, nat_eq, arith,
}
use auto_sentinel.Prelude.Int.{ℤ, pos}
use auto_sentinel.Prelude.Strings.{◌==◌, ◌+++◌, starts}
use auto_sentinel.Effects.{cny, Exc, json_decode_error, os_error, Result, ok, err, Exec, pure, lift}
use auto_sentinel.Python.{Python, Compiled, compiles, syntax_error}
use auto_sentinel.Python.Json.{Value, text, object, field, end}
use auto_sentinel.Llm.Protocol.{LlmRequest, LlmResponse, LlmClient}
use auto_sentinel.Llm.Client.{Float}
use auto_sentinel.Llm.Factory.{AgentModelConfig}
use auto_sentinel.State.{AgentState, initial_state}
use auto_sentinel.Nodes.Files.{Files}
use auto_sentinel.Agents.Verifier.{Docker}
use auto_sentinel.Agents.Verifier.Containers.{RunsContainers}
use auto_sentinel.Pipeline.{Services}
use auto_sentinel.Pipeline.Production.{Model, Models}

-- The model's calls so far, whether the container's slot is taken, and the number of files written.
pub record World : Type 0 where
  pub calls : ℕ
  pub busy : Bool
  pub written : ℕ

abbrev pub idle : World
idle = record { calls = 0; busy = false; written = 0 }

-- The log, and the replies of a model to each agent.
abbrev pub log : Value
log = object (
    field "timestamp" (text "2026-01-01") (
      field "service_name" (text "auth")
        (field "error_type" (text "KeyError") (field "message" (text "no token") end))))

abbrev pub replies : List (String × Value)
replies =
    ("log", log)
    ∷ ("category", object (field "category" (text "INFRA") end))
    ∷ (
      "route",
      object (field "specialist" (text "infra_sre") (field "rationale" (text "network") end)),
    )
    ∷ ("safe", object (field "verdict" (text "SAFE") end))
    ∷ []

abbrev pub find : String → List (String × Value) → Result Value
find s [] = err (json_decode_error "Expecting value")
find s ((k, v) ∷ rest) = if k == s then ok v else find s rest

abbrev pub compile : String → Compiled
compile s =
    if starts "return" s then syntax_error "'return' outside function (<fix>, line 1)" else compiles

abbrev pub python : Python
python = record {
  loads = λ s. find s replies;
  dumps = λ v. "{}";
  dumps_line = λ v. "{}";
  show = λ v. "value";
  show_decimal = λ n. "0";
  repr = λ s. "'" +++ s +++ "'";
  compile = compile;
  lower = λ s. s;
  indent = λ s. "    " +++ s;
  path_text = λ s. s;
  path_name = λ s. s;
  path_stem = λ s. s;
}

abbrev pub content_for : String → String → String
content_for fix name =
    if name == "diagnosis"
    then "category"
    else if name == "supervisor"
    then "route"
    else if name == "security_reviewer"
    then "safe"
    else fix

-- A model that proposes the same fix whenever it is asked for one.
abbrev pub model : String → LlmClient World
model fix req w = (
  ok (record {
    content = content_for fix req.agent_name;
    model = req.model;
    prompt_tokens = pos 10;
    completion_tokens = pos 5;
    cost = pos 3;
    currency = cny;
    latency_ms = pos 20;
    trace_id = req.trace_id;
  }),
  record w { calls = w.calls + 1 },
)

abbrev pub config : AgentModelConfig
config = record {
  model = "glm-4.7";
  temperature = pos 0;
  max_tokens = pos 1024;
  endpoint_alias = "glm";
}

abbrev pub models : String → Models World
models fix =
    let m : Model World = record { client = model fix; config = config } in
    record { diagnosis = m; supervisor = m; code_fixer = m; infra_sre = m; security_reviewer = m }

abbrev pub done : Exec World (Unit {0})
done = pure tt

abbrev pub files : Files World
files = record {
  read_text = λ path. pure "log";
  write_text = λ path s w. (ok tt, record w { written = w.written + 1 });
  make_dir = λ path. done;
  resolve = λ path. path;
  utc_now = λ w. "2026-01-01T00:00:00Z";
  percent = λ c. "90%";
}

abbrev pub services : Services World
services = record {
  python = python;
  files = files;
  token_hex = pure "0123456789abcdef0123456789abcdef";
  spent = pure (record { bits = 7 });
}

-- The one slot has the number 0; a container exits with the code 0.
abbrev pub docker : Docker World
docker = record {
  make_workdir = pure "/tmp/autosentinel-0";
  remove_workdir = λ dir. done;
  write_fix = λ dir code. done;
  start =
      λ dir w. if w.busy then (err (os_error "no slot"), w) else (ok 0, record w { busy = true });
  wait = λ c. pure (pos 0);
  logs_stdout = λ c. pure "fixed";
  logs_stderr = λ c. pure "";
  kill = λ c. done;
  remove = λ c w. (ok tt, if nat_eq c 0 then record w { busy = false } else w);
  clock = λ w. 0;
}

abbrev pub running : World → ℕ → Bool
running w k = w.busy && nat_eq k 0

-- What the theorem on containers asks of docker holds of this one.
pub docker-RunsContainers : RunsContainers docker running
docker-RunsContainers = record {
  make_workdir = λ s k. refl;
  remove_workdir = λ d s k. refl;
  write_fix = λ d code s k. refl;
  start_fails = λ d s e k h. ground arith;
  start_is_new = λ d s c h. ground arith;
  start_keeps = λ d s c k h ne. ground arith;
  wait_others = λ c s k ne. refl;
  logs_stdout = λ c s k ne. refl;
  logs_stderr = λ c s k ne. refl;
  kill = λ c s k ne. refl;
  remove_self = λ c s h. ground arith;
  remove_others = λ c s k ne. ground arith;
}

abbrev pub fresh : AgentState
fresh = initial_state "/logs/a.json" (some "0123456789abcdef0123456789abcdef")
