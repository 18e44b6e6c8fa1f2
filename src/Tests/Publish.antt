-- ===== src/Tests/Publish.antt =====
-- The theorems on the summary and the mock agents of scripts/run_benchmark.py at one scenario.
use auto_sentinel.Prelude.{none, [], ◌∷◌}
use auto_sentinel.Benchmark.Publish.{Desk, run}
use auto_sentinel.Benchmark.Publish.Totals.{Totalled, run-Totalled}
use auto_sentinel.Scripts.Authorship.{called_process_error}
use auto_sentinel.Prelude.{String, if◌then◌else◌}
use auto_sentinel.Prelude.Int.{pos}
use auto_sentinel.Prelude.Strings.{◌==◌}
use auto_sentinel.Effects.{ok, pure}
use auto_sentinel.Python.{Python}
use auto_sentinel.Python.Json.{Value, object, field}
use auto_sentinel.Agents.Verifier.{Docker}
use auto_sentinel.Benchmark.Mock.{Mocks, pair}
use auto_sentinel.Tests.{World, idle, services, python}
use auto_sentinel.Tests.Benchmark.{
  agents, guard, elapsed, describe, catalog, arithmetic, interpolation,
}

abbrev desk : Desk World
desk = record {
  set_env = λ key value w. w;
  reset_guard = λ w. record w { calls = 0 };
  stamp = λ w. "20260101-000000";
  git = λ command. called_process_error;
  dumps_line = λ v. "{}";
  zero_rate = record { bits = 0 };
}

run-Totalled_example :
    Totalled
      (run services agents guard elapsed describe
        (catalog ("001.yaml" ∷ []))
        desk
        arithmetic
        interpolation
        "150"
        none
        "benchmarks/results"
        idle).0
run-Totalled_example =
    run-Totalled services agents guard elapsed describe (catalog ("001.yaml" ∷ [])) desk arithmetic
      interpolation "150" none "benchmarks/results" idle

abbrev category_reply : Value
category_reply = pair "category" "SECURITY" "reasoning" "benchmark mock"

abbrev specialist_reply : Value
specialist_reply = pair "specialist" "code_fixer" "rationale" "benchmark mock routing"

abbrev first_key : Value → String
first_key (object (field k v rest)) = k
first_key v = ""

abbrev mock_python : Python
mock_python = record python {
  loads = λ s. ok (if s == "category" then category_reply else specialist_reply);
}

abbrev mock_docker : Docker (Mocks × World)
mock_docker = record {
  make_workdir = pure "/tmp/autosentinel-0";
  remove_workdir = λ dir. pure tt;
  write_fix = λ dir code. pure tt;
  start = λ dir. pure 0;
  wait = λ c. pure (pos 0);
  logs_stdout = λ c. pure "";
  logs_stderr = λ c. pure "";
  kill = λ c. pure tt;
  remove = λ c. pure tt;
  clock = λ w. 0;
}
