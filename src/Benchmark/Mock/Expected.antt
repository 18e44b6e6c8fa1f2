-- ===== src/Benchmark/Mock/Expected.antt =====
-- The mock agents of scripts/run_benchmark.py say what a scenario expects.
use auto_sentinel.Prelude.{String, ◌≡◌, Option}
use auto_sentinel.Effects.{Result, ok, err}
use auto_sentinel.Python.{Python}
use auto_sentinel.Python.Json.{Value}
use auto_sentinel.State.{AgentState, Update, merge}
use auto_sentinel.Llm.Mock
use auto_sentinel.Agents.Diagnosis
use auto_sentinel.Agents.Supervisor
use auto_sentinel.Benchmark.{BenchmarkScenario}
use auto_sentinel.Benchmark.Mock.{pair, diagnosis_reply, supervisor_reply, specialist_for}

-- The category in the state that an update leaves.
abbrev pub category_after : AgentState → Result Update → Option String
category_after st (ok u) = (merge u st).error_category
category_after st (err e) = st.error_category

-- The specialist in the state that an update leaves.
abbrev pub specialist_after : AgentState → Result Update → Option String
specialist_after st (ok u) = (merge u st).specialist
specialist_after st (err e) = st.specialist

-- JSON reads back the two replies of a scenario.
pub record ReadsBack (py : Python) (dumps_line : Value → String) (x : BenchmarkScenario)
    : Type 0 where
  pub diagnosis :
      py.loads (diagnosis_reply py dumps_line x)
      ≡ ok (pair "category" x.expected_classification "reasoning" "benchmark mock")
  pub supervisor :
      py.loads (supervisor_reply py dumps_line x)
      ≡ ok (
          pair "specialist"
            (specialist_for x.expected_classification)
            "rationale"
            "benchmark mock routing")
