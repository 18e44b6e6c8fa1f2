-- ===== src/Benchmark/Mock.antt =====
-- scripts/run_benchmark.py: the agents of a mock run, each on a client of its own that gives one reply.
pub mod Expected
use auto_sentinel.Prelude.{String, Bool, none, some, ◌||◌, if◌then◌else◌}
use auto_sentinel.Prelude.Int.{pos}
use auto_sentinel.Prelude.Strings.{◌+++◌, ◌==◌}
use auto_sentinel.Effects.{cny}
use auto_sentinel.Python.{Python}
use auto_sentinel.Python.Json.{Value, text, object, field, end}
use auto_sentinel.Llm.Protocol.{LlmRequest, LlmResponse, LlmClient}
use auto_sentinel.Llm.Factory.{AgentModelConfig}
use auto_sentinel.Llm.Mock.{MockLlmClient, new, with_fixture_response, complete}
use auto_sentinel.Agents.Verifier.{Docker}
use auto_sentinel.Pipeline.{Agents}
use auto_sentinel.Pipeline.Production.{production}
use auto_sentinel.Benchmark.{BenchmarkScenario}

-- The clients of a scenario's agents.
pub record Mocks : Type 0 where
  pub diagnosis : MockLlmClient
  pub supervisor : MockLlmClient
  pub code_fixer : MockLlmClient
  pub infra_sre : MockLlmClient
  pub security_reviewer : MockLlmClient

abbrev pub fixture : String → LlmResponse
fixture content = record {
  content = content;
  model = "mock";
  prompt_tokens = pos 1;
  completion_tokens = pos 1;
  cost = pos 0;
  currency = cny;
  latency_ms = pos 0;
  trace_id = "00000000000000000000000000000000";
}

-- `_client`
abbrev pub client_with : String → MockLlmClient
client_with content = record new { fixture_response = some (fixture content) }

-- `cfg`
abbrev pub mock_config : AgentModelConfig
mock_config = record {
  model = "mock";
  temperature = pos 0;
  max_tokens = pos 512;
  endpoint_alias = "";
}

-- `specialist`
abbrev pub specialist_for : String → String
specialist_for classification =
    if (classification == "INFRA") || (classification == "CONFIG")
    then "infra_sre"
    else "code_fixer"

abbrev pub pair : String → String → String → String → Value
pair k v j w = object (field k (text v) (field j (text w) end))

module _ (py : Python) (dumps_line : Value → String) where
  -- `mock_artifact`
  abbrev pub mock_artifact : BenchmarkScenario → String
  mock_artifact x = "print(" +++ py.repr x.expected_resolution_action +++ ")"

  abbrev pub diagnosis_reply : BenchmarkScenario → String
  diagnosis_reply x =
      dumps_line (pair "category" x.expected_classification "reasoning" "benchmark mock")

  abbrev pub supervisor_reply : BenchmarkScenario → String
  supervisor_reply x = dumps_line (
      pair "specialist" (specialist_for x.expected_classification) "rationale"
        "benchmark mock routing")

  abbrev pub reviewer_reply : BenchmarkScenario → String
  reviewer_reply x =
      dumps_line (pair "verdict" x.expected_security_verdict "reasoning" "benchmark mock")

  -- The clients as `_build_mock_agents` makes them.
  unfoldable pub mocks_of : BenchmarkScenario → Mocks
  unfolding ◌+++◌
  mocks_of x = record {
    diagnosis = client_with (diagnosis_reply x);
    supervisor = client_with (supervisor_reply x);
    code_fixer = client_with (mock_artifact x);
    infra_sre = client_with (mock_artifact x);
    security_reviewer = client_with (reviewer_reply x);
  }

module _ {S : Type 0} where
  abbrev pub diagnosis_client : LlmClient (Mocks × S)
  diagnosis_client req (m, s) =
      let (r, c) = complete req m.diagnosis in (r, (record m { diagnosis = c }, s))

  abbrev pub supervisor_client : LlmClient (Mocks × S)
  supervisor_client req (m, s) =
      let (r, c) = complete req m.supervisor in (r, (record m { supervisor = c }, s))

  abbrev pub code_fixer_client : LlmClient (Mocks × S)
  code_fixer_client req (m, s) =
      let (r, c) = complete req m.code_fixer in (r, (record m { code_fixer = c }, s))

  abbrev pub infra_sre_client : LlmClient (Mocks × S)
  infra_sre_client req (m, s) =
      let (r, c) = complete req m.infra_sre in (r, (record m { infra_sre = c }, s))

  abbrev pub reviewer_client : LlmClient (Mocks × S)
  reviewer_client req (m, s) =
      let (r, c) = complete req m.security_reviewer in (r, (record m { security_reviewer = c }, s))

  -- The dict of `_build_mock_agents`, with the real verifier.
  unfoldable pub mock_agents : Python → Docker (Mocks × S) → Agents (Mocks × S)
  unfolding complete
  mock_agents py docker = production py docker (record {
    diagnosis = record { client = diagnosis_client; config = mock_config };
    supervisor = record { client = supervisor_client; config = mock_config };
    code_fixer = record { client = code_fixer_client; config = mock_config };
    infra_sre = record { client = infra_sre_client; config = mock_config };
    security_reviewer = record { client = reviewer_client; config = mock_config };
  })
