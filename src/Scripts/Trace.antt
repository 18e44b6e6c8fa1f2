-- ===== src/Scripts/Trace.antt =====
-- scripts/send_real_trace.py: one call under a real trace. Whether the tracer's package is there, the
-- dashboard, and the clients with the tracer in them are parameters; an exception ends the script.
use auto_sentinel.Prelude.{ℕ, String, Bool, true, false, List, [], ◌∷◌, if◌then◌else◌}
use auto_sentinel.Prelude.Int.{ℤ, pos, ltb_ℤ}
use auto_sentinel.Prelude.Strings.{◌+++◌}
use auto_sentinel.Effects.{currency_name, Exec, pure, lift, ◌>>=◌, ◌>>◌}
use auto_sentinel.Python.{Python}
use auto_sentinel.Python.Json.{integer}
use auto_sentinel.Llm.Protocol.{LlmResponse, LlmClient}
use auto_sentinel.Llm.Factory.{AgentModelConfig, Environment, BuiltClient, build_client_for_agent}
use auto_sentinel.Entry.Tracing.{Dashboard, open_parent_trace}
use auto_sentinel.Scripts.Endpoints.{ping}

-- The code of the script, and what it prints on the standard output and on the standard error.
pub record Printed : Type 0 where
  pub code : ℕ
  pub out : List String
  pub errors : List String

module _ {S : Type 0} (py : Python) (env : Environment) (dashboard : Dashboard S)
    (client_of : BuiltClient → LlmClient S) (token_hex : Exec S String) (six_decimals : ℤ → String)
    (tracer_text : String) where
  abbrev told : String → AgentModelConfig → LlmResponse → Printed
  told trace_id cfg resp = record {
    code = if ltb_ℤ (pos 0) resp.cost then 0 else 1;
    out =
        ("Real LLMTracer active: " +++ tracer_text)
        ∷ ("trace_id = " +++ trace_id)
        ∷ ("[supervisor] endpoint="
            +++ cfg.model
            +++ " latency="
            +++ py.show (integer resp.latency_ms)
            +++ "ms tokens="
            +++ py.show (integer resp.prompt_tokens)
            +++ "+"
            +++ py.show (integer resp.completion_tokens)
            +++ " cost="
            +++ six_decimals resp.cost
            +++ " "
            +++ currency_name resp.currency
            +++ (if ltb_ℤ (pos 0) resp.cost
                then ""
                else "   WARNING: cost is 0 — price-table miss!"))
        ∷ ("Span shipped to Langfuse on tracer __exit__. Filter Traces by tag project:auto-sentinel (trace_id="
            +++ trace_id +++ ").")
        ∷ [];
    errors = [];
  }

  abbrev send : String → BuiltClient × AgentModelConfig → Exec S Printed
  send trace_id (client, cfg) = do
    resp ← client_of client (ping "supervisor" trace_id cfg)
    pure (told trace_id cfg resp)

  -- `main`, with whether `LLMTracer` is there.
  unfoldable pub main : Bool → Exec S Printed
  unfolding open_parent_trace build_client_for_agent ◌+++◌
  main false = pure (record {
    code = 1;
    out = [];
    errors =
        "FAIL: llmops_dashboard.LLMTracer is not installed in this env (run: uv sync --extra tracing). No span would be shipped."
        ∷ [];
  })
  main true = do
    trace_id ← token_hex
    open_parent_trace dashboard trace_id "auto-sentinel" "pipeline"
    built ← lift (build_client_for_agent env "supervisor")
    send trace_id built
