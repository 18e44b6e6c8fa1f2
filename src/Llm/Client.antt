-- ===== src/Llm/Client.antt =====
-- autosentinel/llm/ark_client.py and glm_client.py: the two provider clients. They differ in the
-- price table and in the texts of their errors, which `Vendor` holds. The provider, the clock, the
-- floating-point operations and the reader of decimals are parameters; the optional tracer is
-- absent (`LLMTracer = None`).
pub mod Billing
use auto_sentinel.Prelude.{
  ℕ, ◌+◌, String, Bool, true, false, Option, none, some, List, [], ◌∷◌, if◌then◌else◌,
}
use auto_sentinel.Prelude.Int.{ℤ, pos}
use auto_sentinel.Prelude.Strings.{◌==◌, ◌+++◌}
use auto_sentinel.Effects.{
  Currency, cny, Exc, llm_timeout_error, llm_provider_error, Result, ok, err, Exec, pure, raise,
  lift, ◌>>=◌, ◌>>◌,
}
use auto_sentinel.Llm.Protocol.{LlmRequest, LlmResponse, make_request, make_response, LlmClient}
use auto_sentinel.Llm.CostGuard.{CostGuardState, accumulate, get_cost_guard}

-- A double, by its bit pattern: the program only passes doubles on to the operations below.
pub record Float : Type 0 where
  pub bits : ℕ

-- What one call of `chat.completions.create` comes to: a completion with its first choice's
-- content and its token counts, a timeout, an error of the provider, or any other exception.
pub data SdkReply : Type 0 where
  completion : Option String → ℤ → ℤ → SdkReply
  timed_out status_error api_error : String → SdkReply
  raised : Exc → SdkReply

-- The process as the clients see it: the guard's singleton, and the requests sent so far.
pub record Process : Type 0 where
  pub guard : Option CostGuardState
  pub sent : List LlmRequest

-- What the clients use and do not implement.
pub record Platform : Type 0 where
  -- The provider's reply may depend on all earlier requests.
  pub create : List LlmRequest → LlmRequest → SdkReply
  -- `time.monotonic` around a call, in milliseconds, and the time of day.
  pub latency : List LlmRequest → ℕ
  pub now : List LlmRequest → ℕ
  -- `n / 1_000_000`, the literal of so many hundredths, `*`, `+`, and `Decimal(str(x))`.
  pub per_million : ℤ → Float
  pub hundredths : ℕ → Float
  pub mul_float : Float → Float → Float
  pub add_float : Float → Float → Float
  pub decimal_of_float : Float → ℤ
  -- `Decimal(text)`, and the environment variable AUTOSENTINEL_BUDGET_LIMIT_CNY.
  pub decimal : String → Result ℤ
  pub budget_env : Option String

-- Prices per million tokens, in hundredths of CNY.
pub record Price : Type 0 where
  pub input : ℕ
  pub output : ℕ

-- A client's price table, and the texts of its three errors.
pub record Vendor : Type 0 where
  pub prices : List (String × Price)
  pub timeout_text : String
  pub status_text : String
  pub api_text : String

-- `_ARK_PRICING_CNY_PER_M`
abbrev pub ark_pricing : List (String × Price)
ark_pricing =
    ("ep-20260508052205-6x8hm", record { input = 30; output = 60 })
    ∷ ("doubao-1.5-lite-32k", record { input = 30; output = 60 })
    ∷ ("ep-20260508052420-fwq5q", record { input = 320; output = 1600 })
    ∷ ("doubao-seed-2.0-pro", record { input = 320; output = 1600 })
    ∷ []

-- `_GLM_PRICING_CNY_PER_M`
abbrev pub glm_pricing : List (String × Price)
glm_pricing =
    ("ep-20260508052924-6zchc", record { input = 300; output = 1400 })
    ∷ ("glm-4.7", record { input = 300; output = 1400 })
    ∷ []

-- `prices.get(model, {"input": 0.0, "output": 0.0})`
unfoldable pub price_of : String → List (String × Price) → Price
price_of model [] = record { input = 0; output = 0 }
price_of model ((m, p) ∷ rest) = if model == m then p else price_of model rest

-- `content or ""`
abbrev pub text_or_empty : Option String → String
text_or_empty none = ""
text_or_empty (some s) = s

module _ (platform : Platform) where
  open platform use {
    create, latency, now, per_million, hundredths, mul_float, add_float, decimal_of_float, decimal,
    budget_env,
  }

  -- `_compute_cost`, with the sum and the conversion that `complete` makes of it.
  unfoldable pub compute_cost : List (String × Price) → String → ℤ → ℤ → ℤ
  compute_cost prices model prompt completed =
      let p = price_of model prices in
      let input_cost = mul_float (per_million prompt) (hundredths p.input) in
      let output_cost = mul_float (per_million completed) (hundredths p.output) in
      decimal_of_float (add_float input_cost output_cost)

  abbrev pub send : LlmRequest → Process → SdkReply × Process
  send req w = (create w.sent req, record w { sent = req ∷ w.sent })

  -- `_invoke_with_retry`: a second attempt after a timeout, and no third.
  unfoldable pub invoke_with_retry : LlmRequest → Process → SdkReply × Process
  invoke_with_retry req w =
      let (first, w') = send req w in
      elim first [ timed_out text ↦ send req w' | other ↦ (other, w') ]

  -- `get_cost_guard().accumulate(cost, "CNY")`, on the singleton.
  unfoldable pub charge : ℤ → Exec Process (Unit {0})
  charge cost w =
      let (got, made) = get_cost_guard decimal budget_env w.guard in
      elim got [
        | err e ↦ (err e, record w { guard = made })
        | ok g ↦
            let (r, g') = accumulate (now w.sent) cost cny g in (r, record w { guard = some g' })
      ]

  -- The fields that `complete` gives to `LLMResponse`.
  abbrev pub response_of : Vendor → LlmRequest → Option String → ℤ → ℤ → Process → LlmResponse
  response_of v req content prompt completed w = record {
    content = text_or_empty content;
    model = req.model;
    prompt_tokens = prompt;
    completion_tokens = completed;
    cost = compute_cost v.prices req.model prompt completed;
    currency = cny;
    latency_ms = pos (latency w.sent);
    trace_id = req.trace_id;
  }

  -- What `complete` does with the provider's reply.
  unfoldable pub settle : Vendor → LlmRequest → SdkReply → Exec Process LlmResponse
  settle v req (completion content prompt completed) = do
    response ← λ w. (make_response (response_of v req content prompt completed w), w)
    charge response.cost
    pure response
  settle v req (timed_out text) = raise (llm_timeout_error (v.timeout_text +++ text))
  settle v req (status_error text) = raise (llm_provider_error (v.status_text +++ text))
  settle v req (api_error text) = raise (llm_provider_error (v.api_text +++ text))
  settle v req (raised e) = raise e

  -- `complete`
  unfoldable pub complete : Vendor → LlmClient Process
  complete v r = do
    req ← lift (make_request r)
    reply ← λ w. let (reply, w') = invoke_with_retry req w in (ok reply, w')
    settle v req reply

  -- `ArkLLMClient.complete`
  unfoldable pub ark_complete : LlmClient Process
  unfolding complete
  ark_complete = complete (record {
    prices = ark_pricing;
    timeout_text = "Ark request timed out after 2 attempts: ";
    status_text = "Ark provider returned error status: ";
    api_text = "Ark API error: ";
  })

  -- `GlmLLMClient.complete`
  unfoldable pub glm_complete : LlmClient Process
  unfolding complete
  glm_complete = complete (record {
    prices = glm_pricing;
    timeout_text = "GLM request timed out after 2 attempts: ";
    status_text = "GLM provider returned error status: ";
    api_text = "GLM API error: ";
  })
