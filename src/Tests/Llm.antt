-- ===== src/Tests/Llm.antt =====
-- The theorems on autosentinel/llm at concrete calls.
use auto_sentinel.Prelude.{◌≡◌, refl, none, some, List, [], ◌∷◌, arith}
use auto_sentinel.Prelude.Int.{pos, ◌+ℤ◌}
use auto_sentinel.Effects.{cny, usd, ok}
use auto_sentinel.Llm.CostGuard.{CostGuardState, accumulate, get_cost_guard}
use auto_sentinel.Llm.CostGuard.Ledger.{
  Charge, charge_all, charge_until_raise, Books, Spends, Trips, charge_all-Books,
  tripped_stays_tripped, overrun_bounded,
}
use auto_sentinel.Llm.Protocol.{
  user, LlmRequest, make_request, request_valid, make_response, response_valid,
}
use auto_sentinel.Llm.Client.{
  SdkReply, completion, timed_out, Process, Platform, Vendor, glm_pricing, compute_cost,
  invoke_with_retry, charge, settle, complete,
}
use auto_sentinel.Llm.Client.Billing.{requests_of, sent-complete}

abbrev guard : CostGuardState
guard = record {
  total_spent = pos 0;
  budget_limit = pos 10;
  currency = cny;
  call_count = 0;
  last_updated = none;
}

abbrev charges : List Charge
charges =
    (record { now = 1; cost = pos 6; currency = cny })
    ∷ (record { now = 2; cost = pos 100; currency = usd })
    ∷ (record { now = 3; cost = pos 7; currency = cny })
    ∷ []

charge_all-Books_example : Books guard charges (charge_all charges guard)
charge_all-Books_example = charge_all-Books charges guard

abbrev tripped : CostGuardState
tripped = record guard { total_spent = pos 13 }

abbrev late : Charge
late = record { now = 9; cost = pos 0; currency = cny }

tripped_stays_tripped_example :
    Trips (accumulate late.now late.cost late.currency (charge_all charges tripped)).0
tripped_stays_tripped_example =
    tripped_stays_tripped charges late tripped (ground arith)
      (ground arith, (ground arith, (ground arith, tt))) (ground arith) refl

abbrev yuan_charges : List Charge
yuan_charges =
    (record { now = 1; cost = pos 6; currency = cny })
    ∷ (record { now = 3; cost = pos 7; currency = cny })
    ∷ []

overrun_bounded_example : Spends (pos 7) guard (charge_until_raise yuan_charges guard)
overrun_bounded_example =
    overrun_bounded (pos 7) yuan_charges guard (ground arith) (ground arith, (ground arith, tt))
      (ground arith)

-- A provider that times out on the first request and then answers.
abbrev answer : List LlmRequest → SdkReply
answer [] = timed_out "read timeout"
answer (r ∷ rs) = completion (some "ok") (pos 10) (pos 5)

abbrev pub platform : Platform
platform = record {
  create = λ sent r. answer sent;
  latency = λ sent. 20;
  now = λ sent. 1;
  per_million = λ n. record { bits = 1 };
  hundredths = λ n. record { bits = n };
  mul_float = λ a b. b;
  add_float = λ a b. a;
  decimal_of_float = λ a. pos 4;
  decimal = λ s. ok (pos 150);
  budget_env = none;
}

abbrev vendor : Vendor
vendor = record {
  prices = glm_pricing;
  timeout_text = "timed out: ";
  status_text = "status: ";
  api_text = "error: ";
}

abbrev request : LlmRequest
request = record {
  messages = (record { role = user; content = "hello" }) ∷ [];
  model = "glm-4.7";
  trace_id = "0123456789abcdef0123456789abcdef";
  agent_name = "diagnosis";
  max_tokens = pos 100;
  temperature = pos 0;
}

abbrev pub process : Process
process = record { guard = some guard; sent = [] }

sent-complete_example :
    (complete platform vendor request process).1.sent ≡ requests_of platform request process
sent-complete_example = sent-complete platform vendor request process

-- The second attempt answers, and the answer is billed.
retried :
    let (r, w) = complete platform vendor request process in
    (w.sent ≡ request ∷ request ∷ [])
    × (w.guard ≡ some (record guard { total_spent = pos 4; call_count = 1; last_updated = some 1 }))
unfolding complete make_request request_valid settle invoke_with_retry make_response response_valid
    compute_cost charge get_cost_guard accumulate ◌+ℤ◌
retried = (refl, refl)
