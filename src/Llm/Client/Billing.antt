-- ===== src/Llm/Client/Billing.antt =====
-- What the clients of autosentinel/llm/ark_client.py and glm_client.py send and bill.
use auto_sentinel.Prelude.{
  String, ◌+◌, ◌≡◌, refl, inl, inr, ◌⊎◌, Option, Bool, true, false, Bool-cases, some, List, ◌∷◌,
  if◌then◌else◌, arith,
}
use auto_sentinel.Prelude.Int.{ℤ, pos, ◌+ℤ◌, ◌≤ℤ◌, ◌<ℤ◌}
use auto_sentinel.Effects.{CostGuardError, cost_guard_error, Result, ok, err}
use auto_sentinel.Llm.Protocol.{
  LlmRequest, LlmResponse, make_request, request_valid, make_response, response_valid,
}
use auto_sentinel.Llm.CostGuard.{CostGuardState}
use auto_sentinel.Llm.Client.{
  SdkReply, completion, timed_out, raised, Process, Platform, Vendor, compute_cost, response_of,
  invoke_with_retry, charge, settle, complete,
}

abbrev pub is_completion : SdkReply → Bool
is_completion (completion content m n) = true
is_completion other = false

abbrev pub is_timeout : SdkReply → Bool
is_timeout (timed_out text) = true
is_timeout other = false

module _ (p : Platform) where
  -- The requests that a call sends.
  abbrev pub requests_of : LlmRequest → Process → List LlmRequest
  requests_of r w =
      if request_valid r
      then if is_timeout (p.create w.sent r) then r ∷ r ∷ w.sent else r ∷ w.sent
      else w.sent

  sent-invoke_with_retry :
      (r : LlmRequest) (w : Process)
      → (invoke_with_retry p r w).1.sent
        ≡ (if is_timeout (p.create w.sent r) then r ∷ r ∷ w.sent else r ∷ w.sent)
  unfolding invoke_with_retry
  sent-invoke_with_retry r w = ground arith

  sent-charge : (cost : ℤ) (w : Process) → (charge p cost w).1.sent ≡ w.sent
  unfolding charge
  sent-charge cost w = ground arith

  sent-settle :
      (v : Vendor) (r : LlmRequest) (x : SdkReply) (w : Process)
      → (settle p v r x w).1.sent ≡ w.sent
  unfolding settle make_response
  sent-settle v r (completion c m n) w =
      elim (Bool-cases (response_valid (response_of p v r c m n w))) [
        | inl valid ↦ rw valid (ground (arith, sent-charge (compute_cost p v.prices r.model m n) w))
        | inr other ↦ rw other
      ]
  sent-settle v r (timed_out t) w = refl
  sent-settle v r x w = refl

  -- A call of a client sends nothing if the request is not valid; otherwise it sends the request
  -- once, or twice if the first attempt timed out, whatever comes back.
  pub sent-complete :
      (v : Vendor) (r : LlmRequest) (w : Process) → (complete p v r w).1.sent ≡ requests_of r w
  unfolding complete make_request
  sent-complete v r w = ground (
    arith,
    sent-invoke_with_retry r w,
    sent-settle v r (invoke_with_retry p r w).0 (invoke_with_retry p r w).1,
  )

  -- The SDK does not raise the program's own `CostGuardError`.
  abbrev pub IsForeign : Type 0
  IsForeign =
      (sent : List LlmRequest) (r : LlmRequest) (c : CostGuardError)
      → ¬ (p.create sent r ≡ raised (cost_guard_error c))

  -- The provider has answered, at the price `cost`.
  abbrev pub Priced : Vendor → LlmRequest → SdkReply → ℤ → Type 0
  Priced v r reply cost =
      (content : Option String) × (m : ℤ) × (n : ℤ) × (reply ≡ completion content m n)
      × (cost ≡ compute_cost p v.prices r.model m n)

  -- One call of the price `cost` has been billed to the guard `g`, which is `h` then.
  abbrev pub Charged : CostGuardState → ℤ → CostGuardState → Type 0
  Charged g cost h = (h.total_spent ≡ g.total_spent +ℤ cost) × (h.call_count ≡ g.call_count + 1)

  -- Why nothing was billed: the request is not valid, the provider has given no completion, or the
  -- response does not fit its schema.
  abbrev pub Unpriced : Vendor → LlmRequest → SdkReply → Type 0
  Unpriced v r reply =
      (request_valid r ≡ false)
      ⊎ (is_completion reply ≡ false)
      ⊎ ((content : Option String) × (m : ℤ) × (n : ℤ) × (w : Process) × (reply
            ≡ completion content m n)
          × (response_valid (response_of p v r content m n w) ≡ false))

  -- How a call that began with the guard `g` in place may end, by the provider's last reply: its
  -- completion has been billed in full and the total is within the limit; a `CostGuardError` has
  -- billed the completion too, past the limit; with any other exception nothing was billed.
  abbrev pub Billed :
      Vendor → LlmRequest → SdkReply → CostGuardState → Result LlmResponse × Process → Type 0
  Billed v r reply g (ok x, w) =
      (h : CostGuardState) × (w.guard ≡ some h)
      × Priced v r reply x.cost
      × Charged g x.cost h
      × (pos 0 ≤ℤ x.cost)
      × (h.total_spent ≤ℤ g.budget_limit)
  Billed v r reply g (err (cost_guard_error c), w) =
      (h : CostGuardState) × (w.guard ≡ some h)
      × Priced v r reply c.attempted_amount
      × Charged g c.attempted_amount h
      × (h.total_spent ≡ c.current_spent)
      × (g.budget_limit <ℤ h.total_spent)
  Billed v r reply g (err e, w) = (w.guard ≡ some g) × Unpriced v r reply
