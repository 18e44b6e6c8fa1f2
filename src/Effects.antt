-- ===== src/Effects.antt =====
-- Python's exceptions, and the calls that mutate an object and may raise. The exceptions of
-- autosentinel/llm/errors.py stand beside those of the standard library that the program names.
pub mod Frame
use auto_sentinel.Prelude.{String, Bool, true, false}
use auto_sentinel.Prelude.Int.{ℤ}
use auto_sentinel.Prelude.Strings.{◌+++◌}

-- `Currency` of autosentinel/llm/protocol.py.
pub data Currency : Type 0 where
  cny usd : Currency

abbrev pub currency_name : Currency → String
currency_name cny = "CNY"
currency_name usd = "USD"

abbrev pub same_currency : Currency → Currency → Bool
same_currency cny cny = true
same_currency usd usd = true
same_currency _ _ = false

-- The attributes of `CostGuardError`.
pub record CostGuardError : Type 0 where
  pub current_spent : ℤ
  pub attempted_amount : ℤ
  pub budget_limit : ℤ
  pub currency : Currency

-- A constructor for each exception class that some handler tells apart; a text is the message.
pub data Exc : Type 0 where
  cost_guard_error : CostGuardError → Exc
  llm_timeout_error llm_provider_error configuration_error : String → Exc
  json_decode_error attribute_error type_error key_error file_not_found diagnostic_error :
      String → Exc
  value_error runtime_error os_error read_timeout other_error : String → Exc

-- `str(exc)`, with the text of a `Decimal` given.
unfoldable pub message : (ℤ → String) → Exc → String
message show (cost_guard_error e) =
    let c = currency_name e.currency in
    "CostGuard tripped: spent="
    +++ show e.current_spent
    +++ c
    +++ " + attempted="
    +++ show e.attempted_amount
    +++ c
    +++ " > budget="
    +++ show e.budget_limit
    +++ c
message show (llm_timeout_error s) = s
message show (llm_provider_error s) = s
message show (configuration_error s) = s
message show (json_decode_error s) = s
message show (attribute_error s) = s
message show (type_error s) = s
message show (key_error s) = s
message show (value_error s) = s
message show (runtime_error s) = s
message show (os_error s) = s
message show (read_timeout s) = s
message show (file_not_found s) = s
message show (diagnostic_error s) = s
message show (other_error s) = s

pub data Result {ℓ} (A : Type ℓ) : Type ℓ where
  ok : A → Result A
  err : Exc → Result A

abbrev pub bind {ℓ κ} : {A : Type ℓ} {B : Type κ} → Result A → (A → Result B) → Result B
bind (ok a) f = f a
bind (err e) f = err e

-- A call that may change the world `S`; what was written before a raise stays written.
abbrev pub Exec : Type 0 → Type 0 → Type 0
Exec S A = S → Result A × S

module _ {S : Type 0} where
  abbrev pub pure : {A : Type 0} → A → Exec S A
  pure a s = (ok a, s)

  abbrev pub raise : {A : Type 0} → Exc → Exec S A
  raise e s = (err e, s)

  abbrev pub lift : {A : Type 0} → Result A → Exec S A
  lift r s = (r, s)

  -- What follows a call that has returned or raised.
  abbrev pub continue : {A B : Type 0} → Result A × S → (A → Exec S B) → Result B × S
  continue (ok a, s) f = f a s
  continue (err e, s) f = (err e, s)

  infixl 5 ◌>>=◌ ◌>>◌
  abbrev pub ◌>>=◌ : {A B : Type 0} → Exec S A → (A → Exec S B) → Exec S B
  ◌>>=◌ m f s = continue (m s) f

  abbrev pub ◌>>◌ : {A B : Type 0} → Exec S A → Exec S B → Exec S B
  m >> k = m >>= λ _. k

  -- `try: … except`: the handler sees how the call ended, and the world that it left.
  abbrev pub try_with : {A B : Type 0} → Exec S A → (Result A → Exec S B) → Exec S B
  try_with m handler s = let (r, s') = m s in handler r s'
