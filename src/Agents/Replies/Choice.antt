-- ===== src/Agents/Replies/Choice.antt =====
-- The parser of autosentinel/agents/diagnosis.py and security_reviewer.py returns what the reply
-- says, or its fallback.
use auto_sentinel.Prelude.{String, ◌≡◌, refl, ◌⊎◌, inl, inr, true, false, Bool-cases, List}
use auto_sentinel.Prelude.Strings.{is_one_of}
use auto_sentinel.Effects.{Result, ok, err, bind}
use auto_sentinel.Python.{Python}
use auto_sentinel.Python.Json.{Value, text, object, get, find_text, lookup, value_or}
use auto_sentinel.Agents.Replies.{is_caught, recover, option_or, read_choice}

module _ (py : Python) (key : String) (names : List String) (fallback content : String) where
  -- The reply is a JSON object that holds the text `v` under the key.
  abbrev pub Says : String → Type 0
  Says v = bind (py.loads content) (λ reply. get reply key (text "")) ≡ ok (text v)

  abbrev pub IsChoice : Result String → Type 0
  IsChoice (ok v) = (is_one_of v names ≡ true) × ((v ≡ fallback) ⊎ Says v)
  IsChoice (err e) = (py.loads content ≡ err e) × (is_caught e ≡ false)

  IsChoice-value :
      (v : Value)
      → is_one_of fallback names ≡ true
      → bind (py.loads content) (λ reply. get reply key (text "")) ≡ ok v
      → IsChoice
          (recover fallback (bind (find_text v names) (λ found. ok (option_or fallback found))))
  unfolding recover find_text
  IsChoice-value (text t) h e = elim (Bool-cases (is_one_of t names)) [
    | inl found ↦ rw found (found, inr e)
    | inr missing ↦ rw missing (h, inl refl)
  ]
  IsChoice-value v h e = (h, inl refl)

  IsChoice-reply :
      (reply : Value)
      → is_one_of fallback names ≡ true
      → py.loads content ≡ ok reply
      → IsChoice (
          recover fallback (
            bind
              (get reply key (text ""))
              λ value. bind (find_text value names) λ found. ok (option_or fallback found)))
  unfolding get recover
  IsChoice-reply (object fs) h e = IsChoice-value (value_or (text "") (lookup key fs)) h (rw e)
  IsChoice-reply reply h e = (h, inl refl)

  IsChoice-loads :
      (r : Result Value)
      → is_one_of fallback names ≡ true
      → py.loads content ≡ r
      → IsChoice (
          recover fallback (
            bind r λ reply.
              bind
                (get reply key (text ""))
                λ value. bind (find_text value names) λ found. ok (option_or fallback found)))
  unfolding recover
  IsChoice-loads (ok reply) h e = IsChoice-reply reply h e
  IsChoice-loads (err x) h e = elim (Bool-cases (is_caught x)) [
    | inl caught ↦ rw caught (h, inl refl)
    | inr other ↦ rw other (e, other)
  ]

  -- Whatever the model replied, the parser returns a text of the list, and one that differs from
  -- the fallback stands literally under the key of the reply; or it raises what `json.loads` raised,
  -- where the handler does not catch that.
  pub read_choice-IsChoice :
      is_one_of fallback names ≡ true → IsChoice (read_choice py key names fallback content)
  unfolding read_choice
  read_choice-IsChoice h = IsChoice-loads (py.loads content) h refl
