-- ===== src/Llm/Factory/Registry.antt =====
-- The dict of models and endpoints that the validator of autosentinel/llm/factory.py builds.
use auto_sentinel.Prelude.{
  String, ◌≡◌, refl, sym, ◌⊎◌, inl, inr, true, Bool-cases, Option-cases, some, List, [], ◌∷◌, arith,
}
use auto_sentinel.Prelude.Strings.{◌==◌, eq_iff, is_one_of}
use auto_sentinel.Prelude.Dict.{Dict, find, find-here, find-cases, find-other}
use auto_sentinel.Effects.{Result, ok, err, bind}
use auto_sentinel.Llm.Factory.{EndpointConfig, register_models, register}

-- The endpoint of that alias lists the model.
abbrev pub Declares : String → String → Dict EndpointConfig → Type 0
Declares alias m [] = ⊥
Declares alias m ((a, ep) ∷ rest) =
    ((a ≡ alias) × (is_one_of m ep.models ≡ true)) ⊎ Declares alias m rest

module _ (repr : String → String) where
  -- What a loop over some models leaves in the dict.
  record Registered (alias : String) (ms : List String) (before after : Dict String) : Type 0 where
    kept : (m a : String) → find m before ≡ some a → find m after ≡ some a
    added : (m : String) → is_one_of m ms ≡ true → find m after ≡ some alias
    source :
        (m a : String)
        → find m after ≡ some a
        → (find m before ≡ some a) ⊎ ((a ≡ alias) × (is_one_of m ms ≡ true))

  Registered-register_models :
      (alias : String) (ms : List String) (d d' : Dict String)
      → register_models repr alias ms d ≡ ok d'
      → Registered alias ms d d'
  unfolding register_models is_one_of
  Registered-register_models alias [] d d' h =
      let e : d ≡ d' = cc in
      record {
        kept = λ m a k. rw (sym e) k;
        added = λ m k. absurd (cc);
        source = λ m a k. inl (rw e k);
      }
  Registered-register_models alias (x ∷ ms) d d' h = elim (Option-cases (find x d)) [
    | inr (other, found) ↦ absurd (ground arith)
    | inl absent ↦
        let r =
          Registered-register_models alias ms ((x, alias) ∷ d) d'
            (rw (absent, register_models) at h) in
        record {
          kept = λ m a k. r.kept m a (find-other m x alias a d absent k);
          added = λ m k. elim (Bool-cases (m == x)) [
            | inl same ↦ rw ((eq_iff m x).0 same) (r.kept x alias (find-here x alias d))
            | inr other ↦ r.added m (rw other at k)
          ];
          source = λ m a k. elim (r.source m a k) [
            | inr (e, l) ↦ inr (e, ground arith)
            | inl s ↦ elim (find-cases m x alias a d s) [
              | inl (same, e) ↦ inr (sym e, rw ((eq_iff m x).1 (sym same)) refl)
              | inr old ↦ inl old
            ]
          ];
        }
  ]

  -- What the loop over the endpoints leaves in the dict.
  pub record Registry (eps : Dict EndpointConfig) (before after : Dict String) : Type 0 where
    pub kept : (m a : String) → find m before ≡ some a → find m after ≡ some a
    pub added : (alias m : String) → Declares alias m eps → find m after ≡ some alias
    pub source :
        (m a : String) → find m after ≡ some a → (find m before ≡ some a) ⊎ Declares a m eps

  Registry-cons :
      (alias : String) (ep : EndpointConfig) (rest : Dict EndpointConfig) (d d₁ d' : Dict String)
      → Registered alias ep.models d d₁
      → Registry rest d₁ d'
      → Registry ((alias, ep) ∷ rest) d d'
  Registry-cons alias ep rest d d₁ d' first others = record {
    kept = λ m a k. others.kept m a (first.kept m a k);
    added = λ a m k. elim k [
      | inl (same, listed) ↦ rw (sym same) (others.kept m alias (first.added m listed))
      | inr later ↦ others.added a m later
    ];
    source = λ m a k. elim (others.source m a k) [
      | inr later ↦ inr (inr later)
      | inl s ↦ elim (first.source m a s) [
        | inl old ↦ inl old
        | inr (e, listed) ↦ inr (inl (sym e, listed))
      ]
    ];
  }

  Registry-nil : (d d' : Dict String) → d ≡ d' → Registry [] d d'
  Registry-nil d d' e = record {
    kept = λ m a k. rw (sym e) k;
    added = λ a m k. absurd k;
    source = λ m a k. inl (rw e k);
  }

  pub Registry-register :
      (eps : Dict EndpointConfig) (d d' : Dict String)
      → register repr eps d ≡ ok d'
      → Registry eps d d'
  unfolding register
  Registry-register [] d d' h = Registry-nil d d' (cc)
  Registry-register ((alias, ep) ∷ rest) d d' h =
      step (register_models repr alias ep.models d) refl h (λ d₁. Registry-register rest d₁ d')
    where
      step :
          (q : Result (Dict String))
          → register_models repr alias ep.models d ≡ q
          → bind q (register repr rest) ≡ ok d'
          → ((d₁ : Dict String) → register repr rest d₁ ≡ ok d' → Registry rest d₁ d')
          → Registry ((alias, ep) ∷ rest) d d'
      step (ok d₁) e k later =
          Registry-cons alias ep rest d d₁ d' (Registered-register_models alias ep.models d d₁ e)
            (later d₁ k)
      step (err x) e k later = absurd (cc)
