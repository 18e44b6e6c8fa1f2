-- ===== src/Agents/Parsing/RoundTrip.antt =====
-- `strip_markdown_fence` of autosentinel/agents/_parsing.py takes off the fence that a model puts on.
use auto_sentinel.Prelude.{
  ◌+◌, ◌≤◌, String, ◌≡◌, refl, ap, ◌∙◌, true, false, Bool-cases, inl, inr, some, arith,
}
use auto_sentinel.Prelude.Strings.{
  ◌+++◌, ◌==◌, eq_iff, nonempty, strip, lstrip, rstrip, all_chars, size,
}
use auto_sentinel.Prelude.Strings.Affixes.{and-split}
use auto_sentinel.Prelude.Strings.Append.{size-append}
use auto_sentinel.Prelude.Strings.Strip.{
  IsBlank, IsTrim, strip-blanks, nonempty-append, rstrip-append, if_true,
}
use auto_sentinel.Agents.Parsing.{
  is_tag, after_tag, before_close, match_fence, strip_markdown_fence,
}
use Prim.Native.String.{String}

-- A reply of the form ```` ```tag\npayload\n``` ````.
abbrev pub fence : String → String → String
fence tag payload = "```" +++ tag +++ "\n" +++ payload +++ "\n```"

abbrev pub IsTag : String → Type 0
IsTag tag = all_chars is_tag tag ≡ true

after_tag-append : (tag s : String) → IsTag tag → after_tag (tag +++ "\n" +++ s) ≡ some s
unfolding after_tag ◌+++◌
after_tag-append String.[] s h = refl
after_tag-append (String.◌∷◌ c tag) s h =
    let (first, rest) = and-split (is_tag c) (all_chars is_tag tag) h in
    if_true (is_tag c) (after_tag (tag +++ "\n" +++ s)) _ first ∙ after_tag-append tag s rest

shorter : (s t : String) → size s + 1 ≤ size t → (t == s) ≡ false
shorter s t h = elim (Bool-cases (t == s)) [
  | inl same ↦ absurd (omega (arith, h, ap size ((eq_iff t s).0 same)))
  | inr other ↦ other
]

before_close-append : (payload : String) → before_close (payload +++ "\n```") ≡ some payload
unfolding before_close ◌+++◌
before_close-append String.[] = refl
before_close-append (String.◌∷◌ c p) =
    let long : 5 ≤ size (String.◌∷◌ c (p +++ "\n```")) = omega (arith, size-append p "\n```") in
    rw
      (
        shorter "\n```" (String.◌∷◌ c (p +++ "\n```")) long,
        shorter "```" (String.◌∷◌ c (p +++ "\n```")) (omega (arith, long)),
        before_close-append p,
      )
      refl

kept :
    (s t : String)
    → (rstrip t ≡ t) × (nonempty t ≡ true)
    → (rstrip (s +++ t) ≡ s +++ t) × (nonempty (s +++ t) ≡ true)
kept s t (e, n) = (rstrip-append s t e n, nonempty-append s t n)

closing : (rstrip "\n```" ≡ "\n```") × (nonempty "\n```" ≡ true)
unfolding rstrip
closing = (refl, refl)

fence-IsTrim : (tag payload : String) → IsTrim (fence tag payload)
unfolding lstrip ◌+++◌
fence-IsTrim tag payload = record {
  left = λ t. refl;
  right = (kept "```" _ (kept tag _ (kept "\n" _ (kept payload _ closing)))).0;
}

match_fence-fence :
    (tag payload : String) → IsTag tag → match_fence (fence tag payload) ≡ some payload
unfolding match_fence ◌+++◌
match_fence-fence tag payload h =
    rw (after_tag-append tag (payload +++ "\n```") h) (before_close-append payload)

-- What was fenced, with spaces around the fence or none, comes back without the fence and without the
-- spaces around it, whatever the payload holds (fences of its own too).
pub strip_markdown_fence-fence :
    (tag payload before after : String)
    → IsTag tag
    → IsBlank before
    → IsBlank after
    → strip_markdown_fence (before +++ fence tag payload +++ after) ≡ strip payload
unfolding strip_markdown_fence
strip_markdown_fence-fence tag payload before after t b a =
    rw
      (
        strip-blanks before (fence tag payload) after b a (fence-IsTrim tag payload),
        match_fence-fence tag payload t,
      )
      refl
