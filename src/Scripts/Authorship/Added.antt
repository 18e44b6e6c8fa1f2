-- ===== src/Scripts/Authorship/Added.antt =====
-- Which files of a diff `_added_scenario_yamls` of scripts/check_scenario_authorship.py returns.
use auto_sentinel.Prelude.{
  String, ◌≡◌, refl, sym, ap, ◌∙◌, if◌then◌else◌, Bool, true, false, not, ◌&&◌, ◌||◌, ◌⊎◌, inl, inr,
  List, [], ◌∷◌, map, arith,
}
use auto_sentinel.Prelude.Strings.{◌+++◌, starts, ends, contains, strip, drop, is_one_of}
use auto_sentinel.Prelude.Strings.Laws.{starts-append}
use auto_sentinel.Prelude.Strings.Members.{none_stands, stands_first, stands_later, stands_cases}
use auto_sentinel.Prelude.Strings.Affixes.{
  and-split, starts-split, ends-append, ends-split, ends-skip, contains_slash-append,
}
use auto_sentinel.Scripts.Authorship.{scenarios, is_scenario_yaml, scenario_yamls}

-- The path of a scenario of the directory.
abbrev pub path_of : String → String
path_of name = scenarios +++ name +++ ".yaml"

-- A path is a scenario's, and its name has no slash.
abbrev pub IsScenario : String → Type 0
IsScenario path = (name : String) × (path ≡ path_of name) × (contains "/" name ≡ false)

or-false : (a b : Bool) → (a || b) ≡ false → a ≡ false
or-false a b h = ground arith

not-true : (a : Bool) → not a ≡ true → a ≡ false
not-true a h = ground arith

ends-scenarios : (s : String) → ends ".yaml" (scenarios +++ s) ≡ ends ".yaml" s
unfolding contains starts
ends-scenarios s = ends-skip "." "yaml" scenarios s refl

IsScenario-split :
    (line : String)
    → starts scenarios line ≡ true
    → ends ".yaml" line ≡ true
    → contains "/" (drop 21 line) ≡ false
    → IsScenario line
IsScenario-split line s e c =
    let whole : line ≡ scenarios +++ drop 21 line = starts-split scenarios line s in
    let there : ends ".yaml" (drop 21 line) ≡ true =
      sym (ends-scenarios (drop 21 line)) ∙ ap (ends ".yaml") (sym whole) ∙ e in
    let (name, split) = ends-split ".yaml" (drop 21 line) there in
    let rest : contains "/" (name +++ ".yaml") ≡ false = ap (contains "/") (sym split) ∙ c in
    (
      name,
      whole ∙ ap (λ x. scenarios +++ x) split,
      or-false (contains "/" name) (contains "/" ".yaml")
          (sym (contains_slash-append name ".yaml") ∙ rest),
    )

pub IsScenario-line : (line : String) → is_scenario_yaml line ≡ true → IsScenario line
unfolding is_scenario_yaml
IsScenario-line line h =
    let (both, c) =
      and-split (starts scenarios line && ends ".yaml" line) (not (contains "/" (drop 21 line)))
        h in
    let (s, e) = and-split (starts scenarios line) (ends ".yaml" line) both in
    IsScenario-split line s e (not-true (contains "/" (drop 21 line)) c)

drop-scenarios : (s : String) → drop 21 (scenarios +++ s) ≡ s
unfolding ◌+++◌
drop-scenarios s = refl

no_slash : (name : String) → contains "/" name ≡ false → contains "/" (name +++ ".yaml") ≡ false
unfolding contains starts
no_slash name h = contains_slash-append name ".yaml" ∙ ap (λ b. b || contains "/" ".yaml") h

pub is_scenario_yaml-path_of :
    (name : String) → contains "/" name ≡ false → is_scenario_yaml (path_of name) ≡ true
unfolding is_scenario_yaml
is_scenario_yaml-path_of name h =
    rw
      (
        starts-append scenarios (name +++ ".yaml"),
        ends-scenarios (name +++ ".yaml"),
        ends-append ".yaml" name,
        drop-scenarios (name +++ ".yaml"),
        no_slash name h,
      )
      refl

-- The lines of a diff, without the spaces around them.
abbrev pub stripped : List String → List String
stripped lines = map strip lines

-- A text of a list whose first item may be dropped.
chosen_cases :
    (b : Bool) (x y : String) (xs : List String)
    → is_one_of x (if b then y ∷ xs else xs) ≡ true
    → ((x ≡ y) × (b ≡ true)) ⊎ (is_one_of x xs ≡ true)
chosen_cases true x y xs h = elim (stands_cases x y xs h) [
  | inl e ↦ inl (e, refl)
  | inr later ↦ inr later
]
chosen_cases false x y xs h = inr h

stands_chosen :
    (b : Bool) (x y : String) (xs : List String)
    → is_one_of x xs ≡ true
    → is_one_of x (if b then y ∷ xs else xs) ≡ true
stands_chosen true x y xs h = stands_later x y xs h
stands_chosen false x y xs h = h

-- A path that is returned is a stripped line, and a scenario's.
pub scenario_yamls-line :
    (path : String) (lines : List String)
    → is_one_of path (scenario_yamls lines) ≡ true
    → (is_one_of path (stripped lines) ≡ true) × (is_scenario_yaml path ≡ true)
unfolding scenario_yamls
scenario_yamls-line path [] h = absurd (none_stands path h)
scenario_yamls-line path (l ∷ ls) h =
    elim (chosen_cases (is_scenario_yaml (strip l)) path (strip l) (scenario_yamls ls) h) [
      | inl (e, k) ↦ rw e (stands_first (strip l) (stripped ls), k)
      | inr later ↦
          let (stands, kind) = scenario_yamls-line path ls later in
          (stands_later path (strip l) (stripped ls) stands, kind)
    ]

-- A stripped line that is a scenario's path is returned.
pub line-scenario_yamls :
    (path : String) (lines : List String)
    → is_one_of path (stripped lines) ≡ true
    → is_scenario_yaml path ≡ true
    → is_one_of path (scenario_yamls lines) ≡ true
unfolding scenario_yamls
line-scenario_yamls path [] h k = h
line-scenario_yamls path (l ∷ ls) h k = elim (stands_cases path (strip l) (stripped ls) h) [
  | inl e ↦ rw (sym e, k) (stands_first path (scenario_yamls ls))
  | inr later ↦
      stands_chosen (is_scenario_yaml (strip l)) path (strip l) (scenario_yamls ls)
        (line-scenario_yamls path ls later k)
]
