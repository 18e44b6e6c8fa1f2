-- ===== src/Scripts/Authorship/Gate.antt =====
-- The exit code of scripts/check_scenario_authorship.py.
use auto_sentinel.Prelude.{
  String, ◌≡◌, ◌≢◌, refl, ◌↔◌, Bool, true, false, not, Bool-cases, inl, inr, Option, List, [], ◌∷◌,
  if◌then◌else◌, arith,
}
use auto_sentinel.Prelude.Strings.{nonempty, contains, is_one_of}
use auto_sentinel.Prelude.Strings.Lines.{splitlines}
use auto_sentinel.Effects.{Exc}
use auto_sentinel.Python.{Python}
use auto_sentinel.Scripts.Authorship.{
  trailer, Git, Checked, done, system_exit, raised, and_then, Report, exit_code, base_of,
  scenario_yamls, added_files, introducing_commit, commit_message, is_offender, or_unknown,
  offenders, judged, checked, main,
}
use auto_sentinel.Prelude.Strings.Members.{none_stands, stands_first, stands_later, stands_cases}
use auto_sentinel.Scripts.Authorship.Added.{
  path_of, IsScenario-line, is_scenario_yaml-path_of, stripped, scenario_yamls-line,
  line-scenario_yamls,
}

exit_ne_done : {A : Type 0} (why : String) (a : A) → ◌≢◌ {A = Checked A} (system_exit why) (done a)
exit_ne_done why a e = cc

raised_ne_done : {A : Type 0} (x : Exc) (a : A) → ◌≢◌ {A = Checked A} (raised x) (done a)
raised_ne_done x a e = cc

-- What a call that ends well has come to on its way.
and_then-done :
    {A B : Type 0} (c : Checked A) (f : A → Checked B) (b : B)
    → and_then c f ≡ done b
    → (a : A) × (c ≡ done a) × (f a ≡ done b)
and_then-done (done a) f b h = (a, refl, h)
and_then-done (system_exit why) f b h = absurd (exit_ne_done why b h)
and_then-done (raised e) f b h = absurd (raised_ne_done e b h)

exit-and_then :
    {A : Type 0} (c : Checked A) (f : A → Checked Report)
    → exit_code (and_then c f) ≡ 0
    → (a : A) × (c ≡ done a) × (exit_code (f a) ≡ 0)
exit-and_then (done a) f h = (a, refl, h)
exit-and_then (system_exit why) f h = absurd (omega (arith, h))
exit-and_then (raised e) f h = absurd (omega (arith, h))

exit-step :
    {A B : Type 0} (c : Checked A) (g : A → B) (f : B → Checked Report)
    → exit_code (and_then (and_then c (λ a. done (g a))) f) ≡ 0
    → (a : A) × (c ≡ done a) × (exit_code (f (g a)) ≡ 0)
exit-step (done a) g f h = (a, refl, h)
exit-step (system_exit why) g f h = absurd (omega (arith, h))
exit-step (raised e) g f h = absurd (omega (arith, h))

step-exit :
    {A B : Type 0} (c : Checked A) (g : A → B) (f : B → Checked Report) (a : A)
    → c ≡ done a
    → exit_code (f (g a)) ≡ 0
    → exit_code (and_then (and_then c (λ a. done (g a))) f) ≡ 0
step-exit c g f a e h = rw e h

true_ne_false : ◌≢◌ {A = Checked Bool} (done true) (done false)
true_ne_false e = cc

has_trailer :
    (m : String)
    → ◌≡◌ {A = Checked Bool} (done (not (contains trailer m))) (done false)
    → contains trailer m ≡ true
has_trailer m h = elim (Bool-cases (contains trailer m)) [
  | inl t ↦ t
  | inr f ↦ absurd (true_ne_false (rw f at h))
]

-- A verdict with the code 0 names nobody.
judged-zero :
    (py : Python) (git : Git) (added : List String) (bad : List (String × String))
    → (judged py git added bad).code ≡ 0
    → bad ≡ []
judged-zero py git added [] h = refl
judged-zero py git added (x ∷ xs) h = absurd (omega (arith, h))

none_chosen :
    {A : Type 0} (b : Bool) (x : A) (xs : List A)
    → ◌≡◌ {A = Checked (List A)} (done (if b then x ∷ xs else xs)) (done [])
    → (b ≡ false) × (xs ≡ [])
none_chosen true x xs h = absurd cc
none_chosen false x xs h = (refl, cc)

module _ (py : Python) (git : Git) where
  -- The last commit that added the path is known, and its message has the trailer.
  abbrev pub IsAuthored : String → Type 0
  IsAuthored path =
      (commit : String) × (introducing_commit py git path ≡ done commit)
      × (nonempty commit ≡ true)
      × ((m : String) × (commit_message py git commit ≡ done m) × (contains trailer m ≡ true))

  clean_commit :
      (commit : String)
      → is_offender py git commit ≡ done false
      → (nonempty commit ≡ true)
        × ((m : String) × (commit_message py git commit ≡ done m) × (contains trailer m ≡ true))
  clean_commit commit h = elim (Bool-cases (nonempty commit)) [
    | inl n ↦
        let (m, c, k) = and_then-done (commit_message py git commit) _ false (rw n at h) in
        (n, (m, c, has_trailer m k))
    | inr empty ↦ absurd (true_ne_false (rw empty at h))
  ]

  -- Nothing is found wrong exactly if each path is authored.
  clean→IsAuthored :
      (paths : List String)
      → offenders py git paths ≡ done []
      → (path : String) → is_one_of path paths ≡ true
      → IsAuthored path
  unfolding offenders
  clean→IsAuthored [] h path stands = absurd (none_stands path stands)
  clean→IsAuthored (p ∷ ps) h path stands =
      let (commit, i, h1) = and_then-done (introducing_commit py git p) _ [] h in
      let (bad, o, h2) = and_then-done (is_offender py git commit) _ [] h1 in
      let (others, r, h3) = and_then-done (offenders py git ps) _ [] h2 in
      let (good, none_left) = none_chosen bad (p, or_unknown commit) others h3 in
      elim (stands_cases path p ps stands) [
        | inl e ↦ let (n, rest) = clean_commit commit (rw good at o) in rw e (commit, i, n, rest)
        | inr later ↦ clean→IsAuthored ps (rw none_left at r) path later
      ]

  IsAuthored→clean :
      (paths : List String)
      → ((path : String) → is_one_of path paths ≡ true → IsAuthored path)
      → offenders py git paths ≡ done []
  unfolding offenders
  IsAuthored→clean [] h = refl
  IsAuthored→clean (p ∷ ps) h =
      let (commit, i, n, (m, c, t)) = h p (stands_first p ps) in
      rw (i, n, c, t, IsAuthored→clean ps (λ q stands. h q (stands_later q p ps stands))) refl

  exit-checked :
      (paths : List String)
      → exit_code (checked py git paths) ≡ 0
      → offenders py git paths ≡ done []
  unfolding offenders
  exit-checked [] h = refl
  exit-checked (p ∷ ps) h =
      let (bad, o, k) = exit-and_then (offenders py git (p ∷ ps)) _ h in
      rw (judged-zero py git (p ∷ ps) bad k) at o

  checked-exit :
      (paths : List String)
      → offenders py git paths ≡ done []
      → exit_code (checked py git paths) ≡ 0
  checked-exit [] h = refl
  checked-exit (p ∷ ps) h = rw h refl

  -- The files that git has added since the merge base are known, and each scenario among them that
  -- stands in the directory itself is authored.
  abbrev pub Admissible : String → Type 0
  Admissible base_ref =
      (out : String) × (added_files py git base_ref ≡ done out)
      × ((name : String)
          → contains "/" name ≡ false
          → is_one_of (path_of name) (stripped (splitlines out)) ≡ true
          → IsAuthored (path_of name))

  exit-main :
      (argv : List String) (env : Option String)
      → exit_code (main py git argv env) ≡ 0
      → Admissible (base_of argv env)
  unfolding main
  exit-main argv env h =
      let (out, f, k) = exit-step (added_files py git (base_of argv env)) _ (checked py git) h in
      (
        out,
        f,
        λ name n stands.
            clean→IsAuthored (scenario_yamls (splitlines out)) (exit-checked _ k) (path_of name) (
              line-scenario_yamls (path_of name) (splitlines out) stands
                (is_scenario_yaml-path_of name n)),
      )

  main-exit :
      (argv : List String) (env : Option String)
      → Admissible (base_of argv env)
      → exit_code (main py git argv env) ≡ 0
  unfolding main
  main-exit argv env (out, f, all) =
      let lines = splitlines out in
      step-exit (added_files py git (base_of argv env)) _ (checked py git) out f (
        checked-exit (scenario_yamls lines) (
          IsAuthored→clean (scenario_yamls lines) λ path stands.
            let (there, kind) = scenario_yamls-line path lines stands in
            let (name, e, n) = IsScenario-line path kind in rw e (all name n (rw e at there))))

  -- The check exits with 0 exactly if git tells which files were added since the merge base with the
  -- base (the first argument, or GITHUB_BASE_REF if it is not empty, or main), and each of them whose
  -- path is `benchmarks/scenarios/<name>.yaml`, the name without a slash, was added last by a commit
  -- that is known and whose message contains the author's trailer. A call of git that fails is no pass.
  pub main-Gate :
      (argv : List String) (env : Option String)
      → (exit_code (main py git argv env) ≡ 0) ↔ Admissible (base_of argv env)
  main-Gate argv env = (exit-main argv env, main-exit argv env)
