-- ===== src/Scripts/Authorship.antt =====
-- scripts/check_scenario_authorship.py: a commit that adds a scenario carries the author's trailer. git
-- is a parameter; the repository stays as it is while the script runs. What is printed is a list of lines.
pub mod Added
pub mod Gate
use auto_sentinel.Prelude.{
  ℕ, String, Bool, true, false, not, ◌&&◌, Option, none, some, List, [], ◌∷◌, ◌++◌, if◌then◌else◌,
  length,
}
use auto_sentinel.Prelude.Int.{pos}
use auto_sentinel.Prelude.Strings.{
  ◌+++◌, nonempty, starts, ends, contains, strip, join, prefix, drop,
}
use auto_sentinel.Prelude.Strings.Lines.{splitlines}
use auto_sentinel.Effects.{Exc, other_error}
use auto_sentinel.Python.{Python}
use auto_sentinel.Python.Json.{integer}

-- `_TRAILER`
abbrev pub trailer : String
trailer = "Scenario-Authored-By:"

-- What a call of git comes to: its standard output, a code that is not 0 (CalledProcessError), or an
-- exception before it has run.
pub data Ran : Type 0 where
  printed : String → Ran
  called_process_error : Ran
  fails : Exc → Ran

abbrev pub Git : Type 0
Git = List String → Ran

-- A call returns, or raises SystemExit with a message, or another exception.
pub data Checked (A : Type 0) : Type 0 where
  done : A → Checked A
  system_exit : String → Checked A
  raised : Exc → Checked A

abbrev pub and_then : {A B : Type 0} → Checked A → (A → Checked B) → Checked B
and_then (done a) f = f a
and_then (system_exit why) f = system_exit why
and_then (raised e) f = raised e

-- The code that `main` returns, and what it prints on the standard output and on the standard error.
pub record Report : Type 0 where
  pub code : ℕ
  pub out : List String
  pub errors : List String

-- The exit code of the process.
abbrev pub exit_code : Checked Report → ℕ
exit_code (done r) = r.code
exit_code (system_exit why) = 1
exit_code (raised e) = 1

-- `argv[0] if argv else os.environ.get("GITHUB_BASE_REF") or "main"`
abbrev pub base_of : List String → Option String → String
base_of (a ∷ rest) base_env = a
base_of [] none = "main"
base_of [] (some s) = if nonempty s then s else "main"

abbrev pub candidates : String → List String
candidates base_ref =
    base_ref ∷ (if contains "/" base_ref then [] else ("origin/" +++ base_ref) ∷ [])

abbrev pub scenarios : String
scenarios = "benchmarks/scenarios/"

-- A direct child of the directory.
unfoldable pub is_scenario_yaml : String → Bool
unfolding starts ends contains
is_scenario_yaml line =
    starts scenarios line && ends ".yaml" line && not (contains "/" (drop 21 line))

-- The loop of `_added_scenario_yamls` on the lines of the diff.
unfoldable pub scenario_yamls : List String → List String
unfolding strip is_scenario_yaml
scenario_yamls [] = []
scenario_yamls (l ∷ ls) =
    if is_scenario_yaml (strip l) then strip l ∷ scenario_yamls ls else scenario_yamls ls

abbrev pub or_unknown : String → String
or_unknown commit = if nonempty commit then commit else "<unknown>"

module _ (py : Python) (git : Git) where
  abbrev pub output : Ran → Checked String
  output (printed s) = done (strip s)
  output called_process_error = raised (other_error "CalledProcessError")
  output (fails e) = raised e

  -- `_git`
  unfoldable pub run_git : List String → Checked String
  unfolding strip
  run_git command = output (git command)

  abbrev pub unresolved : String → String
  unresolved base_ref =
      "scenario-authorship: cannot resolve base ref "
      +++ py.repr base_ref
      +++ " (tried ["
      +++ join ", " (reprs (candidates base_ref))
      +++ "]). Ensure the base branch/SHA is fetched — the workflow uses actions/checkout with fetch-depth: 0."
    where
      reprs : List String → List String
      reprs [] = []
      reprs (x ∷ xs) = py.repr x ∷ reprs xs

  abbrev pub resolved_or : String → Checked String → Ran → Checked String
  resolved_or cand later (printed s) = done cand
  resolved_or cand later called_process_error = later
  resolved_or cand later (fails e) = raised e

  -- The loop of `_resolve_base`.
  abbrev pub first_resolved : String → List String → Checked String
  first_resolved base_ref [] = system_exit (unresolved base_ref)
  first_resolved base_ref (cand ∷ rest) =
      resolved_or cand (first_resolved base_ref rest)
        (git ("rev-parse" ∷ "--verify" ∷ "--quiet" ∷ (cand +++ "^{commit}") ∷ []))

  -- `_resolve_base`
  unfoldable pub resolve_base : String → Checked String
  unfolding ◌+++◌ contains
  resolve_base base_ref = first_resolved base_ref (candidates base_ref)

  -- What `git diff` prints of the files that were added since the merge base.
  unfoldable pub added_files : String → Checked String
  unfolding run_git resolve_base
  added_files base_ref = and_then (resolve_base base_ref) λ base.
      and_then (run_git ("merge-base" ∷ base ∷ "HEAD" ∷ [])) λ merge_base.
        run_git ("diff" ∷ "--name-only" ∷ "--diff-filter=A" ∷ (merge_base +++ "...HEAD") ∷ [])

  -- `_added_scenario_yamls`
  abbrev pub added_scenario_yamls : String → Checked (List String)
  added_scenario_yamls base_ref =
      and_then (added_files base_ref) λ out. done (scenario_yamls (splitlines out))

  -- `_introducing_commit`
  abbrev pub introducing_commit : String → Checked String
  introducing_commit path =
      run_git ("log" ∷ "--diff-filter=A" ∷ "--format=%H" ∷ "-1" ∷ "--" ∷ path ∷ [])

  -- `_commit_message`
  abbrev pub commit_message : String → Checked String
  commit_message commit = run_git ("log" ∷ "--format=%B" ∷ "-1" ∷ commit ∷ [])

  -- `not commit or _TRAILER not in _commit_message(commit)`
  abbrev pub is_offender : String → Checked Bool
  is_offender commit =
      if nonempty commit
      then and_then (commit_message commit) (λ m. done (not (contains trailer m)))
      else done true

  -- The loop that collects the offenders.
  unfoldable pub offenders : List String → Checked (List (String × String))
  unfolding run_git contains
  offenders [] = done []
  offenders (path ∷ paths) =
      let rest = offenders paths in
      and_then (introducing_commit path) λ commit. and_then (is_offender commit) λ bad.
        and_then rest λ others. done (if bad then (path, or_unknown commit) ∷ others else others)

  abbrev pub named : List (String × String) → List String
  named [] = []
  named ((path, commit) ∷ rest) =
      ("  - " +++ path +++ "  (introduced by " +++ prefix 12 commit +++ ")") ∷ named rest

  abbrev pub judged : List String → List (String × String) → Report
  judged added [] = record {
    code = 0;
    out =
        ("scenario-authorship: OK — "
          +++ py.show (integer (pos (length added)))
          +++ " new scenario yaml(s), all human-authored.")
        ∷ [];
    errors = [];
  }
  judged added (x ∷ xs) = record {
    code = 1;
    out = [];
    errors =
        "scenario-authorship: FAIL — missing 'Scenario-Authored-By:' trailer"
        ∷ (named (x ∷ xs)
            ++ ("\nEvery commit that adds a benchmarks/scenarios/*.yaml MUST include a\n'Scenario-Authored-By: <human full name>' trailer (spec FR-517).")
              ∷ []);
  }

  abbrev pub checked : List String → Checked Report
  checked [] = done (record {
    code = 0;
    out = "scenario-authorship: no new benchmarks/scenarios/*.yaml added; nothing to check." ∷ [];
    errors = [];
  })
  checked (x ∷ xs) = and_then (offenders (x ∷ xs)) (λ bad. done (judged (x ∷ xs) bad))

  -- `main`, with its arguments and the variable GITHUB_BASE_REF.
  unfoldable pub main : List String → Option String → Checked Report
  unfolding added_files scenario_yamls splitlines offenders ◌+++◌
  main argv base_env = and_then (added_scenario_yamls (base_of argv base_env)) checked
