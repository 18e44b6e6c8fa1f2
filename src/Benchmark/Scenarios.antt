-- ===== src/Benchmark/Scenarios.antt =====
-- autosentinel/benchmark.py: the scenarios of a directory. The reader of YAML, the order of a directory's
-- files and pydantic's reading of the types are parameters, and so are the digits of Unicode.
use Prim.Native.Char.{Char, code}
use Prim.Native.String.{String}
use auto_sentinel.Prelude.{
  Bool, false, ◌&&◌, ◌||◌, Option, none, some, List, [], ◌∷◌, if◌then◌else◌, leb, nat_eq,
}
use auto_sentinel.Prelude.Strings.{nonempty, all_chars, is_one_of}
use auto_sentinel.Effects.{value_error, Result, ok, err, Exec, pure, lift, ◌>>=◌}
use auto_sentinel.Python.Json.{Value}
use auto_sentinel.Nodes.Files.{Files}
use auto_sentinel.Benchmark.{BenchmarkScenario}

-- What the loader uses and does not implement.
pub record Catalog (S : Type 0) : Type 0 where
  -- `sorted(directory.glob("*.yaml"))`
  pub yamls : S → List String
  -- `yaml.safe_load` of a text
  pub parse : String → Result Value
  -- The types that the model declares, before any bound; None where they do not fit.
  pub typed : Value → Option BenchmarkScenario
  -- `\d`
  pub digit : Char → Bool

abbrev pub is_lower : Char → Bool
is_lower c = leb b'a' (code c) && leb (code c) b'z'

abbrev pub is_id_char : Char → Bool
is_id_char c = is_lower c || (leb b'0' (code c) && leb (code c) b'9') || nat_eq (code c) b'_'

-- `[a-z]*_[a-z0-9_]+` up to the end.
abbrev pub after_first : String → Bool
after_first String.[] = false
after_first (String.◌∷◌ c s) =
    if is_lower c
    then after_first s
    else nat_eq (code c) b'_' && nonempty s && all_chars is_id_char s

-- `[a-z]+_[a-z0-9_]+` up to the end.
abbrev pub category_and_name : String → Bool
category_and_name String.[] = false
category_and_name (String.◌∷◌ c s) = is_lower c && after_first s

module _ {S : Type 0} (files : Files S) (catalog : Catalog S) where
  open catalog use {yamls, parse, typed, digit}

  -- The pattern of `scenario_id`.
  abbrev pub is_scenario_id : String → Bool
  is_scenario_id (String.◌∷◌ a (String.◌∷◌ b (String.◌∷◌ c (String.◌∷◌ u s)))) =
      digit a && digit b && digit c && nat_eq (code u) b'_' && category_and_name s
  is_scenario_id s = false

  -- The bounds of the fields.
  unfoldable pub scenario_valid : BenchmarkScenario → Bool
  unfolding is_one_of
  scenario_valid x =
      is_scenario_id x.scenario_id
      && is_one_of x.category ("CODE" ∷ "INFRA" ∷ "SECURITY" ∷ "CONFIG" ∷ [])
      && is_one_of x.expected_security_verdict ("SAFE" ∷ "CAUTION" ∷ "HIGH_RISK" ∷ [])
      && nonempty x.human_labeled_by

  -- `BenchmarkScenario.model_validate`
  abbrev pub model_validate : Option BenchmarkScenario → Result BenchmarkScenario
  model_validate none = err (value_error "BenchmarkScenario")
  model_validate (some x) = if scenario_valid x then ok x else err (value_error "BenchmarkScenario")

  abbrev pub load_one : String → Exec S BenchmarkScenario
  load_one path = do
    raw ← files.read_text path
    loaded ← lift (parse raw)
    lift (model_validate (typed loaded))

  unfoldable pub load_files : List String → Exec S (List BenchmarkScenario)
  unfolding scenario_valid
  load_files [] = pure []
  load_files (path ∷ paths) = do x ← load_one path; xs ← load_files paths; pure (x ∷ xs)

  -- `_load_scenarios`
  abbrev pub load_scenarios : Exec S (List BenchmarkScenario)
  load_scenarios s = load_files (yamls s) s
