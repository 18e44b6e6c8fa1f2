-- ===== src/Entry/CommandLine.antt =====
-- autosentinel/__main__.py: the command line, behind the reading of its one argument.
use auto_sentinel.Prelude.{ℕ, String, Bool, none, List, [], ◌∷◌}
use auto_sentinel.Prelude.Strings.{◌+++◌}
use auto_sentinel.Effects.{Exc, file_not_found, diagnostic_error, Result, ok, err}
use auto_sentinel.Pipeline.{Agents, Services}
use auto_sentinel.Entry.{run_pipeline}

-- `sys.exit` with a code, or an exception that no handler names.
pub data Ending : Type 0 where
  exits : ℕ → Ending
  propagates : Exc → Ending

-- How `main` ends, and what it prints on the standard output and on the standard error.
pub record Console : Type 0 where
  pub ending : Ending
  pub out : List String
  pub errors : List String

-- The process's exit code: Python's is 1 after an exception.
abbrev pub process_code : Ending → ℕ
process_code (exits code) = code
process_code (propagates e) = 1

abbrev pub running : String
running = "[AutoSentinel] Running diagnostic pipeline..."

unfoldable pub handled : Result String → Console
unfolding ◌+++◌
handled (ok path) = record {
  ending = exits 0;
  out = running ∷ ("[AutoSentinel] Report written to " +++ path) ∷ [];
  errors = [];
}
handled (err (file_not_found why)) = record {
  ending = exits 1;
  out = running ∷ [];
  errors = ("[AutoSentinel] Error: " +++ why) ∷ [];
}
handled (err (diagnostic_error why)) = record {
  ending = exits 1;
  out = running ∷ [];
  errors = ("[AutoSentinel] Pipeline error: " +++ why) ∷ [];
}
handled (err e) = record { ending = propagates e; out = running ∷ []; errors = [] }

-- `main`
unfoldable pub main :
    {S : Type 0} → Services S → Agents S → (String → S → Bool) → String → S → Console × S
unfolding run_pipeline handled
main services agents exists log_path s =
    let (r, t) = run_pipeline services agents exists log_path none s in (handled r, t)
