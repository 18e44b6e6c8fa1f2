-- ===== src/Python.antt =====
-- What the program uses of Python's standard library and does not implement: JSON values, their
-- reader, the compiler, and the text functions that depend on Unicode tables.
pub mod Json
use auto_sentinel.Prelude.{ℕ, String, Option, List}
use auto_sentinel.Prelude.Int.{ℤ}
use auto_sentinel.Effects.{Exc, Result}
use Json.{Value}

-- What `compile(text, "<fix>", "exec")` comes to: it returns, it raises a SyntaxError with a text,
-- or it raises something else (a ValueError for a lone surrogate, for one).
pub data Compiled : Type 0 where
  compiles : Compiled
  syntax_error : String → Compiled
  fails : Exc → Compiled

pub record Python : Type 0 where
  -- `json.loads`
  pub loads : String → Result Value
  -- `json.dumps(v, indent=2)`
  pub dumps : Value → String
  -- `json.dumps(v)`
  pub dumps_line : Value → String
  -- `str` of a JSON value and of a `Decimal`
  pub show : Value → String
  pub show_decimal : ℤ → String
  -- `repr` of a text
  pub repr : String → String
  pub compile : String → Compiled
  -- `s.lower()`
  pub lower : String → String
  -- `textwrap.indent(s, "    ")`
  pub indent : String → String
  -- `str(Path(s))`, `Path(s).name`, `Path(s).stem`
  pub path_text : String → String
  pub path_name : String → String
  pub path_stem : String → String
