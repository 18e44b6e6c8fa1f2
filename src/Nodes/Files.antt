-- ===== src/Nodes/Files.antt =====
-- The file operations of autosentinel/nodes, over a world `S`.
use auto_sentinel.Prelude.{String}
use auto_sentinel.Effects.{Exec}
use auto_sentinel.Llm.Client.{Float}

pub record Files (S : Type 0) : Type 0 where
  -- `Path(path).read_text(encoding="utf-8")`
  pub read_text : String → Exec S String
  -- `Path(path).write_text(text, encoding="utf-8")`
  pub write_text : String → String → Exec S (Unit {0})
  -- `Path(path).mkdir(parents=True, exist_ok=True)`
  pub make_dir : String → Exec S (Unit {0})
  -- `str(Path(path).resolve())`
  pub resolve : String → String
  -- The time of day in UTC, as `%Y-%m-%dT%H:%M:%SZ`.
  pub utc_now : S → String
  -- `f"{confidence * 100:.0f}%"` and `str` of a duration.
  pub percent : Float → String
