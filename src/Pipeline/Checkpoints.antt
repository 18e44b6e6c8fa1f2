-- ===== src/Pipeline/Checkpoints.antt =====
-- autosentinel/multi_agent_graph.py: the choice of the checkpointer, and its teardown. A saver is an
-- object of langgraph, of any type `Saver`; opening one changes the world.
use auto_sentinel.Prelude.{
  String, ◌≡◌, refl, true, Option, none, some, List, [], ◌∷◌, if◌then◌else◌,
}
use auto_sentinel.Prelude.Strings.{nonempty}
use auto_sentinel.Prelude.Dict.{Dict, find, find-here}
use auto_sentinel.Effects.{Result, ok, err, Exec, pure}

-- The two globals of the module, beside the rest of the world. A connection is named by its DSN; the
-- one that was opened last comes first.
pub record Process (Saver S : Type 0) : Type 0 where
  pub postgres_savers : Dict Saver
  pub open_checkpointer_cms : List String
  pub world : S

-- `MemorySaver()`; `PostgresSaver.from_conn_string` with its `__enter__` and its `setup`, and the
-- `__exit__` of that connection.
pub record Savers (Saver S : Type 0) : Type 0 where
  pub memory_saver : S → Saver × S
  pub open_postgres : String → Exec S Saver
  pub close_postgres : String → Exec S (Unit {0})

module _ {Saver S : Type 0} (savers : Savers Saver S) where
  abbrev pub in_memory : Exec (Process Saver S) Saver
  in_memory p = let (saver, w) = savers.memory_saver p.world in (ok saver, record p { world = w })

  -- What follows the opening of a connection.
  abbrev pub keep_open :
      String → Process Saver S → Result Saver × S → Result Saver × Process Saver S
  keep_open dsn p (err e, w) = (err e, record p { world = w })
  keep_open dsn p (ok saver, w) = (
    ok saver,
    record {
      postgres_savers = (dsn, saver) ∷ p.postgres_savers;
      open_checkpointer_cms = dsn ∷ p.open_checkpointer_cms;
      world = w;
    },
  )

  abbrev pub known_or_opened : String → Option Saver → Exec (Process Saver S) Saver
  known_or_opened dsn (some saver) p = (ok saver, p)
  known_or_opened dsn none p = keep_open dsn p (savers.open_postgres dsn p.world)

  abbrev pub from_environment : Option String → Exec (Process Saver S) Saver
  from_environment none p = in_memory p
  from_environment (some dsn) p =
      if nonempty dsn then known_or_opened dsn (find dsn p.postgres_savers) p else in_memory p

  -- `_resolve_checkpointer`, with the value of AUTOSENTINEL_CHECKPOINTER_DSN.
  unfoldable pub resolve_checkpointer : Option String → Option Saver → Exec (Process Saver S) Saver
  resolve_checkpointer dsn (some saver) = pure saver
  resolve_checkpointer dsn none = from_environment dsn

  -- The loop of `_close_open_checkpointers`: an exception of one connection is passed over.
  abbrev pub close_all : List String → S → S
  close_all [] w = w
  close_all (dsn ∷ rest) w = close_all rest (savers.close_postgres dsn w).1

  -- `_close_open_checkpointers`
  unfoldable pub close_open_checkpointers : Process Saver S → Process Saver S
  close_open_checkpointers p = record {
    postgres_savers = [];
    open_checkpointer_cms = [];
    world = close_all p.open_checkpointer_cms p.world;
  }

  -- What a second call in the same process gives.
  abbrev pub Kept : String → Result Saver × Process Saver S → Type 0
  Kept dsn (err e, p) = Unit
  Kept dsn (ok saver, p) = resolve_checkpointer (some dsn) none p ≡ (ok saver, p)

  Kept-opened :
      (dsn : String) (p : Process Saver S) (q : Result Saver × S)
      → nonempty dsn ≡ true
      → Kept dsn (keep_open dsn p q)
  unfolding resolve_checkpointer
  Kept-opened dsn p (err e, w) h = tt
  Kept-opened dsn p (ok saver, w) h = rw (h, find-here dsn saver p.postgres_savers) refl

  Kept-known :
      (dsn : String) (p : Process Saver S) (known : Option Saver)
      → find dsn p.postgres_savers ≡ known
      → nonempty dsn ≡ true
      → Kept dsn (known_or_opened dsn known p)
  unfolding resolve_checkpointer
  Kept-known dsn p (some saver) found h = rw (h, found) refl
  Kept-known dsn p none found h = Kept-opened dsn p (savers.open_postgres dsn p.world) h

  -- While the variable names a DSN, the checkpointer that a first call returns is returned by the next
  -- call too, and that call changes nothing: a connection is opened once in a process.
  pub resolve-Kept :
      (dsn : String) (p : Process Saver S)
      → nonempty dsn ≡ true
      → Kept dsn (resolve_checkpointer (some dsn) none p)
  unfolding resolve_checkpointer
  resolve-Kept dsn p h = rw h (Kept-known dsn p (find dsn p.postgres_savers) refl h)
