-- ===== src/Store/Db/Migrate.antt =====
-- internal/store/store.go: `migrate`, which gives a file of any age the tables and columns of today.
use nx_cache.Common.{
  ℕ, ◌+◌, Bool, true, false, not, ◌&&◌, ◌||◌, Option, none, some, List, [], ◌∷◌, ◌++◌,
  if◌then◌else◌, Text, codes, text_eq, is_empty, contains, to_lower, Assoc, lookup, mem,
}
use nx_cache.Storage.Types.{Fault, Result, failure, ok, err}
use nx_cache.Store.Db.{exec, and_then, insert_or_ignore, Row, Tables, Db}

abbrev pub first_columns : List Text
first_columns =
    codes "hash" ∷ codes "size" ∷ codes "created_at" ∷ codes "last_accessed_at" ∷ codes "hits" ∷ []

abbrev pub added_columns : List Text
added_columns = codes "project" ∷ codes "target" ∷ codes "config" ∷ codes "kind" ∷ []

-- CREATE TABLE IF NOT EXISTS cache_entries
unfoldable pub create_entries : Tables → Tables
create_entries t = record t { columns = elim t.columns [ [] ↦ first_columns | c ∷ cs ↦ c ∷ cs ] }

unfoldable pub ignore_counter : Text → Assoc ℕ → Assoc ℕ
unfolding insert_or_ignore
ignore_counter key counters = insert_or_ignore key 0 (lookup key counters) counters

-- INSERT OR IGNORE INTO counters. A table `counters` or `daily_stats` that does not exist and one
-- that has no rows are the same here.
unfoldable pub create_counters : Tables → Tables
unfolding ignore_counter
create_counters t = record t {
  counters =
      ignore_counter (codes "stores")
        (ignore_counter (codes "misses") (ignore_counter (codes "hits") t.counters));
}

-- A new column has its default in every row.
unfoldable pub default_column : Text → Row → Row
default_column col r =
    if text_eq col (codes "project")
    then record r { info = record r.info { project = [] } }
    else if text_eq col (codes "target")
    then record r { info = record r.info { target = [] } }
    else if text_eq col (codes "config")
    then record r { info = record r.info { config = [] } }
    else record r { info = record r.info { kind = [] } }

unfoldable pub default_all : Text → Assoc Row → Assoc Row
unfolding default_column
default_all col [] = []
default_all col ((hash, r) ∷ rows) = (hash, default_column col r) ∷ default_all col rows

-- isDuplicateColumn, of an error that is not nil
unfoldable pub is_duplicate_column : Text → Bool
is_duplicate_column message = contains (to_lower message) (codes "duplicate column name")

-- if err != nil && !isDuplicateColumn(err) { return err }
unfoldable pub or_duplicate : Option Text × Db → Option Text × Db
or_duplicate (none, d) = (none, d)
or_duplicate (some message, d) = (if is_duplicate_column message then none else some message, d)

-- `duplicate` is the message that SQLite has for a column that is there already.
module _ (duplicate : Text → Text) where
  -- ALTER TABLE cache_entries ADD COLUMN, where the column is there or is not.
  unfoldable pub altered : (there : Bool) → Text → Db → Option Text × Db
  unfolding default_all
  altered true col d = (some (duplicate col), record d { runs = d.runs + 1 })
  altered false col d =
      exec
        (λ t. record t {
          columns = t.columns ++ col ∷ [];
          cache_entries = default_all col t.cache_entries;
        })
        d

  unfoldable pub add_column : Text → Db → Option Text × Db
  unfolding altered
  add_column col d = altered (mem col d.tables.columns) col d

  unfoldable pub add_columns : List Text → Db → Option Fault × Db
  unfolding add_column or_duplicate
  add_columns [] d = (none, d)
  add_columns (col ∷ cols) d = and_then (or_duplicate (add_column col d)) (add_columns cols)

  -- The statements of the first `Exec` are run one after the other.
  unfoldable pub migrate : Db → Option Fault × Db
  unfolding create_entries create_counters add_columns
  migrate d =
      and_then (exec create_entries d)
        (λ d1. and_then (exec create_counters d1) (add_columns added_columns))

-- What `Open` calls: filepath.Dir, os.MkdirAll (whether it fails) and sql.Open.
pub record Host : Type 0 where
  pub dir : Text → Text
  pub mkdir_fails : Text → Bool
  pub sql_open : Text → Result Db

-- path == ":memory:" || path == ""
abbrev pub in_memory : Text → Bool
in_memory path = text_eq path (codes ":memory:") || is_empty path

-- The name of the data source; `random` is the hexadecimal form of eight random bytes.
unfoldable pub dsn : (random path : Text) → Text
dsn random path =
    if in_memory path
    then codes "file:nxcache-" ++ random ++ codes "?mode=memory&cache=shared"
    else codes "file:"
      ++ path
      ++ codes "?_pragma=busy_timeout(5000)&_pragma=foreign_keys(1)&_pragma=journal_mode(WAL)"

unfoldable pub migrated : Option Fault × Db → Result Db
migrated (some e, d) = err e
migrated (none, d) = ok d

unfoldable pub sql_opened : (duplicate : Text → Text) → Result Db → Result Db
unfolding migrated migrate
sql_opened duplicate (err e) = err e
sql_opened duplicate (ok d) = migrated (migrate duplicate d)

-- Open
unfoldable pub open_db : (duplicate : Text → Text) → Host → (random path : Text) → Result Db
unfolding dsn sql_opened
open_db duplicate host random path =
    let dir = host.dir path in
    if not (in_memory path) && host.mkdir_fails dir && not (text_eq dir (codes "."))
    then err failure
    else sql_opened duplicate (host.sql_open (dsn random path))
