-- ===== src/Store/Db/Migrated.antt =====
-- internal/store/store.go: what `migrate` leaves, and what later calls find.
pub mod Opened
use nx_cache.Common.{
  ℕ, ◌≡◌, refl, sym, ap, ◌∙◌, subst, Bool, true, false, ◌&&◌, ◌||◌, Option, none, some, List, [],
  ◌∷◌, ◌++◌, arith, if◌then◌else◌, Text, codes, text_eq, text_eq_refl, text_eq_iff, Assoc, lookup,
  lookup-insert, mem, mem-append,
}
use nx_cache.Storage.Types.{ok_injective, is_some, Fault, Result, failure, ok, err}
use nx_cache.Store.Db.Migrate.{
  added_columns, create_entries, ignore_counter, create_counters, default_all, is_duplicate_column,
  or_duplicate, altered, add_column, add_columns, migrate, dsn, migrated, sql_opened, open_db, Host,
}
use nx_cache.Store.Db.{answered, exec, and_then, insert_or_ignore, Tables, Db}

abbrev pub has_all : List Text → List Text → Bool
has_all [] columns = true
has_all (col ∷ cols) columns = mem col columns && has_all cols columns

-- The columns and the three counters are there.
pub record IsMigrated (t : Tables) : Type 0 where
  pub columns : has_all added_columns t.columns ≡ true
  pub hits : is_some (lookup (codes "hits") t.counters) ≡ true
  pub misses : is_some (lookup (codes "misses") t.counters) ≡ true
  pub stores : is_some (lookup (codes "stores") t.counters) ≡ true

-- No other failure reads like that of a column that is there already.
abbrev pub Honest : Db → Type 0
Honest d = (n : ℕ) (m : Text) → d.answers n ≡ some m → is_duplicate_column m ≡ false

-- What a statement that was taken for a success has left.
pub record Adds (cols : List Text) (d d' : Db) : Type 0 where
  pub added : has_all cols d'.tables.columns ≡ true
  pub kept : (c : Text) → mem c d.tables.columns ≡ true → mem c d'.tables.columns ≡ true
  pub counters : d'.tables.counters ≡ d.tables.counters
  pub answers : d'.answers ≡ d.answers

has_all_one :
    (col : Text) (columns : List Text) → mem col columns ≡ true → has_all (col ∷ []) columns ≡ true
has_all_one col columns h = rw h refl

answered-Adds :
    (col : Text) (d : Db) (m : Option Text)
    → Honest d
    → d.answers d.runs ≡ m
    → (or_duplicate (
        answered
          (λ t. record t {
            columns = t.columns ++ col ∷ [];
            cache_entries = default_all col t.cache_entries;
          })
          m
          d)).0
      ≡ none
    → Adds
        (col ∷ [])
        d
        (or_duplicate (
          answered
            (λ t. record t {
              columns = t.columns ++ col ∷ [];
              cache_entries = default_all col t.cache_entries;
            })
            m
            d)).1
unfolding answered or_duplicate mem
answered-Adds col d (some m) h p e = absurd (ground (arith, h d.runs m p))
answered-Adds col d none h p e = record {
  added =
      has_all_one col _
        (ground (arith, mem-append col d.tables.columns (col ∷ []), text_eq_refl col));
  kept = λ c k. ground (arith, mem-append c d.tables.columns (col ∷ []));
  counters = refl;
  answers = refl;
}

module _ (duplicate : Text → Text) where
  altered-Adds :
      (there : Bool) (col : Text) (d : Db)
      → Honest d
      → mem col d.tables.columns ≡ there
      → (or_duplicate (altered duplicate there col d)).0 ≡ none
      → Adds (col ∷ []) d (or_duplicate (altered duplicate there col d)).1
  unfolding altered exec or_duplicate
  altered-Adds true col d h p e = record {
    added = has_all_one col d.tables.columns p;
    kept = λ c k. k;
    counters = refl;
    answers = refl;
  }
  altered-Adds false col d h p e = answered-Adds col d (d.answers d.runs) h refl e

  has_all_kept :
      (cols xs ys : List Text)
      → ((c : Text) → mem c xs ≡ true → mem c ys ≡ true)
      → has_all cols xs ≡ true
      → has_all cols ys ≡ true
  has_all_kept [] xs ys k h = refl
  has_all_kept (c ∷ cols) xs ys k h = ground (arith, k c, has_all_kept cols xs ys k)

  then-Adds :
      (col : Text) (cols : List Text) (d : Db) (r : Option Text × Db)
      → (r.0 ≡ none → Adds (col ∷ []) d r.1)
      → ((d' : Db)
          → d'.answers ≡ d.answers
          → (add_columns duplicate cols d').0 ≡ none
          → Adds cols d' (add_columns duplicate cols d').1)
      → (and_then r (add_columns duplicate cols)).0 ≡ none
      → Adds (col ∷ cols) d (and_then r (add_columns duplicate cols)).1
  unfolding and_then
  then-Adds col cols d (some m, d') one more e = absurd (cc)
  then-Adds col cols d (none, d') one more e =
      let a = one refl in
      let b = more d' a.answers e in
      record {
        added = ground (arith, b.added, b.kept col, a.added);
        kept = λ c k. b.kept c (a.kept c k);
        counters = b.counters ∙ a.counters;
        answers = b.answers ∙ a.answers;
      }

  pub add_columns-Adds :
      (cols : List Text) (d : Db)
      → Honest d
      → (add_columns duplicate cols d).0 ≡ none
      → Adds cols d (add_columns duplicate cols d).1
  unfolding add_columns add_column
  add_columns-Adds [] d h e = record {
    added = refl;
    kept = λ c k. k;
    counters = refl;
    answers = refl;
  }
  add_columns-Adds (col ∷ cols) d h e =
      then-Adds col cols d (or_duplicate (add_column duplicate col d))
        (altered-Adds (mem col d.tables.columns) col d h refl)
        (λ d' same e'. add_columns-Adds cols d' (λ n m p. h n m (ap (λ f. f n) (sym same) ∙ p)) e')
        e
