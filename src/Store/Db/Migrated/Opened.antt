-- ===== src/Store/Db/Migrated/Opened.antt =====
-- internal/store/store.go: what `migrate` and `Open` leave.
use nx_cache.Common.{
  ℕ, ◌≡◌, refl, sym, ap, ◌∙◌, subst, Bool, true, false, ◌||◌, Option, none, some, arith,
  if◌then◌else◌, Text, codes, text_eq, text_eq_iff, Assoc, lookup, lookup-insert,
}
use nx_cache.Storage.Types.{ok_injective, is_some, Fault, Result, failure, ok, err}
use nx_cache.Store.Db.Migrate.{
  added_columns, create_entries, ignore_counter, create_counters, add_columns, migrate, dsn,
  migrated, sql_opened, open_db, Host,
}
use nx_cache.Store.Db.{answered, exec, and_then, insert_or_ignore, Tables, Db}
use nx_cache.Store.Db.Migrated.{IsMigrated, Honest, add_columns-Adds}

answered-ok :
    (f : Tables → Tables) (m : Option Text) (d : Db)
    → (answered f m d).0 ≡ none
    → ((answered f m d).1.tables ≡ f d.tables) × ((answered f m d).1.answers ≡ d.answers)
unfolding answered
answered-ok f (some m) d e = absurd (cc)
answered-ok f none d e = (refl, refl)

and_then-ok :
    (r : Option Text × Db) (rest : Db → Option Fault × Db)
    → (and_then r rest).0 ≡ none
    → (r.0 ≡ none) × (and_then r rest ≡ rest r.1)
unfolding and_then
and_then-ok (some m, d) rest e = absurd (cc)
and_then-ok (none, d) rest e = (refl, refl)

abbrev HasCounters : Assoc ℕ → Type 0
HasCounters counters =
    (is_some (lookup (codes "hits") counters) ≡ true)
    × (is_some (lookup (codes "misses") counters) ≡ true)
    × (is_some (lookup (codes "stores") counters) ≡ true)

is_some-ignored :
    (key j : Text) (known : Option ℕ) (counters : Assoc ℕ)
    → lookup key counters ≡ known
    → is_some (lookup j (insert_or_ignore key 0 known counters))
      ≡ (text_eq key j || is_some (lookup j counters))
unfolding insert_or_ignore
is_some-ignored key j none counters h = ground (arith, lookup-insert key j 0 counters)
is_some-ignored key j (some n) counters h = ground (arith, text_eq_iff key j)

is_some-ignore_counter :
    (key j : Text) (counters : Assoc ℕ)
    → is_some (lookup j (ignore_counter key counters))
      ≡ (text_eq key j || is_some (lookup j counters))
unfolding ignore_counter
is_some-ignore_counter key j counters = is_some-ignored key j (lookup key counters) counters refl

create_counters-HasCounters : (t : Tables) → HasCounters (create_counters t).counters
unfolding create_counters text_eq
create_counters-HasCounters t = (
  is_some-ignore_counter (codes "stores") (codes "hits") _
      ∙ is_some-ignore_counter (codes "misses") (codes "hits") _
      ∙ is_some-ignore_counter (codes "hits") (codes "hits") _,
  is_some-ignore_counter (codes "stores") (codes "misses") _
      ∙ is_some-ignore_counter (codes "misses") (codes "misses") _,
  is_some-ignore_counter (codes "stores") (codes "stores") _,
)

columns-IsMigrated :
    (duplicate : Text → Text) (d : Db)
    → Honest d
    → HasCounters d.tables.counters
    → (add_columns duplicate added_columns d).0 ≡ none
    → IsMigrated (add_columns duplicate added_columns d).1.tables
columns-IsMigrated duplicate d h c e =
    let a = add_columns-Adds duplicate added_columns d h e in
    let has = subst HasCounters (sym a.counters) c in
    record { columns = a.added; hits = has.0; misses = has.1; stores = has.2 }

Honest-after : (d d' : Db) → d'.answers ≡ d.answers → Honest d → Honest d'
Honest-after d d' same h n m p = h n m (ap (λ f. f n) (sym same) ∙ p)

-- A migration that reports no error has left a file with every column and every counter, whatever the
-- file had before, provided that no other error of SQLite reads like that of a column that is there.
pub migrate-IsMigrated :
    (duplicate : Text → Text) (d : Db)
    → Honest d
    → (migrate duplicate d).0 ≡ none
    → IsMigrated (migrate duplicate d).1.tables
unfolding migrate exec
migrate-IsMigrated duplicate d h e =
    let first = answered create_entries (d.answers d.runs) d in
    let (e1, same1) = and_then-ok first _ e in
    let second = answered create_counters (first.1.answers first.1.runs) first.1 in
    let (e2, same2) = and_then-ok second _ (ap (λ r. r.0) (sym same1) ∙ e) in
    let (t1, a1) = answered-ok create_entries _ d e1 in
    let (t2, a2) = answered-ok create_counters _ first.1 e2 in
    subst (λ r. IsMigrated r.1.tables) (sym (same1 ∙ same2))
      (columns-IsMigrated duplicate second.1 (Honest-after d second.1 (a2 ∙ a1) h)
        (subst (λ t. HasCounters t.counters) (sym t2) (create_counters-HasCounters first.1.tables))
        (ap (λ r. r.0) (sym (same1 ∙ same2)) ∙ e))

migrated-IsMigrated :
    (r : Option Fault × Db) (d' : Db)
    → (r.0 ≡ none → IsMigrated r.1.tables)
    → migrated r ≡ ok d'
    → IsMigrated d'.tables
unfolding migrated
migrated-IsMigrated (some e, d) d' k h = absurd (cc)
migrated-IsMigrated (none, d) d' k h =
    subst (λ x. IsMigrated x.tables) (ok_injective d d' h) (k refl)

sql_opened-IsMigrated :
    (duplicate : Text → Text) (r : Result Db) (d' : Db)
    → ((d : Db) → r ≡ ok d → Honest d)
    → sql_opened duplicate r ≡ ok d'
    → IsMigrated d'.tables
unfolding sql_opened
sql_opened-IsMigrated duplicate (err e) d' k h = absurd (cc)
sql_opened-IsMigrated duplicate (ok d) d' k h =
    migrated-IsMigrated (migrate duplicate d) d' (migrate-IsMigrated duplicate d (k d refl)) h

if_else-ok {ℓ} :
    {A : Type ℓ}
    → (c : Bool) (e : Fault) (r : Result A) (a : A) → (if c then err e else r) ≡ ok a
    → r ≡ ok a
if_else-ok true e r a h = absurd (cc)
if_else-ok false e r a h = h

pub open_db-IsMigrated :
    (duplicate : Text → Text) (host : Host) (random path : Text) (d : Db)
    → ((d0 : Db) → host.sql_open (dsn random path) ≡ ok d0 → Honest d0)
    → open_db duplicate host random path ≡ ok d
    → IsMigrated d.tables
unfolding open_db
open_db-IsMigrated duplicate host random path d honest h =
    sql_opened-IsMigrated duplicate (host.sql_open (dsn random path)) d honest
      (if_else-ok _ failure _ d h)
