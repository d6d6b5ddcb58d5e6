-- ===== src/Store/Db/Contract.antt =====
-- internal/store/store.go: `DB` as an implementation of the interface `Store`.
use nx_cache.Common.{
  ℕ, ◌+◌, ◌≤◌, ◌<◌, ◌≡◌, refl, sym, ap, ◌∙◌, subst, Bool, true, false, ◌&&◌, Option, none, some,
  List, [], ◌∷◌, arith, ltb, if◌then◌else◌, any, any-filter, Text, text_eq, text_eq_iff, Assoc,
  lookup, remove_all, mem, Distinct, keys, lookup_absent, lookup-remove_all, insert-Distinct,
  remove_all-Distinct, map_option, Time, second,
}
use nx_cache.Storage.Types.{ok_injective, failure, ok, err}
use nx_cache.Store.Types.{Entry}
use nx_cache.Store.Interface.{StoreLaws}
use nx_cache.Store.Object.Listing.{is_older}
use nx_cache.Store.Db.Queries.{scan_row, scan_all, query, list_older_than}
use nx_cache.Store.Db.Statements.{
  db_store, exec_keeps, and_then_keeps, keys-update_where, call_keeps, Closed,
}
use nx_cache.Store.Db.{
  unix, time_unix, answered, exec, and_then, return_err, update_where, delete, Row, Tables, Db,
}
use nx_cache.Store.Db

-- No hash stands twice: it is the primary key.
abbrev pub IsUnique : Tables → Type 0
IsUnique t = Distinct (keys t.cache_entries)

pub IsUnique-Closed : Closed IsUnique
IsUnique-Closed = record {
  counted = λ key t h. h;
  dated = λ days t h. h;
  inserted = λ hash r t h. insert-Distinct hash r t.cache_entries h;
  updated = λ f hash t h. subst Distinct (sym (keys-update_where f hash t.cache_entries)) h;
  removed = λ ks t h. remove_all-Distinct ks t.cache_entries h;
}

-- The entry that a query yields for a hash.
abbrev pub entry_of : Text → Option Row → Option Entry
entry_of k r = map_option (scan_row k) r

any-scan_all :
    (k : Text) (mark : Time) (rows : Assoc Row)
    → Distinct (keys rows)
    → any (λ e. ltb e.created_at mark && text_eq e.hash k) (scan_all rows)
      ≡ is_older mark (entry_of k (lookup k rows))
unfolding lookup scan_all scan_row
any-scan_all k mark [] h = refl
any-scan_all k mark ((j, r) ∷ rows) h =
    ground (arith, any-scan_all k mark rows h.1, lookup_absent k rows, text_eq_iff j k, h.0)

-- A query that does not fail yields what its text says.
pub query-ok {ℓ} :
    {A : Type ℓ} → (i : ℕ) (f : Tables → A) (d : Db) (a : A) → query i f d ≡ ok a → f d.tables ≡ a
unfolding query
query-ok i f d a p = answer (d.unreadable d.runs i) p
  where
    answer :
        (fails : Bool) → (if fails then err failure else ok (f d.tables)) ≡ ok a → f d.tables ≡ a
    answer true h = absurd (cc)
    answer false h = ok_injective _ a h

pub list_older-is_older :
    (d : Db) (cutoff : Time) (es : List Entry) (k : Text)
    → IsUnique d.tables
    → list_older_than cutoff d ≡ ok es
    → any (λ e. text_eq e.hash k) es
      ≡ is_older (time_unix (unix cutoff)) (entry_of k (lookup k d.tables.cache_entries))
unfolding list_older_than
list_older-is_older d cutoff es k h p = rw (← query-ok 0 _ d es p) (
    any-filter (λ e. text_eq e.hash k) (λ e. ltb e.created_at (time_unix (unix cutoff))) _
    ∙ any-scan_all k (time_unix (unix cutoff)) d.tables.cache_entries h)

module _ (d : Db) (ks : List Text) (k : Text) where
  delete_answered :
      (m : Option Text)
      → (and_then
          (answered (λ t. record t { cache_entries = remove_all ks t.cache_entries }) m d)
          return_err).0
        ≡ none
      → lookup k
          (and_then
            (answered (λ t. record t { cache_entries = remove_all ks t.cache_entries }) m d)
            return_err).1.tables.cache_entries
        ≡ (if mem k ks then none else lookup k d.tables.cache_entries)
  unfolding answered and_then
  delete_answered (some m) h = absurd (cc)
  delete_answered none h = lookup-remove_all ks k d.tables.cache_entries

lookup-delete :
    (d : Db) (ks : List Text) (k : Text)
    → (Db.delete ks d).0 ≡ none
    → lookup k (Db.delete ks d).1.tables.cache_entries
      ≡ (if mem k ks then none else lookup k d.tables.cache_entries)
unfolding Db.delete exec mem
lookup-delete d [] k h = refl
lookup-delete d (x ∷ ks) k h = delete_answered d (x ∷ ks) k (d.answers d.runs) h

pub lookup-delete_keeps :
    (d : Db) (ks : List Text) (k : Text)
    → mem k ks ≡ false
    → lookup k (Db.delete ks d).1.tables.cache_entries ≡ lookup k d.tables.cache_entries
unfolding Db.delete
lookup-delete_keeps d [] k h = refl
lookup-delete_keeps d (x ∷ ks) k h =
    and_then_keeps (λ t. lookup k t.cache_entries ≡ lookup k d.tables.cache_entries) _ _
      (exec_keeps (λ t. lookup k t.cache_entries ≡ lookup k d.tables.cache_entries) _ d refl
        (ground (arith, lookup-remove_all (x ∷ ks) k d.tables.cache_entries)))
      (λ d' e. e)

pub unix_near : (t : Time) → (time_unix (unix t) ≤ t) × (t < time_unix (unix t) + second)
unix_near t = (omega arith, omega arith)

pub entry_of-delete :
    (d : Db) (ks : List Text) (k : Text)
    → (Db.delete ks d).0 ≡ none
    → entry_of k (lookup k (Db.delete ks d).1.tables.cache_entries)
      ≡ (if mem k ks then none else entry_of k (lookup k d.tables.cache_entries))
entry_of-delete d ks k h = ground (arith, lookup-delete d ks k h)

abbrev pub db_laws : StoreLaws db_store
db_laws = record {
  IsSound = λ d. IsUnique d.tables;
  entry = λ d k. entry_of k (lookup k d.tables.cache_entries);
  mark = λ t. time_unix (unix t);
  mark_near = unix_near;
  call_IsSound = λ op d h. call_keeps IsUnique IsUnique-Closed op d h;
  list_older_ok = list_older-is_older;
  delete_ok = entry_of-delete;
  delete_keeps = λ d ks k h. ap (entry_of k) (lookup-delete_keeps d ks k h);
}
