-- ===== src/Store/Db/Mirror/Runs.antt =====
-- internal/store/store.go and internal/store/object.go: the two catalogs after the same calls.
use nx_cache.Common.{
  ℕ, ◌≡◌, refl, ap, ◌∙◌, Bool, true, false, ◌&&◌, Option, none, some, List, [], ◌∷◌, ltb, ◌==◌,
  Text, codes, Assoc, lookup, insert, remove_all, Distinct, keys, map_values, map_option,
  lookup-map_values, insert-map_values, remove_all-map_values, Time,
}
use nx_cache.Storage.Types.{Fault}
use nx_cache.Store.Types.{no_info, fill_info, TaskInfo, Entry}
use nx_cache.Store.Object.Run.{
  perform, run, Operation, upsert, hit_at, miss_at, delete_all, ensure, update, put_back,
}
use nx_cache.Store.Object.Entries.{perform-IsKeyed, IsKeyed}
use nx_cache.Store.Object.{
  entry_or_zero, upserted, upsert_entry, hit, record_hit, record_miss, delete, ensure_known,
  ensure_entry, update_known, update_task_info, seed, Catalog, hits_key, misses_key, stores_key,
}
use nx_cache.Store.Interface.{call}
use nx_cache.Store.Db.Statements.{db_store}
use nx_cache.Store.Db.Steps.{Quiet, bumped, changed, call-Gives}
use nx_cache.Store.Db.{unix, new_row, update_where, insert_or_ignore, row_of, Row, Tables, Db}
use nx_cache.Store.Db.Mirror.{tables_of, Agrees, plus_one, bumped-tables_of}
use nx_cache.Store.Db.Mirror.Rows.{
  entries_after_upsert, entries_after_hit, update_where_absent, update_where-insert,
}

-- The table of entries alone is changed.
abbrev with_entries : Catalog → Assoc Row → Tables
with_entries o rows = record (tables_of o) { cache_entries = rows }

tables_after_ensure :
    (hash : Text) (size : ℕ) (at : Time) (o : Catalog) (known : Option Entry)
    → ((e : Entry) → known ≡ some e → (e.size == 0 && ltb 0 size) ≡ false)
    → with_entries o (
        insert_or_ignore hash
          (new_row size (unix at) no_info)
          (map_option row_of known)
          (map_values row_of o.entries))
      ≡ tables_of (ensure_known hash size at known o)
unfolding insert_or_ignore ensure_known row_of tables_of
tables_after_ensure hash size at o none k =
    ap (with_entries o) (insert-map_values row_of hash _ o.entries)
tables_after_ensure hash size at o (some e) k = rw (k e refl) refl

tables_after_update :
    (hash : Text) (info : TaskInfo) (o : Catalog) (known : Option Entry)
    → Distinct (keys o.entries)
    → lookup hash o.entries ≡ known
    → with_entries o (
        update_where
          (λ r. record r { info = fill_info r.info info })
          hash
          (map_values row_of o.entries))
      ≡ tables_of (update_known hash info known o)
unfolding update_known row_of tables_of
tables_after_update hash info o none d p =
    ap (with_entries o) (update_where_absent _ hash o.entries p)
tables_after_update hash info o (some e) d p =
    ap (with_entries o)
      (update_where-insert _ hash e (record e { info = fill_info e.info info }) o.entries d p refl)

changed-tables_of :
    (op : Operation) (o : Catalog)
    → IsKeyed o.entries
    → Agrees op o
    → changed op (tables_of o) ≡ tables_of (perform op o)
unfolding changed perform tables_of upsert_entry record_hit record_miss delete ensure_entry
    update_task_info seed remove_all
changed-tables_of (upsert hash size at info) o keyed a =
    ap (λ rows. bumped (codes "stores") (plus_one stores_key) at (with_entries o rows))
      (entries_after_upsert hash size at info o.entries keyed a.0 a.1)
    ∙ bumped-tables_of stores_key at (record o {
      entries =
          insert hash (upserted hash size at info (entry_or_zero (lookup hash o.entries)))
            o.entries;
      dirty = true;
    })
changed-tables_of (hit_at hash at) o keyed a =
    ap (λ rows. bumped (codes "hits") (plus_one hits_key) at (with_entries o rows))
      (entries_after_hit hash at o.entries (lookup hash o.entries) keyed refl a.0 a.1)
    ∙ bumped-tables_of hits_key at (record o {
      entries = insert hash (hit hash at (entry_or_zero (lookup hash o.entries))) o.entries;
      dirty = true;
    })
changed-tables_of (miss_at at) o keyed a = bumped-tables_of misses_key at o
changed-tables_of (delete_all []) o keyed a = refl
changed-tables_of (delete_all (k ∷ ks)) o keyed a =
    ap (with_entries o) (remove_all-map_values row_of (k ∷ ks) o.entries)
changed-tables_of (ensure hash size at) o keyed a =
    ap
      (λ r.
        with_entries o
          (insert_or_ignore hash (new_row size (unix at) no_info) r (map_values row_of o.entries)))
      (lookup-map_values row_of hash o.entries)
    ∙ tables_after_ensure hash size at o (lookup hash o.entries) a
changed-tables_of (update hash info) o keyed a =
    tables_after_update hash info o (lookup hash o.entries) keyed.distinct refl
changed-tables_of (put_back e) o keyed a =
    ap (with_entries o) (insert-map_values row_of e.hash e o.entries)

-- Operations each of which is one that the catalogs agree on, where it is called.
unfoldable pub AllAgree : List Operation → Catalog → Type 0
AllAgree [] o = Unit
AllAgree (op ∷ ops) o = Agrees op o × AllAgree ops (perform op o)

-- The calls on the database one after the other, with the errors that they return.
unfoldable pub run_db : List Operation → Db → List (Option Fault) × Db
run_db [] d = ([], d)
run_db (op ∷ ops) d =
    let (e, d') = call db_store op d in let (es, d'') = run_db ops d' in (e ∷ es, d'')

abbrev pub all_none : List (Option Fault) → Bool
all_none [] = true
all_none (none ∷ es) = all_none es
all_none (some e ∷ es) = false

-- A database that holds what a catalog in memory holds, with times in seconds, holds it still after
-- any calls of which no statement fails and on which the catalogs agree, and every call returns nil.
pub run_db-tables_of :
    (ops : List Operation) (o : Catalog) (d : Db)
    → IsKeyed o.entries
    → AllAgree ops o
    → Quiet d
    → d.tables ≡ tables_of o
    → ((run_db ops d).1.tables ≡ tables_of (run ops o)) × (all_none (run_db ops d).0 ≡ true)
unfolding run_db run AllAgree
run_db-tables_of [] o d keyed a q p = (p, refl)
run_db-tables_of (op ∷ ops) o d keyed a q p =
    let g = call-Gives op d (tables_of o) q p in
    let (t, e) =
      run_db-tables_of ops (perform op o) (call db_store op d).1 (perform-IsKeyed op o keyed) a.1
        g.quiet (g.tables ∙ changed-tables_of op o keyed a.0) in
    (t, ap (λ x. all_none (x ∷ (run_db ops (call db_store op d).1).0)) g.fine ∙ e)
