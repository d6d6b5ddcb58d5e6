-- ===== src/Store/Db/Mirror/Rows.antt =====
-- internal/store/store.go and internal/store/object.go: one row beside one entry.
use nx_cache.Common.{
  ℕ, ◌+◌, ◌≡◌, refl, ap, ◌∙◌, true, false, Option, none, some, [], ◌∷◌, arith, Text, text_eq_iff,
  is_empty, Assoc, lookup, insert, Distinct, keys, lookup_absent, map_values, map_option,
  lookup-map_values, insert-map_values, Time, is_zero,
}
use nx_cache.Storage.Types.{is_some}
use nx_cache.Store.Types.{no_info, fill_info, TaskInfo, Entry}
use nx_cache.Store.Object.Entries.{IsKeyed}
use nx_cache.Store.Object.{entry_or_zero, upserted, hit}
use nx_cache.Store.Db.{unix, upsert_row, update_where, row_of, Row}

pub update_where_absent :
    (f : Row → Row) (key : Text) (m : Assoc Entry)
    → lookup key m ≡ none
    → update_where f key (map_values row_of m) ≡ map_values row_of m
unfolding update_where map_values lookup
update_where_absent f key [] p = refl
update_where_absent f key ((j, x) ∷ m) p = ground (arith, update_where_absent f key m)

-- An UPDATE of a row that is there is a write under its key.
pub update_where-insert :
    (f : Row → Row) (key : Text) (e e' : Entry) (m : Assoc Entry)
    → Distinct (keys m)
    → lookup key m ≡ some e
    → f (row_of e) ≡ row_of e'
    → update_where f key (map_values row_of m) ≡ map_values row_of (insert key e' m)
unfolding update_where map_values insert lookup
update_where-insert f key e e' [] h p q = absurd (cc)
update_where-insert f key e e' ((j, x) ∷ m) h p q = ground (
  arith,
  update_where-insert f key e e' m h.1,
  update_where_absent f key m,
  lookup_absent key m,
  text_eq_iff j key,
  h.0,
  q,
)

pub fill-no_info : (info : TaskInfo) → fill_info no_info info ≡ info
unfolding fill_info
fill-no_info info = ground arith

upsert_row-upserted :
    (hash : Text) (size : ℕ) (at : Time) (info : TaskInfo) (known : Option Entry)
    → is_empty hash ≡ false
    → ((e : Entry) → known ≡ some e → (e.hash ≡ hash) × (is_zero e.created_at ≡ false))
    → upsert_row size (unix at) info (map_option row_of known)
      ≡ row_of (upserted hash size at info (entry_or_zero known))
unfolding upsert_row upserted row_of
upsert_row-upserted hash size at info none h k = ground (arith, fill-no_info info)
upsert_row-upserted hash size at info (some e) h k = ground (arith, k e refl)

pub entries_after_upsert :
    (hash : Text) (size : ℕ) (at : Time) (info : TaskInfo) (m : Assoc Entry)
    → IsKeyed m
    → is_empty hash ≡ false
    → ((e : Entry) → lookup hash m ≡ some e → is_zero e.created_at ≡ false)
    → insert hash
        (upsert_row size (unix at) info (lookup hash (map_values row_of m)))
        (map_values row_of m)
      ≡ map_values row_of
          (insert hash (upserted hash size at info (entry_or_zero (lookup hash m))) m)
entries_after_upsert hash size at info m keyed h k =
    ap (λ r. insert hash (upsert_row size (unix at) info r) (map_values row_of m))
      (lookup-map_values row_of hash m)
    ∙ ap (λ r. insert hash r (map_values row_of m))
        (upsert_row-upserted hash size at info (lookup hash m) h
          (λ e p. (keyed.at_key hash e p, k e p)))
    ∙ insert-map_values row_of hash _ m

row_of-hit :
    (hash : Text) (at : Time) (e : Entry)
    → is_empty hash ≡ false
    → e.hash ≡ hash
    → record (row_of e) { hits = (row_of e).hits + 1; last_accessed_at = unix at }
      ≡ row_of (hit hash at e)
unfolding hit row_of
row_of-hit hash at e h p = ground arith

pub entries_after_hit :
    (hash : Text) (at : Time) (m : Assoc Entry) (known : Option Entry)
    → IsKeyed m
    → lookup hash m ≡ known
    → is_empty hash ≡ false
    → is_some known ≡ true
    → update_where
        (λ r. record r { hits = r.hits + 1; last_accessed_at = unix at })
        hash
        (map_values row_of m)
      ≡ map_values row_of (insert hash (hit hash at (entry_or_zero known)) m)
entries_after_hit hash at m none keyed p h k = absurd (cc)
entries_after_hit hash at m (some e) keyed p h k =
    update_where-insert _ hash e (hit hash at e) m keyed.distinct p
      (row_of-hit hash at e h (keyed.at_key hash e p))
