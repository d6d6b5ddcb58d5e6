-- ===== src/Reconcile/Covered.antt =====
-- cmd/server/main.go: which objects have an entry after the catalog was brought in line.
use nx_cache.Common.{
  ℕ, ◌≡◌, refl, inl, inr, Bool, true, ◌||◌, Option, none, some, List, [], ◌∷◌, arith, if◌then◌else◌,
  any, length, Text, text_eq, text_eq_iff, lookup, insert, lookup-insert, not, ◌&&◌, ◌==◌, ltb, ◌∙◌,
  Bool-cases, is_empty, Time, is_zero, natural,
}
use nx_cache.Storage.Types.{is_some, Result, Object, Backend, ok, err}
use nx_cache.Store.Types.{is_empty_info, label, Letters, TaskInfo, Entry}
use nx_cache.Store.Object.{ensure_entry, ensure_known, update_task_info, update_known, Catalog}
use nx_cache.Store.Interface.{object_store}
use nx_cache.Reconcile.{ensure_all, reclassified, reclassify, with_listed, with_objects, reconcile}

abbrev pub has_entry : Text → Catalog → Bool
has_entry k o = is_some (lookup k o.entries)

insert-has :
    (hash k : Text) (e : Entry) (o : Catalog)
    → is_some (lookup k (insert hash e o.entries)) ≡ (text_eq hash k || has_entry k o)
insert-has hash k e o = ground (arith, lookup-insert hash k e o.entries)

ensure_known-has :
    (hash k : Text) (size : ℕ) (at : Time) (found : Option Entry) (o : Catalog)
    → lookup hash o.entries ≡ found
    → (text_eq hash k || has_entry k o) ≡ true
    → has_entry k (ensure_known hash size at found o) ≡ true
unfolding ensure_known
ensure_known-has hash k size at none o q h = insert-has hash k _ o ∙ h
ensure_known-has hash k size at (some e) o q h = elim (Bool-cases (e.size == 0 && ltb 0 size)) [
  | inl empty ↦ rw empty (insert-has hash k (record e { size = size }) o ∙ h)
  | inr full ↦ rw full (ground (arith, text_eq_iff hash k))
]

ensure_entry-has :
    (hash k : Text) (size : ℕ) (at : Time) (o : Catalog)
    → (text_eq hash k || has_entry k o) ≡ true
    → has_entry k (ensure_entry hash size at o).1 ≡ true
unfolding ensure_entry
ensure_entry-has hash k size at o h =
    ensure_known-has hash k size at (lookup hash o.entries) o refl h

update_known-has :
    (hash k : Text) (info : TaskInfo) (found : Option Entry) (o : Catalog)
    → has_entry k o ≡ true
    → has_entry k (update_known hash info found o) ≡ true
unfolding update_known
update_known-has hash k info none o h = h
update_known-has hash k info (some e) o h = insert-has hash k _ o ∙ ground (arith)

update_task_info-has :
    (hash k : Text) (info : TaskInfo) (o : Catalog)
    → has_entry k o ≡ true
    → has_entry k (update_task_info hash info o).1 ≡ true
unfolding update_task_info
update_task_info-has hash k info o h = update_known-has hash k info (lookup hash o.entries) o h

module _ (b : Backend) (u : Letters) (inspect : Text → TaskInfo) where
  ensure_all-has :
      (now : Time) (k : Text) (os : List Object) (o : Catalog)
      → (any (λ x. text_eq x.hash k) os || has_entry k o) ≡ true
      → has_entry k (ensure_all b (object_store u) inspect now os o) ≡ true
  unfolding ensure_all
  ensure_all-has now k [] o h = h
  ensure_all-has now k (x ∷ os) o h = ensure_all-has now k os _ (
      ground (
        arith,
        ensure_entry-has x.hash k x.size (if is_zero x.last_modified then now else x.last_modified)
            o,
      ))

  reclassified-has :
      (hash k : Text) (g : Result (Text × ℕ)) (o : Catalog)
      → has_entry k o ≡ true
      → has_entry k (reclassified b (object_store u) inspect hash g o) ≡ true
  unfolding reclassified
  reclassified-has hash k (err e) o h = h
  reclassified-has hash k (ok (body, n)) o h = elim (Bool-cases (is_empty_info (inspect body))) [
    | inl nothing ↦ rw nothing h
    | inr known ↦ rw known (update_task_info-has hash k (inspect body) o h)
  ]

  reclassify-has :
      (bs : b.State) (k : Text) (es : List Entry) (o : Catalog)
      → has_entry k o ≡ true
      → has_entry k (reclassify b (object_store u) inspect bs es o) ≡ true
  unfolding reclassify
  reclassify-has bs k [] o h = h
  reclassify-has bs k (e ∷ es) o h =
      reclassify-has bs k es _
        (elim (Bool-cases (not (is_empty (label e.info)) && not (is_empty e.info.kind))) [
          | inl named ↦ rw named h
          | inr nameless ↦ rw nameless (reclassified-has e.hash k (b.get bs e.hash) o h)
        ])

  with_listed-has :
      (bs : b.State) (k : Text) (l : Result (List Entry × ℕ)) (o : Catalog)
      → has_entry k o ≡ true
      → has_entry k (with_listed b (object_store u) inspect bs l o) ≡ true
  unfolding with_listed
  with_listed-has bs k (err e) o h = h
  with_listed-has bs k (ok (es, total)) o h = reclassify-has bs k es o h

  -- After the catalog in memory was brought in line with a backend that could be listed, every object
  -- of the listing has an entry, and so has every hash that had one, whatever the artifacts hold and
  -- whichever of them cannot be read.
  pub reconcile_covers :
      (now : Time) (bs : b.State) (os : List Object) (k : Text) (o : Catalog)
      → b.list bs ≡ ok os
      → (any (λ x. text_eq x.hash k) os || has_entry k o) ≡ true
      → has_entry k (reconcile b (object_store u) inspect now bs o) ≡ true
  unfolding reconcile with_objects
  reconcile_covers now bs os k o q h = rw q (
      with_listed-has bs k
        ((object_store u).list [] (length os) (natural 0)
          (ensure_all b (object_store u) inspect now os o))
        (ensure_all b (object_store u) inspect now os o) (ensure_all-has now k os o h))
