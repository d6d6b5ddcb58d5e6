-- ===== src/Cleanup/Removed.antt =====
-- internal/cleanup/cleanup.go: what a run that succeeds has removed.
use nx_cache.Common.{
  ℕ, ◌≡◌, refl, ap, ◌∙◌, subst, Option, none, some, List, [], ◌∷◌, arith, if◌then◌else◌, length,
  Text, mem, Distinct, Time,
}
use nx_cache.Storage.Types.{ok_injective, Fault, Result, Object, Backend, BackendLaws, ok, err}
use nx_cache.Store.Types.{Entry}
use nx_cache.Store.Interface.{Store, StoreLaws}
use nx_cache.Cleanup.{
  hashes_of, stale_objects, World, store_delete, backend_delete, remove_hashes, with_objects,
  with_entries, sweep,
}
use nx_cache.Store.Object.Listing.{is_older}
use nx_cache.Cleanup.Expiry.{
  mem-gather, gather-Distinct, mem-hashes_of, expired, mem-stale_objects, gone,
}

module _ {b : Backend} {s : Store} (bl : BackendLaws b) (sl : StoreLaws s) where
  -- What a run that returns `n` has done.
  pub record Cleaned (cutoff : Time) (w w' : World b s) (n : ℕ) : Type 0 where
    pub hashes : List Text
    pub distinct : Distinct hashes
    pub removed : (k : Text) → mem k hashes ≡ gone bl sl cutoff w k
    pub count : length hashes ≡ n
    pub objects :
        (k : Text) → bl.view w'.0 k ≡ (if gone bl sl cutoff w k then none else bl.view w.0 k)
    pub entries :
        (k : Text) → sl.entry w'.1 k ≡ (if gone bl sl cutoff w k then none else sl.entry w.1 k)

  objects_deleted :
      (bs bs' : b.State) (hs : List Text) (k : Text)
      → b.delete bs hs ≡ (none, bs')
      → bl.view bs' k ≡ (if mem k hs then none else bl.view bs k)
  objects_deleted bs bs' hs k e =
      subst (λ x. bl.view x k ≡ (if mem k hs then none else bl.view bs k)) (ap (λ r. r.1) e)
        (bl.delete_ok bs hs (ap (λ r. r.0) e) k)

  entries_deleted :
      (ss ss' : s.State) (hs : List Text) (k : Text)
      → s.delete hs ss ≡ (none, ss')
      → sl.entry ss' k ≡ (if mem k hs then none else sl.entry ss k)
  entries_deleted ss ss' hs k e =
      subst (λ x. sl.entry x k ≡ (if mem k hs then none else sl.entry ss k)) (ap (λ r. r.1) e)
        (sl.delete_ok ss hs k (ap (λ r. r.0) e))

  module _ (cutoff : Time) (n : ℕ) where
    abbrev Found : World b s → List Text → Type 0
    Found w hs = (k : Text) → mem k hs ≡ gone bl sl cutoff w k

    store_delete-Cleaned :
        (w : World b s) (hs : List Text) (bs' : b.State) (r : Option Fault × s.State)
        → Distinct hs
        → Found w hs
        → b.delete w.0 hs ≡ (none, bs')
        → s.delete hs w.1 ≡ r
        → (store_delete b s hs bs' r).0 ≡ ok n
        → Cleaned cutoff w (store_delete b s hs bs' r).1 n
    unfolding store_delete
    store_delete-Cleaned w hs bs' (some e, ss') d f p q h = absurd (cc)
    store_delete-Cleaned w hs bs' (none, ss') d f p q h = record {
      hashes = hs;
      distinct = d;
      removed = f;
      count = ok_injective _ _ h;
      objects = λ k. objects_deleted w.0 bs' hs k p ∙ rw (f k);
      entries = λ k. entries_deleted w.1 ss' hs k q ∙ rw (f k);
    }

    backend_delete-Cleaned :
        (w : World b s) (hs : List Text) (r : Option Fault × b.State)
        → Distinct hs
        → Found w hs
        → b.delete w.0 hs ≡ r
        → (backend_delete b s hs r w.1).0 ≡ ok n
        → Cleaned cutoff w (backend_delete b s hs r w.1).1 n
    unfolding backend_delete
    backend_delete-Cleaned w hs (some e, bs') d f p h = absurd (cc)
    backend_delete-Cleaned w hs (none, bs') d f p h =
        store_delete-Cleaned w hs bs' (s.delete hs w.1) d f p refl h

    remove_hashes-Cleaned :
        (w : World b s) (hs : List Text)
        → Distinct hs
        → Found w hs
        → (remove_hashes b s hs w).0 ≡ ok n
        → Cleaned cutoff w (remove_hashes b s hs w).1 n
    unfolding remove_hashes mem
    remove_hashes-Cleaned w [] d f h = record {
      hashes = [];
      distinct = tt;
      removed = f;
      count = ok_injective _ _ h;
      objects = λ k. rw (← f k);
      entries = λ k. rw (← f k);
    }
    remove_hashes-Cleaned w (x ∷ hs) d f h =
        backend_delete-Cleaned w (x ∷ hs) (b.delete w.0 (x ∷ hs)) d f refl h

    with_objects-Cleaned :
        (w : World b s) (hs : List Text) (r : Result (List Object))
        → bl.IsSound w.0
        → Distinct hs
        → ((k : Text) → mem k hs ≡ is_older (sl.mark cutoff) (sl.entry w.1 k))
        → b.list w.0 ≡ r
        → (with_objects b s cutoff hs r w).0 ≡ ok n
        → Cleaned cutoff w (with_objects b s cutoff hs r w).1 n
    unfolding with_objects
    with_objects-Cleaned w hs (err e) sound d f p h = absurd (cc)
    with_objects-Cleaned w hs (ok os) sound d f p h =
        remove_hashes-Cleaned w _ (gather-Distinct (stale_objects cutoff os) hs d)
          (λ k. ground (
            arith,
            mem-gather k (stale_objects cutoff os) hs,
            f k,
            mem-stale_objects k cutoff os,
            bl.list_ok w.0 os k (expired cutoff) sound p,
          ))
          h

    with_entries-Cleaned :
        (w : World b s) (r : Result (List Entry))
        → bl.IsSound w.0
        → sl.IsSound w.1
        → s.list_older_than cutoff w.1 ≡ r
        → (with_entries b s cutoff r w).0 ≡ ok n
        → Cleaned cutoff w (with_entries b s cutoff r w).1 n
    unfolding with_entries
    with_entries-Cleaned w (err e) sound ssound p h = absurd (cc)
    with_entries-Cleaned w (ok es) sound ssound p h =
        with_objects-Cleaned w _ (b.list w.0) sound (gather-Distinct (hashes_of es) [] tt)
          (λ k.
            mem-gather k (hashes_of es) []
            ∙ unfold mem in (mem-hashes_of k es) ∙ sl.list_older_ok w.1 cutoff es k ssound p)
          refl h

    -- A run that reports `n` has removed `n` different hashes: exactly those that the catalog
    -- holds since before the cutoff, or the backend under a name that its listing does not leave
    -- out, each from both, and nothing else has changed.
    pub sweep-Cleaned :
        (w : World b s)
        → bl.IsSound w.0
        → sl.IsSound w.1
        → (sweep b s cutoff w).0 ≡ ok n
        → Cleaned cutoff w (sweep b s cutoff w).1 n
    unfolding sweep
    sweep-Cleaned w sound ssound h =
        with_entries-Cleaned w (s.list_older_than cutoff w.1) sound ssound refl h
