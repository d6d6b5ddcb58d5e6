-- ===== src/Cleanup/Spared.antt =====
-- internal/cleanup/cleanup.go: what no run removes, one that fails halfway included.
use nx_cache.Common.{
  ◌≡◌, refl, ◌∙◌, subst, false, Option, none, some, List, [], ◌∷◌, arith, Text, mem, Time,
}
use nx_cache.Storage.Types.{Fault, Result, Object, Backend, BackendLaws, ok, err}
use nx_cache.Store.Types.{Entry}
use nx_cache.Store.Interface.{Store, StoreLaws}
use nx_cache.Cleanup.{
  hashes_of, stale_objects, World, store_delete, backend_delete, remove_hashes, with_objects,
  with_entries, sweep,
}
use nx_cache.Cleanup.Expiry.{mem-gather, mem-hashes_of, expired, mem-stale_objects, gone}

module _ {b : Backend} {s : Store} (bl : BackendLaws b) (sl : StoreLaws s) where
  -- What stays after any run, one that fails halfway too.
  pub record Spared (cutoff : Time) (w w' : World b s) : Type 0 where
    pub objects : (k : Text) → gone bl sl cutoff w k ≡ false → bl.view w'.0 k ≡ bl.view w.0 k
    pub entries : (k : Text) → gone bl sl cutoff w k ≡ false → sl.entry w'.1 k ≡ sl.entry w.1 k

  Spared-as_is : (cutoff : Time) (w : World b s) → Spared cutoff w w
  Spared-as_is cutoff w = record { objects = λ k g. refl; entries = λ k g. refl }

  module _ (cutoff : Time) (w : World b s) where
    abbrev OnlyGone : List Text → Type 0
    OnlyGone hs = (k : Text) → gone bl sl cutoff w k ≡ false → mem k hs ≡ false

    objects_spared :
        (hs : List Text) (r : Option Fault × b.State) (k : Text)
        → b.delete w.0 hs ≡ r
        → mem k hs ≡ false
        → bl.view r.1 k ≡ bl.view w.0 k
    objects_spared hs r k p m =
        subst (λ x. bl.view x.1 k ≡ bl.view w.0 k) p (bl.delete_keeps w.0 hs k m)

    entries_spared :
        (hs : List Text) (r : Option Fault × s.State) (k : Text)
        → s.delete hs w.1 ≡ r
        → mem k hs ≡ false
        → sl.entry r.1 k ≡ sl.entry w.1 k
    entries_spared hs r k p m =
        subst (λ x. sl.entry x.1 k ≡ sl.entry w.1 k) p (sl.delete_keeps w.1 hs k m)

    store_delete-Spared :
        (hs : List Text) (rb : Option Fault × b.State) (r : Option Fault × s.State)
        → OnlyGone hs
        → b.delete w.0 hs ≡ rb
        → s.delete hs w.1 ≡ r
        → Spared cutoff w (store_delete b s hs rb.1 r).1
    unfolding store_delete
    store_delete-Spared hs rb (some e, ss') f p q = record {
      objects = λ k g. objects_spared hs rb k p (f k g);
      entries = λ k g. entries_spared hs (some e, ss') k q (f k g);
    }
    store_delete-Spared hs rb (none, ss') f p q = record {
      objects = λ k g. objects_spared hs rb k p (f k g);
      entries = λ k g. entries_spared hs (none, ss') k q (f k g);
    }

    backend_delete-Spared :
        (hs : List Text) (r : Option Fault × b.State)
        → OnlyGone hs
        → b.delete w.0 hs ≡ r
        → Spared cutoff w (backend_delete b s hs r w.1).1
    unfolding backend_delete
    backend_delete-Spared hs (some e, bs') f p = record {
      objects = λ k g. objects_spared hs (some e, bs') k p (f k g);
      entries = λ k g. refl;
    }
    backend_delete-Spared hs (none, bs') f p =
        store_delete-Spared hs (none, bs') (s.delete hs w.1) f p refl

    remove_hashes-Spared :
        (hs : List Text) → OnlyGone hs → Spared cutoff w (remove_hashes b s hs w).1
    unfolding remove_hashes
    remove_hashes-Spared [] f = Spared-as_is cutoff w
    remove_hashes-Spared (x ∷ hs) f = backend_delete-Spared (x ∷ hs) (b.delete w.0 (x ∷ hs)) f refl

    with_objects-Spared :
        (hs : List Text) (r : Result (List Object))
        → bl.IsSound w.0
        → OnlyGone hs
        → b.list w.0 ≡ r
        → Spared cutoff w (with_objects b s cutoff hs r w).1
    unfolding with_objects
    with_objects-Spared hs (err e) sound f p = Spared-as_is cutoff w
    with_objects-Spared hs (ok os) sound f p = remove_hashes-Spared _ (λ k g. ground (
      arith,
      mem-gather k (stale_objects cutoff os) hs,
      f k g,
      mem-stale_objects k cutoff os,
      bl.list_ok w.0 os k (expired cutoff) sound p,
    ))

    with_entries-Spared :
        (r : Result (List Entry))
        → bl.IsSound w.0
        → sl.IsSound w.1
        → s.list_older_than cutoff w.1 ≡ r
        → Spared cutoff w (with_entries b s cutoff r w).1
    unfolding with_entries
    with_entries-Spared (err e) sound ssound p = Spared-as_is cutoff w
    with_entries-Spared (ok es) sound ssound p =
        with_objects-Spared _ (b.list w.0) sound
          (λ k g.
            mem-gather k (hashes_of es) []
            ∙ unfold mem in
              (mem-hashes_of k es) ∙ sl.list_older_ok w.1 cutoff es k ssound p ∙ ground arith)
          refl

    pub sweep-Spared : bl.IsSound w.0 → sl.IsSound w.1 → Spared cutoff w (sweep b s cutoff w).1
    unfolding sweep
    sweep-Spared sound ssound = with_entries-Spared (s.list_older_than cutoff w.1) sound ssound refl

    -- A run, whether it succeeds or fails at any point, leaves what the backend and the catalog hold
    -- at a hash that has expired in neither.
    pub sweep_spares :
        (k : Text)
        → bl.IsSound w.0
        → sl.IsSound w.1
        → gone bl sl cutoff w k ≡ false
        → (bl.view (sweep b s cutoff w).1.0 k ≡ bl.view w.0 k)
          × (sl.entry (sweep b s cutoff w).1.1 k ≡ sl.entry w.1 k)
    sweep_spares k sound ssound g =
        let spared = sweep-Spared sound ssound in (spared.objects k g, spared.entries k g)
