-- ===== src/Store/Object/Flush/Life.antt =====
-- internal/store/object.go: the life of a catalog in memory, from Load over the loop of Start to Close.
use nx_cache.Common.{
  subst, sym, inl, inr, refl, zero, suc, ◌≡◌, inl, inr, Bool, true, false, Option, none, Int64,
  natural, negative,
}
use nx_cache.Storage.Types.{Fault}
use nx_cache.Store.Object.{new_object, Catalog}
use nx_cache.Store.Object.Flush.{
  FlushStart, catalog_meta_key, load, clone_locked, begin_flush, continue_flush, flush, Codec,
  MetaStore,
}
use nx_cache.Store.Object.Flush.Durable.{
  MetaLaws, ReadsBack, recovered, found, Process, Reach, here, next, start, finish, Reach-recovers,
  begin_flush-cases,
}
use nx_cache.Store.Object.Flush.Finished.{flush-ok}

-- Start: without an interval there is no loop.
unfoldable pub has_loop : (flush_every : Int64) → Bool
has_loop (natural zero) = false
has_loop (natural (suc n)) = true
has_loop (negative n) = false

module _ {D : Type 0} (codec : Codec D) (meta : MetaStore D) where
  -- A tick of the loop: a flush that fails is logged.
  unfoldable pub tick : Catalog → meta.State → meta.State × Catalog
  unfolding flush
  tick o m = let (e, m', o') = flush codec meta o m in (m', o')

  -- Close, behind the wait for the loop.
  unfoldable pub close : Catalog → meta.State → Option Fault × meta.State × Catalog
  unfolding flush
  close o m = flush codec meta o m

  module _ (laws : MetaLaws meta) where
    -- The process that Load begins, with what is stored under the key.
    abbrev pub loaded : meta.State → Process codec meta laws
    loaded m = record {
      catalog = (load codec (found codec meta laws (laws.held m catalog_meta_key)) new_object).1;
      stored = m;
      in_flight = none;
    }

    -- The process behind a flush that began so.
    abbrev flushed : Process codec meta laws → FlushStart × Catalog → Process codec meta laws
    flushed p begun = record {
      catalog = (continue_flush codec meta begun.0 begun.1 p.stored).2;
      stored = (continue_flush codec meta begun.0 begun.1 p.stored).1;
      in_flight = none;
    }

    unchanged :
        (p : Process codec meta laws)
        → p.in_flight ≡ none
        → Reach codec meta laws p (record p { in_flight = none })
    unchanged p free = subst (λ f. Reach codec meta laws p (record p { in_flight = f })) free here

    flushed-Reach :
        (p : Process codec meta laws)
        → p.in_flight ≡ none
        → Reach codec meta laws p (flushed p (begin_flush p.catalog))
    unfolding continue_flush
    flushed-Reach p free = elim (begin_flush-cases p.catalog) [
      | inl e ↦ subst (λ b. Reach codec meta laws p (flushed p b)) (sym e) (unchanged p free)
      | inr (inl (e, clean)) ↦
          subst (λ b. Reach codec meta laws p (flushed p b)) (sym e) (unchanged p free)
      | inr (inr e) ↦
          subst (λ b. Reach codec meta laws p (flushed p b)) (sym e)
            (next (next here (start p _ _ free e)) (finish _ _ refl))
    ]

    -- A tick is a flush that begins and ends, or is refused, with nothing in between.
    pub tick-Reach :
        (p : Process codec meta laws)
        → p.in_flight ≡ none
        → Reach codec meta laws p (record {
          catalog = (tick p.catalog p.stored).1;
          stored = (tick p.catalog p.stored).0;
          in_flight = none;
        })
    unfolding tick flush
    tick-Reach p free = flushed-Reach p free

    agrees_at_load :
        (m : meta.State) → recovered codec meta laws m ≡ clone_locked (loaded m).catalog
    unfolding recovered
    agrees_at_load m = refl

    -- Where Load began and Close returned nil, whatever operations and flushes there were in between
    -- and whichever writes failed, a restart loads the content that the catalog has at its close. This
    -- rests on a write being read back, and on the JSON form being read back.
    pub close-recovers :
        ReadsBack codec
        → (m : meta.State) (q : Process codec meta laws) → Reach codec meta laws (loaded m) q
        → q.in_flight ≡ none
        → (close q.catalog q.stored).0 ≡ none
        → recovered codec meta laws (close q.catalog q.stored).1 ≡ clone_locked q.catalog
    unfolding close
    close-recovers back m q reach free h =
        (flush-ok codec meta laws back q.catalog q.stored
          (Reach-recovers codec meta laws back (loaded m) q (λ clean. agrees_at_load m) reach free)
          h).0
