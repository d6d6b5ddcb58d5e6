-- ===== src/Store/Object/Flush/Finished.antt =====
-- internal/store/object.go: a flush that reports no error.
use nx_cache.Common.{◌≡◌, refl, sym, ap, ◌∙◌, subst, inl, inr, false, Option, none, some}
use nx_cache.Storage.Types.{Fault, Result, ok, err}
use nx_cache.Store.Object.{Catalog}
use nx_cache.Store.Object.Flush.{
  catalog_meta_key, clone_locked, begin_flush, after_put, put_snapshot, end_flush, continue_flush,
  flush, Snapshot, Codec, FlushStart, MetaStore, writing,
}
use nx_cache.Store.Object.Flush.Durable.{
  MetaLaws, ReadsBack, recovered, recovered-put, begin_flush-cases,
}

module _ {D : Type 0} (codec : Codec D) (meta : MetaStore D) (laws : MetaLaws meta) where
  after_put-ok :
      (r : Option Fault × meta.State) (o : Catalog)
      → (after_put codec meta r o).0 ≡ none
      → (r.0 ≡ none) × ((after_put codec meta r o).2 ≡ o) × ((after_put codec meta r o).1 ≡ r.1)
  unfolding after_put
  after_put-ok (none, m) o q = (refl, refl, refl)
  after_put-ok (some e, m) o q = (q, absurd (cc), refl)

  put_snapshot-ok :
      ReadsBack codec
      → (snap : Snapshot) (r : Result D) (m : meta.State) (o : Catalog) → codec.marshal snap ≡ r
      → snap ≡ clone_locked o
      → (put_snapshot codec meta r m o).0 ≡ none
      → (recovered codec meta laws (put_snapshot codec meta r m o).1 ≡ clone_locked o)
        × ((put_snapshot codec meta r m o).2 ≡ o)
  unfolding put_snapshot
  put_snapshot-ok back snap (err e) m o p same h = absurd (cc)
  put_snapshot-ok back snap (ok raw) m o p same h =
      let (done, kept, written) = after_put-ok (meta.put_meta m catalog_meta_key raw) o h in
      (
        ap (recovered codec meta laws) written
            ∙ recovered-put codec meta laws back snap raw m o p done same,
        kept,
      )

  -- What holds after a flush that reports no error.
  abbrev Finished : meta.State → Catalog → FlushStart × Catalog → Type 0
  Finished m o begun =
      (continue_flush codec meta begun.0 begun.1 m).0 ≡ none
      → (recovered codec meta laws (continue_flush codec meta begun.0 begun.1 m).1 ≡ clone_locked o)
        × ((continue_flush codec meta begun.0 begun.1 m).2.dirty ≡ false)
        × (clone_locked (continue_flush codec meta begun.0 begun.1 m).2 ≡ clone_locked o)

  writing-Finished :
      ReadsBack codec
      → (o : Catalog) (m : meta.State)
      → Finished m o (writing (clone_locked o), record o { dirty = false })
  unfolding continue_flush end_flush clone_locked
  writing-Finished back o m p =
      let (read, kept) =
        put_snapshot-ok back (clone_locked o) (codec.marshal (clone_locked o)) m
          (record o { dirty = false }) refl refl p in
      (read, ap (λ c. c.dirty) kept, ap clone_locked kept)

  begun-Finished :
      ReadsBack codec
      → (o : Catalog) (m : meta.State)
      → (o.dirty ≡ false → recovered codec meta laws m ≡ clone_locked o)
      → Finished m o (begin_flush o)
  unfolding continue_flush
  begun-Finished back o m h = elim (begin_flush-cases o) [
    | inl e ↦ subst (Finished m o) (sym e) (λ p. absurd (cc))
    | inr (inl (e, clean)) ↦ subst (Finished m o) (sym e) (λ p. (h clean, clean, refl))
    | inr (inr e) ↦ subst (Finished m o) (sym e) (writing-Finished back o m)
  ]

  -- A flush that reports no error, from a catalog that agrees with the store where it is clean:
  -- a restart finds the catalog's content, and the catalog is clean with the same content. It rests
  -- on a write being read back, and on the JSON form being read back.
  pub flush-ok :
      ReadsBack codec
      → (o : Catalog) (m : meta.State)
      → (o.dirty ≡ false → recovered codec meta laws m ≡ clone_locked o)
      → (flush codec meta o m).0 ≡ none
      → (recovered codec meta laws (flush codec meta o m).1 ≡ clone_locked o)
        × ((flush codec meta o m).2.dirty ≡ false)
        × (clone_locked (flush codec meta o m).2 ≡ clone_locked o)
  unfolding flush
  flush-ok back o m h p = begun-Finished back o m h p
