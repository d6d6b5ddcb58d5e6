-- ===== src/Store/Object/Flush/Durable.antt =====
-- internal/store/object.go: what a restart finds, when flushes and operations interleave.
use nx_cache.Common.{
  ℕ, ◌≡◌, refl, sym, ap, ◌∙◌, subst, ◌⊎◌, inl, inr, false, Option, none, some, [], ◌∷◌, arith,
  Bool-cases, Option-cases, Text, Assoc, lookup, Time,
}
use nx_cache.Storage.Types.{Result, not_found, ok, err}
use nx_cache.Store.Types.{TaskInfo, Entry, DayStat}
use nx_cache.Store.Object.Run.{perform, Operation, delete_all, ensure, update}
use nx_cache.Store.Object.{
  new_object, upsert_entry, record_hit, record_miss, delete, ensure_known, ensure_entry,
  update_known, update_task_info, seed, Catalog,
}
use nx_cache.Store.Object.Flush.{
  catalog_meta_key, load_snapshot, load, copy_days, clone_locked, begin_flush, mark_dirty,
  after_put, put_snapshot, end_flush, Snapshot, Codec, MetaStore, refused, nothing_to_do, writing,
}

-- An operation that leaves the catalog clean has changed nothing.
ensure_known-clean :
    (hash : Text) (size : ℕ) (at : Time) (known : Option Entry) (o : Catalog)
    → (ensure_known hash size at known o).dirty ≡ false
    → ensure_known hash size at known o ≡ o
unfolding ensure_known
ensure_known-clean hash size at none o h = cc
ensure_known-clean hash size at (some e) o h = ground arith

update_known-clean :
    (hash : Text) (info : TaskInfo) (known : Option Entry) (o : Catalog)
    → (update_known hash info known o).dirty ≡ false
    → update_known hash info known o ≡ o
unfolding update_known
update_known-clean hash info none o h = refl
update_known-clean hash info (some e) o h = cc

perform-clean : (op : Operation) (o : Catalog) → (perform op o).dirty ≡ false → perform op o ≡ o
unfolding perform upsert_entry record_hit record_miss delete ensure_entry update_task_info seed
perform-clean (delete_all []) o h = refl
perform-clean (ensure hash size at) o h =
    ensure_known-clean hash size at (lookup hash o.entries) o h
perform-clean (update hash info) o h = update_known-clean hash info (lookup hash o.entries) o h
perform-clean _ o h = cc

-- What the metadata of a backend promises: a successful write is what is read.
pub record MetaLaws {D : Type 0} (meta : MetaStore D) : Type 1 where
  pub held : meta.State → Text → Option D
  pub put_ok :
      (m : meta.State) (k : Text) (raw : D)
      → (meta.put_meta m k raw).0 ≡ none
      → held (meta.put_meta m k raw).1 k ≡ some raw

-- A snapshot that was written is read back.
abbrev pub ReadsBack : {D : Type 0} → Codec D → Type 0
ReadsBack {D} codec =
    (snap : Snapshot) (raw : D) → codec.marshal snap ≡ ok raw → codec.unmarshal raw ≡ some snap

-- Load does not tell a nil day from a missing one, and neither does anything that reads the days.
copy_days_idem : (days : Assoc (Option DayStat)) → copy_days (copy_days days) ≡ copy_days days
unfolding copy_days
copy_days_idem [] = refl
copy_days_idem ((k, none) ∷ days) = copy_days_idem days
copy_days_idem ((k, some d) ∷ days) = ap (λ l. (k, some d) ∷ l) (copy_days_idem days)

-- A catalog that is made anew from a snapshot has the snapshot's content.
load-clone :
    (o : Catalog)
    → clone_locked (load_snapshot (some (clone_locked o)) new_object).1 ≡ clone_locked o
unfolding load_snapshot clone_locked
load-clone o = rw copy_days_idem

pub begin_flush-cases :
    (o : Catalog)
    → (begin_flush o ≡ (refused, o))
      ⊎ ((begin_flush o ≡ (nothing_to_do, o)) × (o.dirty ≡ false))
      ⊎ (begin_flush o ≡ (writing (clone_locked o), record o { dirty = false }))
unfolding begin_flush
begin_flush-cases o = elim (Bool-cases o.load_failed) [
  | inl failed ↦ inl (ground arith)
  | inr loaded ↦ elim (Bool-cases o.dirty) [
    | inl dirty ↦ inr (inr (ground arith))
    | inr clean ↦ inr (inl (ground arith, clean))
  ]
]

module _ {D : Type 0} (codec : Codec D) (meta : MetaStore D) (laws : MetaLaws meta) where
  unfoldable pub found : Option D → Result D
  found none = err not_found
  found (some raw) = ok raw

  -- The content of the catalog that a restart would load.
  unfoldable pub recovered : meta.State → Snapshot
  unfolding found
  recovered m = clone_locked (load codec (found (laws.held m catalog_meta_key)) new_object).1

  -- The process: the catalog, what is stored, and the snapshot that a flush is writing.
  pub record Process : Type 0 where
    pub catalog : Catalog
    pub stored : meta.State
    pub in_flight : Option Snapshot

  -- `mu` is free while a flush writes, so operations come in between; `flushMu` keeps a second
  -- flush out.
  pub data Step : Process → Process → Type 0 where
    operation :
        (p : Process) (op : Operation) → Step p (record p { catalog = perform op p.catalog })
    start :
        (p : Process) (snap : Snapshot) (o : Catalog)
        → p.in_flight ≡ none
        → begin_flush p.catalog ≡ (writing snap, o)
        → Step p (record p { catalog = o; in_flight = some snap })
    finish :
        (p : Process) (snap : Snapshot)
        → p.in_flight ≡ some snap
        → Step p (record {
          catalog = (end_flush codec meta snap p.stored p.catalog).2;
          stored = (end_flush codec meta snap p.stored p.catalog).1;
          in_flight = none;
        })

  pub data Reach (p : Process) : Process → Type 0 where
    here : Reach p p
    next : {q r : Process} → Reach p q → Step q r → Reach p r

  -- A clean catalog is what is stored or what is being written.
  abbrev pub Settled : Option Snapshot → meta.State → Catalog → Type 0
  Settled none m o = o.dirty ≡ false → recovered m ≡ clone_locked o
  Settled (some snap) m o = o.dirty ≡ false → snap ≡ clone_locked o

  abbrev pub IsDurable : Process → Type 0
  IsDurable p = Settled p.in_flight p.stored p.catalog

  operation-Settled :
      (f : Option Snapshot) (m : meta.State) (op : Operation) (o : Catalog)
      → Settled f m o
      → Settled f m (perform op o)
  operation-Settled none m op o h = λ clean.
      let same = perform-clean op o clean in rw same (h (ap (λ c. c.dirty) (sym same) ∙ clean))
  operation-Settled (some snap) m op o h = λ clean.
      let same = perform-clean op o clean in rw same (h (ap (λ c. c.dirty) (sym same) ∙ clean))

  start-Settled :
      (m : meta.State) (o o' : Catalog) (snap : Snapshot)
      → begin_flush o ≡ (writing snap, o')
      → snap ≡ clone_locked o'
  unfolding begin_flush clone_locked
  start-Settled m o o' snap p = ground arith

  -- After a write that succeeded, a restart finds what was written.
  pub recovered-put :
      ReadsBack codec
      → (snap : Snapshot) (raw : D) (m : meta.State) (o : Catalog) → codec.marshal snap ≡ ok raw
      → (meta.put_meta m catalog_meta_key raw).0 ≡ none
      → snap ≡ clone_locked o
      → recovered (meta.put_meta m catalog_meta_key raw).1 ≡ clone_locked o
  unfolding recovered load
  recovered-put back snap raw m o p q same =
      rw (laws.put_ok m catalog_meta_key raw q, back snap raw p, same) (load-clone o)

  after_put-Settled :
      ReadsBack codec
      → (snap : Snapshot) (raw : D) (m : meta.State) (o : Catalog) → codec.marshal snap ≡ ok raw
      → Settled (some snap) m o
      → Settled none
          (after_put codec meta (meta.put_meta m catalog_meta_key raw) o).1
          (after_put codec meta (meta.put_meta m catalog_meta_key raw) o).2
  unfolding after_put mark_dirty
  after_put-Settled back snap raw m o p h =
      elim (Option-cases (meta.put_meta m catalog_meta_key raw).0) [
        | inl done ↦
            rw (done, after_put) (λ clean. recovered-put back snap raw m o p done (h clean))
        | inr (e, failed) ↦ rw (failed, after_put) (λ clean. cc)
      ]

  put_snapshot-Settled :
      ReadsBack codec
      → (snap : Snapshot) (r : Result D) (m : meta.State) (o : Catalog) → codec.marshal snap ≡ r
      → Settled (some snap) m o
      → Settled none (put_snapshot codec meta r m o).1 (put_snapshot codec meta r m o).2
  unfolding put_snapshot
  put_snapshot-Settled back snap (err e) m o p h = λ clean. unfold mark_dirty in cc
  put_snapshot-Settled back snap (ok raw) m o p h = after_put-Settled back snap raw m o p h

  step-IsDurable : ReadsBack codec → (p q : Process) → Step p q → IsDurable p → IsDurable q
  unfolding end_flush
  step-IsDurable back p q (operation _ op) h = operation-Settled p.in_flight p.stored op p.catalog h
  step-IsDurable back p q (start _ snap o free begun) h =
      λ clean. start-Settled p.stored p.catalog o snap begun
  step-IsDurable back p q (finish _ snap busy) h =
      put_snapshot-Settled back snap (codec.marshal snap) p.stored p.catalog refl
        (subst (λ f. Settled f p.stored p.catalog) busy h)

  pub Reach-IsDurable : ReadsBack codec → (p q : Process) → IsDurable p → Reach p q → IsDurable q
  Reach-IsDurable back p q h here = h
  Reach-IsDurable back p q h (next {q = r} reach step) =
      step-IsDurable back r q step (Reach-IsDurable back p r h reach)

  -- However operations and flushes interleave, and whichever writes fail: when the catalog is clean
  -- and no flush is under way, a restart would load exactly the catalog's content. This holds if it
  -- holds at the start, the write of a snapshot is read back, and its JSON form too.
  pub Reach-recovers :
      ReadsBack codec
      → (p q : Process) → IsDurable p
      → Reach p q
      → q.in_flight ≡ none
      → q.catalog.dirty ≡ false
      → recovered q.stored ≡ clone_locked q.catalog
  Reach-recovers back p q h reach free clean =
      subst (λ f. Settled f q.stored q.catalog) free (Reach-IsDurable back p q h reach) clean
