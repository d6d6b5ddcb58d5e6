-- ===== src/Store/Object/Flush/Refused.antt =====
-- internal/store/object.go: the flushes after a load that failed.
use nx_cache.Common.{
  ℕ, ◌≡◌, refl, ◌∙◌, true, Option, none, some, List, [], ◌∷◌, arith, Text, lookup, Time,
}
use nx_cache.Storage.Types.{Fault, Result, load_failed}
use nx_cache.Store.Types.{TaskInfo, Entry}
use nx_cache.Store.Object.Run.{perform, run, Operation, delete_all, ensure, update}
use nx_cache.Store.Object.{
  upsert_entry, record_hit, record_miss, delete, ensure_known, ensure_entry, update_known,
  update_task_info, seed, Catalog,
}
use nx_cache.Store.Object.Flush.{load, begin_flush, flush, Codec, MetaStore}

-- No operation but a load clears the mark of a failed load.
ensure_known-load_failed :
    (hash : Text) (size : ℕ) (at : Time) (known : Option Entry) (o : Catalog)
    → (ensure_known hash size at known o).load_failed ≡ o.load_failed
unfolding ensure_known
ensure_known-load_failed hash size at none o = refl
ensure_known-load_failed hash size at (some e) o = ground arith

update_known-load_failed :
    (hash : Text) (info : TaskInfo) (known : Option Entry) (o : Catalog)
    → (update_known hash info known o).load_failed ≡ o.load_failed
unfolding update_known
update_known-load_failed hash info none o = refl
update_known-load_failed hash info (some e) o = refl

perform-load_failed : (op : Operation) (o : Catalog) → (perform op o).load_failed ≡ o.load_failed
unfolding perform upsert_entry record_hit record_miss delete ensure_entry update_task_info seed
perform-load_failed (delete_all []) o = refl
perform-load_failed (delete_all (k ∷ ks)) o = refl
perform-load_failed (ensure hash size at) o =
    ensure_known-load_failed hash size at (lookup hash o.entries) o
perform-load_failed (update hash info) o =
    update_known-load_failed hash info (lookup hash o.entries) o
perform-load_failed _ o = refl

run-load_failed : (ops : List Operation) (o : Catalog) → (run ops o).load_failed ≡ o.load_failed
unfolding run
run-load_failed [] o = refl
run-load_failed (op ∷ ops) o = run-load_failed ops (perform op o) ∙ perform-load_failed op o

load-err :
    {D : Type 0} (codec : Codec D) (r : Result D) (o : Catalog) (e : Fault)
    → (load codec r o).0 ≡ some e
    → (load codec r o).1.load_failed ≡ true
unfolding load
load-err codec r o e h = ground arith

-- After a load that failed, a flush writes nothing, whatever operations have been run since: it
-- reports ErrCatalogLoadFailed and leaves the stored snapshot and the catalog as they are.
pub flush_after_failed_load :
    {D : Type 0} (codec : Codec D) (meta : MetaStore D) (r : Result D) (o : Catalog) (e : Fault)
    (ops : List Operation) (m : meta.State)
    → (load codec r o).0 ≡ some e
    → flush codec meta (run ops (load codec r o).1) m
      ≡ (some load_failed, m, run ops (load codec r o).1)
unfolding flush
flush_after_failed_load codec meta r o e ops m h =
    rw (run-load_failed ops (load codec r o).1 ∙ load-err codec r o e h, begin_flush)
