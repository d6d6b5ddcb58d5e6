-- ===== src/Tests/Flushing.antt =====
-- internal/store/object.go: flushes into a store of one document, whose JSON form is the snapshot.
use nx_cache.Common.{◌≡◌, refl, sym, ap, Option, none, some, [], ◌∷◌, codes, false}
use nx_cache.Storage.Types.{Result, not_found, load_failed, failure, ok, err, ok_injective}
use nx_cache.Store.Types.{no_info}
use nx_cache.Store.Object.{new_object, Catalog}
use nx_cache.Store.Object
use nx_cache.Store.Object.Run.{perform, run, upsert, Operation}
use nx_cache.Store.Object.Flush.{
  begin_flush, clone_locked, flush, load, end_flush, Codec, MetaStore, Snapshot,
}
use nx_cache.Store.Object.Flush.Refused.{flush_after_failed_load}
use nx_cache.Store.Object.Flush.Durable.{
  Reach-recovers, found, recovered, MetaLaws, Process, Reach, ReadsBack, here, next, operation,
  start, finish,
}
use nx_cache.Store.Object.Flush.Life.{close, loaded, close-recovers}

abbrev pub codec : Codec Snapshot
codec = record { marshal = ok; unmarshal = some }

abbrev read_one : Option Snapshot → Result Snapshot
read_one none = err not_found
read_one (some snap) = ok snap

-- A store that holds one document.
abbrev one_document : MetaStore Snapshot
one_document = record {
  State = Option Snapshot;
  put_meta = λ m key snap. (none, some snap);
  get_meta = λ m key. read_one m;
}

abbrev document_laws : MetaLaws one_document
document_laws = record { held = λ m key. m; put_ok = λ m key snap h. refl }

reads_back : ReadsBack codec
reads_back snap raw h = ap some (sym (ok_injective snap raw h))

abbrev store_one : Operation
store_one = upsert (codes "a1") 3 7 no_info

abbrev first : Process codec one_document document_laws
first = record { catalog = new_object; stored = none; in_flight = none }

abbrev second : Process codec one_document document_laws
second = record first { catalog = perform store_one new_object }

abbrev third : Process codec one_document document_laws
third = record {
  catalog = record second.catalog { dirty = false };
  stored = none;
  in_flight = some (clone_locked second.catalog);
}

abbrev fourth : Process codec one_document document_laws
fourth = record {
  catalog = record second.catalog { dirty = false };
  stored = some (clone_locked second.catalog);
  in_flight = none;
}

reach : Reach codec one_document document_laws first fourth
unfolding begin_flush perform Object.upsert_entry end_flush
reach =
    next
      (next (next here (operation first store_one))
        (start second (clone_locked second.catalog) third.catalog refl refl))
      (finish third (clone_locked second.catalog) refl)

agrees_at_start :
    new_object.dirty ≡ false
    → recovered codec one_document document_laws none ≡ clone_locked new_object
unfolding recovered load clone_locked
agrees_at_start clean = refl

Reach-recovers_example :
    recovered codec one_document document_laws (some (clone_locked second.catalog))
    ≡ clone_locked fourth.catalog
Reach-recovers_example =
    Reach-recovers codec one_document document_laws reads_back first fourth agrees_at_start reach
      refl refl

closed : (close codec one_document second.catalog none).0 ≡ none
unfolding close perform Object.upsert_entry
closed = refl

stores_one :
    Reach codec one_document document_laws (loaded codec one_document document_laws none) second
unfolding load found
stores_one = next here (operation first store_one)

close-recovers_example :
    recovered codec one_document document_laws (close codec one_document second.catalog none).1
    ≡ clone_locked second.catalog
close-recovers_example =
    close-recovers codec one_document document_laws reads_back none second stores_one refl closed

flush_after_failed_load_example :
    flush codec one_document (run (store_one ∷ []) (load codec (err failure) new_object).1) none
    ≡ (some load_failed, none, run (store_one ∷ []) (load codec (err failure) new_object).1)
unfolding load
flush_after_failed_load_example =
    flush_after_failed_load codec one_document (err failure) new_object failure (store_one ∷ [])
      none refl
