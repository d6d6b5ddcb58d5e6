-- ===== src/Store/Object/Flush.antt =====
-- internal/store/object.go: `Load`, `Flush` and the snapshot between them. `encoding/json` and the
-- stored form of a snapshot, a type `D`, are parameters.
pub mod Durable
pub mod Finished
pub mod Life
pub mod Refused
use nx_cache.Common.{
  ℕ, ◌-◌, ◌/◌, ap, true, false, not, Option, none, some, [], ◌∷◌, map, if◌then◌else◌, Text, codes,
  Assoc,
}
use nx_cache.Storage.Types.{Fault, Result, not_found, load_failed, failure, ok, err}
use nx_cache.Store.Types.{Entry, DayStat}
use nx_cache.Store.Object.{hit, stats, Catalog}

-- The maps of a snapshot that was read may be nil.
pub record Snapshot : Type 0 where
  pub hits : ℕ
  pub misses : ℕ
  pub stores : ℕ
  pub days : Option (Assoc (Option DayStat))
  pub entries : Option (Assoc Entry)

-- json.Marshal and json.Unmarshal of a snapshot.
pub record Codec (D : Type 0) : Type 0 where
  pub marshal : Snapshot → Result D
  pub unmarshal : D → Option Snapshot

abbrev pub catalog_meta_key : Text
catalog_meta_key = codes "catalog.json"

abbrev pub or_empty : Option (Assoc (Option DayStat)) → Assoc (Option DayStat)
or_empty none = []
or_empty (some days) = days

unfoldable pub load_snapshot : Option Snapshot → Catalog → Option Fault × Catalog
load_snapshot none o = (some failure, record o { load_failed = true })
load_snapshot (some snap) o = (
  none,
  record {
    entries = elim snap.entries [ none ↦ o.entries | some entries ↦ entries ];
    stats = record {
      hits = snap.hits;
      misses = snap.misses;
      stores = snap.stores;
      days = or_empty snap.days;
    };
    dirty = false;
    load_failed = false;
  },
)

-- Load, with what `GetMeta` returned.
unfoldable pub load : {D : Type 0} → Codec D → Result D → Catalog → Option Fault × Catalog
unfolding load_snapshot
load codec (err not_found) o = (none, record o { load_failed = false })
load codec (ok raw) o = load_snapshot (codec.unmarshal raw) o
load codec (err e) o = (some e, record o { load_failed = true })

unfoldable pub copy_days : Assoc (Option DayStat) → Assoc (Option DayStat)
copy_days [] = []
copy_days ((k, none) ∷ days) = copy_days days
copy_days ((k, some v) ∷ days) = (k, some v) ∷ copy_days days

unfoldable pub clone_locked : Catalog → Snapshot
unfolding copy_days
clone_locked o = record {
  hits = o.stats.hits;
  misses = o.stats.misses;
  stores = o.stats.stores;
  days = some (copy_days o.stats.days);
  entries = some o.entries;
}

pub data FlushStart : Type 0 where
  refused : FlushStart
  nothing_to_do : FlushStart
  writing : Snapshot → FlushStart

-- Flush, up to the point where it lets go of `mu`.
unfoldable pub begin_flush : Catalog → FlushStart × Catalog
unfolding clone_locked
begin_flush o =
    if o.load_failed
    then (refused, o)
    else if not o.dirty
    then (nothing_to_do, o)
    else (writing (clone_locked o), record o { dirty = false })

unfoldable pub mark_dirty : Catalog → Catalog
mark_dirty o = record o { dirty = true }

-- The metadata's part of a backend.
pub record MetaStore (D : Type 0) : Type 1 where
  pub State : Type 0
  pub put_meta : State → Text → D → Option Fault × State
  pub get_meta : State → Text → Result D

module _ {D : Type 0} (codec : Codec D) (meta : MetaStore D) where
  -- The answer of `PutMeta`, under `mu` again if it is an error.
  unfoldable pub after_put :
      Option Fault × meta.State → Catalog → Option Fault × meta.State × Catalog
  unfolding mark_dirty
  after_put (none, m) o = (none, m, o)
  after_put (some e, m) o = (some e, m, mark_dirty o)

  unfoldable pub put_snapshot :
      Result D → meta.State → Catalog → Option Fault × meta.State × Catalog
  unfolding mark_dirty after_put
  put_snapshot (err e) m o = (some e, m, mark_dirty o)
  put_snapshot (ok raw) m o = after_put (meta.put_meta m catalog_meta_key raw) o

  -- Flush, from there on: `o` is the catalog as it is when the write has come back.
  unfoldable pub end_flush : Snapshot → meta.State → Catalog → Option Fault × meta.State × Catalog
  unfolding put_snapshot
  end_flush snap m o = put_snapshot (codec.marshal snap) m o

  unfoldable pub continue_flush :
      FlushStart → Catalog → meta.State → Option Fault × meta.State × Catalog
  unfolding end_flush
  continue_flush refused o m = (some load_failed, m, o)
  continue_flush nothing_to_do o m = (none, m, o)
  continue_flush (writing snap) o m = end_flush snap m o

  -- Flush with nothing in between.
  unfoldable pub flush : Catalog → meta.State → Option Fault × meta.State × Catalog
  unfolding begin_flush continue_flush
  flush o m = let (start, o') = begin_flush o in continue_flush start o' m
