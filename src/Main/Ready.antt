-- ===== src/Main/Ready.antt =====
-- cmd/server/main.go: what holds of a server that gets as far as to listen.
pub mod Serving
use nx_cache.Common.{
  ℕ, zero, suc, ◌+◌, ◌<◌, ◌≡◌, refl, ap, subst, ◌⊎◌, inl, inr, true, false, Option, none, some,
  arith, Bool-cases, Text, codes, text_eq, Assoc, [],
}
use nx_cache.Storage.Types.{
  ok_injective, Fault, Result, not_found, already_exists, incomplete, load_failed, failure, ok, err,
}
use nx_cache.Store.Object.{new_object, Catalog}
use nx_cache.Store.Object.Flush.{load_snapshot, load, Snapshot, Codec}
use nx_cache.Store.Db.{Db}
use nx_cache.Store.Db.Migrate.{dsn}
use nx_cache.Store.Db.Migrated.{Honest, IsMigrated}
use nx_cache.Store.Db.Migrated.Opened.{open_db-IsMigrated}
use nx_cache.Config.{fail, env, Outcome, Parsers, Config, fine}
use nx_cache.Config
use nx_cache.Config.Checked.{load-IsValid, IsValid}
use nx_cache.Applog.{parse_level, new_options, Level}
use nx_cache.Main.{
  ensure_loop, with_bucket, choose_backend, opened_sqlite, loaded_object, choose_catalog,
  with_catalog, with_backend, with_level, with_config, start, BackendKind, OpenCatalog,
  Surroundings, Running, Start, s3_backend, sqlite_catalog, object_catalog, exits, running,
}

-- A nil map is an empty one.
abbrev pub map_or_nil : {A : Type 0} → Option (Assoc A) → Assoc A
map_or_nil none = []
map_or_nil (some m) = m

-- A catalog that has what a snapshot says, a map that is not there being empty, and that Flush may
-- write.
pub record Restored (snap : Snapshot) (o : Catalog) : Type 0 where
  pub entries : map_or_nil snap.entries ≡ o.entries
  pub days : map_or_nil snap.days ≡ o.stats.days
  pub hits : snap.hits ≡ o.stats.hits
  pub misses : snap.misses ≡ o.stats.misses
  pub stores : snap.stores ≡ o.stats.stores
  pub may_write : o.load_failed ≡ false

load_snapshot-Restored : (snap : Snapshot) → Restored snap (load_snapshot (some snap) new_object).1
unfolding load_snapshot
load_snapshot-Restored snap = record {
  entries = ground arith;
  days = ground arith;
  hits = refl;
  misses = refl;
  stores = refl;
  may_write = refl;
}

-- What the backend holds under the name of the snapshot is what the catalog has: nothing, and the
-- catalog is new, or a document that was decoded.
abbrev pub Recovered : {D : Type 0} → Codec D → Result D → Catalog → Type 0
Recovered codec stored o =
    ((stored ≡ err not_found) × (o ≡ new_object))
    ⊎ ((raw : _) × (snap : Snapshot) × (stored ≡ ok raw)
        × (codec.unmarshal raw ≡ some snap)
        × Restored snap o)

load_snapshot-fine :
    {D : Type 0}
    → (codec : Codec D) (raw : D) (snap : Option Snapshot) → codec.unmarshal raw ≡ snap
    → (load_snapshot snap new_object).0 ≡ none
    → Recovered codec (ok raw) (load_snapshot snap new_object).1
unfolding load_snapshot
load_snapshot-fine codec raw none p h = absurd (cc)
load_snapshot-fine codec raw (some snap) p h = inr (raw, snap, refl, p, load_snapshot-Restored snap)

load-fine :
    {D : Type 0}
    → (codec : Codec D) (r : Result D) → (load codec r new_object).0 ≡ none
    → Recovered codec r (load codec r new_object).1
unfolding load
load-fine codec (ok raw) h = load_snapshot-fine codec raw (codec.unmarshal raw) refl h
load-fine codec (err not_found) h = inl (refl, refl)
load-fine codec (err already_exists) h = absurd (cc)
load-fine codec (err incomplete) h = absurd (cc)
load-fine codec (err load_failed) h = absurd (cc)
load-fine codec (err failure) h = absurd (cc)

running_or : {F N : Type 0} → Running F N → Start F N → Running F N
running_or d (running r) = r
running_or d (exits n) = d

pub running_injective : {F N : Type 0} → (a b : Running F N) → running a ≡ running b → a ≡ b
unfolding running_or
running_injective a b h = ap (running_or a) h

-- Nothing that Open meets reads like a column that is there already without being that.
abbrev pub AllHonest : {F N D : Type 0} → Surroundings F N D → Text → Type 0
AllHonest env path = (d : Db) → env.host.sql_open (dsn env.random path) ≡ ok d → Honest d

module _ {F N D : Type 0} (env : Surroundings F N D) where
  -- A database whose tables are complete, or a catalog in memory that was loaded from the backend.
  abbrev pub IsReady : BackendKind → OpenCatalog → Type 0
  IsReady b (sqlite_catalog d) = IsMigrated d.tables
  IsReady b (object_catalog o) = Recovered env.codec (env.snapshot b) o

  -- One of the attempts to make the bucket has succeeded.
  abbrev pub BucketMade : Type 0
  BucketMade = (k : ℕ) × (k < 12) × (env.ensure_bucket k ≡ none)

  -- What holds of a server that runs.
  pub record Serves (r : Running F N) : Type 0 where
    pub valid : IsValid r.config
    pub level : Level
    pub level_known : parse_level r.config.log_level ≡ ok level
    pub log : r.log ≡ new_options level r.config.log_format
    pub bucket :
        text_eq r.config.storage_backend (codes "memory") ≡ false
        → r.config.create_bucket ≡ true
        → BucketMade
    pub catalog : IsReady r.backend r.catalog

  attempt-none :
      (attempts i : ℕ) (answer : Option Fault)
      → env.ensure_bucket i ≡ answer
      → ((e : Fault)
          → ensure_loop env attempts (i + 1) (some e) ≡ none
          → (k : ℕ) × (k < attempts + (i + 1)) × (env.ensure_bucket k ≡ none))
      → (elim answer [ none ↦ none | some e ↦ ensure_loop env attempts (i + 1) (some e) ]) ≡ none
      → (k : ℕ) × (k < attempts + (i + 1)) × (env.ensure_bucket k ≡ none)
  attempt-none attempts i none p rest h = (i, omega arith, p)
  attempt-none attempts i (some e) p rest h = rest e h

  ensure_loop-none :
      (attempts i : ℕ) (e : Fault)
      → ensure_loop env attempts i (some e) ≡ none
      → (k : ℕ) × (k < attempts + i) × (env.ensure_bucket k ≡ none)
  unfolding ensure_loop
  ensure_loop-none zero i e h = absurd (cc)
  ensure_loop-none (suc attempts) i e h =
      let (k, low, p) =
        attempt-none attempts i (env.ensure_bucket i) refl
          (λ e' h'. ensure_loop-none attempts (i + 1) e' h') h in
      (k, omega arith, p)

  first_attempts : ensure_loop env 12 0 none ≡ none → BucketMade
  unfolding ensure_loop
  first_attempts h =
      attempt-none 11 0 (env.ensure_bucket 0) refl (λ e h'. ensure_loop-none 11 1 e h') h

  bucket_after :
      (r : Option Fault) (b : BackendKind)
      → (elim r [ none ↦ ok s3_backend | some e ↦ err e ]) ≡ ok b
      → r ≡ none
  bucket_after none b h = refl
  bucket_after (some e) b h = absurd (cc)

  with_bucket-made :
      (cfg : Config F N) (r : Option Fault) (b : BackendKind)
      → with_bucket env cfg r ≡ ok b
      → cfg.create_bucket ≡ true
      → BucketMade
  unfolding with_bucket
  with_bucket-made cfg (some e) b h c = absurd (cc)
  with_bucket-made cfg none b h c =
      first_attempts (bucket_after (ensure_loop env 12 0 none) b (rw c at h))

  pub choose_backend-made :
      (cfg : Config F N) (b : BackendKind)
      → choose_backend env cfg ≡ ok b
      → text_eq cfg.storage_backend (codes "memory") ≡ false
      → cfg.create_bucket ≡ true
      → BucketMade
  unfolding choose_backend
  choose_backend-made cfg b h m c = with_bucket-made cfg (env.new_s3 cfg) b (rw m at h) c

  opened_sqlite-IsReady :
      (b : BackendKind) (r : Result Db) (c : OpenCatalog)
      → ((d : Db) → r ≡ ok d → IsMigrated d.tables)
      → opened_sqlite env r ≡ ok c
      → IsReady b c
  unfolding opened_sqlite
  opened_sqlite-IsReady b (err e) c k h = absurd (cc)
  opened_sqlite-IsReady b (ok d) c k h = subst (IsReady b) (ok_injective _ c h) (k d refl)

  loaded_object-IsReady :
      (b : BackendKind) (r : Option Fault × Catalog) (c : OpenCatalog)
      → (r.0 ≡ none → Recovered env.codec (env.snapshot b) r.1)
      → loaded_object env r ≡ ok c
      → IsReady b c
  unfolding loaded_object
  loaded_object-IsReady b (some e, o) c k h = absurd (cc)
  loaded_object-IsReady b (none, o) c k h = subst (IsReady b) (ok_injective _ c h) (k refl)

  pub choose_catalog-IsReady :
      (cfg : Config F N) (b : BackendKind) (c : OpenCatalog)
      → AllHonest env cfg.sqlite_path
      → choose_catalog env cfg b ≡ ok c
      → IsReady b c
  unfolding choose_catalog
  choose_catalog-IsReady cfg b c honest h =
      elim (Bool-cases (text_eq cfg.catalog_backend (codes "sqlite"))) [
        | inl sqlite ↦
            opened_sqlite-IsReady b _ c
              (λ d. open_db-IsMigrated env.duplicate env.host env.random cfg.sqlite_path d honest)
              (rw sqlite at h)
        | inr other ↦
            loaded_object-IsReady b _ c (load-fine env.codec (env.snapshot b)) (rw other at h)
      ]
