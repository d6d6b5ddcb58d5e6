-- ===== src/Main.antt =====
-- cmd/server/main.go and cmd/server/healthcheck.go: the start of the server up to its first request,
-- over the parts that it puts together, and the command that asks whether it is healthy.
pub mod Ready
use nx_cache.Common.{
  ℕ, zero, suc, ◌+◌, ◌-◌, ◌/◌, ap, Option, none, some, ◌++◌, ◌==◌, if◌then◌else◌, Text, codes,
  text_eq, is_empty, mem, format,
}
use nx_cache.Storage.Types.{Fault, Result, Backend, ok, err}
use nx_cache.Store.Object.{new_object, list, Catalog}
use nx_cache.Store.Object.Flush.{load, Codec}
use nx_cache.Store.Db.{Db}
use nx_cache.Store.Db.Migrate.{open_db, Host}
use nx_cache.Config.{fail, env, Outcome, Parsers, Config, fine}
use nx_cache.Config
use nx_cache.Applog.{parse_level, new_options, Level, LogOptions}

pub data BackendKind : Type 0 where
  memory_backend s3_backend : BackendKind

pub data OpenCatalog : Type 0 where
  sqlite_catalog : Db → OpenCatalog
  object_catalog : Catalog → OpenCatalog

-- What the process meets: what NewS3 answers, and EnsureBucket at each attempt; what Open meets; what
-- GetMeta answers for the snapshot; and whether the static files can be read.
pub record Surroundings (F N D : Type 0) : Type 0 where
  pub new_s3 : Config F N → Option Fault
  pub ensure_bucket : ℕ → Option Fault
  pub duplicate : Text → Text
  pub host : Host
  pub random : Text
  pub codec : Codec D
  pub snapshot : BackendKind → Result D
  pub static : Option Fault

-- The server that is about to listen.
pub record Running (F N : Type 0) : Type 0 where
  pub config : Config F N
  pub log : LogOptions
  pub backend : BackendKind
  pub catalog : OpenCatalog

pub data Start (F N : Type 0) : Type 0 where
  exits : ℕ → Start F N
  running : Running F N → Start F N

module _ {F N D : Type 0} (env : Surroundings F N D) where
  -- The loop over the attempts: the last error, if all have failed.
  unfoldable pub ensure_loop : (attempts i : ℕ) → (last : Option Fault) → Option Fault
  ensure_loop zero i last = last
  ensure_loop (suc attempts) i last =
      let rest = λ (e : Fault). ensure_loop attempts (i + 1) (some e) in
      elim (env.ensure_bucket i) [ none ↦ none | some e ↦ rest e ]

  unfoldable pub with_bucket : Config F N → Option Fault → Result BackendKind
  unfolding ensure_loop
  with_bucket cfg (some e) = err e
  with_bucket cfg none =
      if cfg.create_bucket
      then elim (ensure_loop 12 0 none) [ none ↦ ok s3_backend | some e ↦ err e ]
      else ok s3_backend

  unfoldable pub choose_backend : Config F N → Result BackendKind
  unfolding with_bucket
  choose_backend cfg =
      if text_eq cfg.storage_backend (codes "memory")
      then ok memory_backend
      else with_bucket cfg (env.new_s3 cfg)

  unfoldable pub opened_sqlite : Result Db → Result OpenCatalog
  opened_sqlite (err e) = err e
  opened_sqlite (ok d) = ok (sqlite_catalog d)

  unfoldable pub loaded_object : Option Fault × Catalog → Result OpenCatalog
  loaded_object (some e, o) = err e
  loaded_object (none, o) = ok (object_catalog o)

  unfoldable pub choose_catalog : Config F N → BackendKind → Result OpenCatalog
  unfolding opened_sqlite loaded_object open_db load
  choose_catalog cfg b =
      if text_eq cfg.catalog_backend (codes "sqlite")
      then opened_sqlite (open_db env.duplicate env.host env.random cfg.sqlite_path)
      else loaded_object (load env.codec (env.snapshot b) new_object)

  unfoldable pub with_catalog : Config F N → Level → BackendKind → Result OpenCatalog → Start F N
  unfolding new_options
  with_catalog cfg level b (err e) = exits 1
  with_catalog cfg level b (ok c) = elim env.static [
    | none ↦
        running (record {
          config = cfg;
          log = new_options level cfg.log_format;
          backend = b;
          catalog = c;
        })
    | some e ↦ exits 1
  ]

  unfoldable pub with_backend : Config F N → Level → Result BackendKind → Start F N
  unfolding choose_catalog with_catalog
  with_backend cfg level (err e) = exits 1
  with_backend cfg level (ok b) = with_catalog cfg level b (choose_catalog cfg b)

  unfoldable pub with_level : Config F N → Result Level → Start F N
  unfolding choose_backend with_backend
  with_level cfg (err e) = exits 1
  with_level cfg (ok level) = with_backend cfg level (choose_backend cfg)

  unfoldable pub with_config : Outcome (Config F N) → Start F N
  unfolding parse_level with_level
  with_config (Config.refused message) = exits 1
  with_config (fine cfg) = with_level cfg (parse_level cfg.log_level)

  -- main, without the subcommand
  unfoldable pub start : Parsers F N → (Text → Text) → Start F N
  unfolding with_config Config.load
  start parsers getenv = with_config (Config.load parsers getenv)

-- runHealthcheck: `get` is what the client answers, a status or an error.
unfoldable pub run_healthcheck : (Text → Text) → (get : Text → Result ℕ) → ℕ
run_healthcheck getenv get =
    let port = if is_empty (getenv (codes "PORT")) then codes "8080" else getenv (codes "PORT") in
    elim (get (codes "http://127.0.0.1:" ++ port ++ codes "/health")) [
      | err e ↦ 1
      | ok status ↦ if status == 200 then 0 else 1
    ]
