-- ===== src/Main/Ready/Serving.antt =====
-- cmd/server/main.go: the whole start.
use nx_cache.Common.{◌≡◌, refl, subst, true, false, Option, none, some, Text, codes, text_eq}
use nx_cache.Storage.Types.{Fault, Result, ok, err}
use nx_cache.Config.{fail, env, Outcome, Parsers, Config, fine}
use nx_cache.Config
use nx_cache.Config.Checked.{load-IsValid, IsValid}
use nx_cache.Applog.{parse_level, new_options, Level}
use nx_cache.Main.{
  choose_backend, choose_catalog, with_catalog, with_backend, with_level, with_config, start,
  BackendKind, OpenCatalog, Surroundings, Running, exits, running,
}
use nx_cache.Main.Ready.{
  IsReady, AllHonest, BucketMade, Serves, running_injective, choose_backend-made,
  choose_catalog-IsReady,
}

module _ {F N D : Type 0} (env : Surroundings F N D) where
  -- What is known when the backend has been chosen.
  module _ (cfg : Config F N) (level : Level) (r : Running F N) (valid : IsValid cfg)
      (known : parse_level cfg.log_level ≡ ok level) (honest : AllHonest env cfg.sqlite_path) where
    abbrev Made : Type 0
    Made =
        text_eq cfg.storage_backend (codes "memory") ≡ false
        → cfg.create_bucket ≡ true
        → BucketMade env

    listening :
        (b : BackendKind) (c : OpenCatalog) (files : Option Fault)
        → Made
        → IsReady env b c
        → (elim files [
          | none ↦ running (record {
            config = cfg;
            log = new_options level cfg.log_format;
            backend = b;
            catalog = c;
          })
          | some e ↦ exits 1
        ])
          ≡ running r
        → Serves env r
    listening b c (some e) made ready h = absurd (cc)
    listening b c none made ready h = subst (Serves env) (running_injective _ r h) (record {
      valid = valid;
      level = level;
      level_known = known;
      log = refl;
      bucket = made;
      catalog = ready;
    })

    with_catalog-Serves :
        (b : BackendKind) (c : Result OpenCatalog)
        → Made
        → ((c' : OpenCatalog) → c ≡ ok c' → IsReady env b c')
        → with_catalog env cfg level b c ≡ running r
        → Serves env r
    unfolding with_catalog
    with_catalog-Serves b (err e) made ready h = absurd (cc)
    with_catalog-Serves b (ok c) made ready h = listening b c env.static made (ready c refl) h

    with_backend-Serves :
        (b : Result BackendKind)
        → ((b' : BackendKind) → b ≡ ok b' → Made)
        → with_backend env cfg level b ≡ running r
        → Serves env r
    unfolding with_backend
    with_backend-Serves (err e) made h = absurd (cc)
    with_backend-Serves (ok b) made h =
        with_catalog-Serves b (choose_catalog env cfg b) (made b refl)
          (λ c p. choose_catalog-IsReady env cfg b c honest p) h

  with_level-Serves :
      (cfg : Config F N) (level : Result Level) (r : Running F N)
      → IsValid cfg
      → AllHonest env cfg.sqlite_path
      → parse_level cfg.log_level ≡ level
      → with_level env cfg level ≡ running r
      → Serves env r
  unfolding with_level
  with_level-Serves cfg (err e) r valid honest p h = absurd (cc)
  with_level-Serves cfg (ok level) r valid honest p h =
      with_backend-Serves cfg level r valid p honest (choose_backend env cfg)
        (λ b q. choose_backend-made env cfg b q) h

  with_config-Serves :
      (c : Outcome (Config F N)) (r : Running F N)
      → ((cfg : Config F N) → c ≡ fine cfg → IsValid cfg × AllHonest env cfg.sqlite_path)
      → with_config env c ≡ running r
      → Serves env r
  unfolding with_config
  with_config-Serves (Config.refused m) r k h = absurd (cc)
  with_config-Serves (fine cfg) r k h =
      let (valid, honest) = k cfg refl in
      with_level-Serves cfg (parse_level cfg.log_level) r valid honest refl h

  -- A server that gets as far as to listen has a valid configuration and the level of its log; if it
  -- is to make its bucket, one of twelve attempts has succeeded; and its catalog is a database with
  -- every column and counter, or has what the snapshot in its backend says, or is new where the
  -- backend has no snapshot; if no other error of SQLite reads like that of a column that is there.
  pub start-Serves :
      (parsers : Parsers F N) (getenv : Text → Text) (r : Running F N)
      → ((path : Text) → AllHonest env path)
      → start env parsers getenv ≡ running r
      → Serves env r
  unfolding start
  start-Serves parsers getenv r honest h =
      with_config-Serves (Config.load parsers getenv) r
        (λ cfg p. (load-IsValid parsers getenv cfg p, honest cfg.sqlite_path)) h
