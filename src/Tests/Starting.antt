-- ===== src/Tests/Starting.antt =====
-- cmd/server/main.go and internal/httpserver/slog.go: a start over a bucket with a snapshot, and a handler that
-- panics.
use nx_cache.Common.{
  ℕ, ◌≡◌, ◌≢◌, refl, ap, ◌∙◌, false, true, none, some, [], ◌∷◌, Text, codes, text_eq, has_prefix,
}
use nx_cache.Storage.Types.{ok, err, failure}
use nx_cache.Store.Types.{no_entry}
use nx_cache.Store.Object.Flush.{Snapshot}
use nx_cache.Store.Db.Migrate.{Host}
use nx_cache.Applog.{level_info, short_source, trim_slash, split_path}
use nx_cache.Main.{
  Surroundings, Running, running, start, s3_backend, object_catalog, with_config, run_healthcheck,
}
use nx_cache.Main.Ready.{Serves}
use nx_cache.Main.Ready.Serving.{start-Serves}
use nx_cache.Server.Outer.{
  Incoming, Inner, Context, outer, request_timeout, other_panic, abort_handler,
}
use nx_cache.Server.Logged.{outer-Ended, Ended, inner_outcome}
use nx_cache.Tests.Access.{no_parsers, environment, config, loaded}
use nx_cache.Tests.Flushing.{codec}

abbrev no_database : Host
no_database = record { dir = λ p. []; mkdir_fails = λ d. true; sql_open = λ name. err failure }

-- A snapshot of an older release, without its days.
abbrev stored : Snapshot
stored = record {
  hits = 7;
  misses = 2;
  stores = 1;
  days = none;
  entries = some ((codes "a1", record no_entry { hash = codes "a1"; size = 3 }) ∷ []);
}

abbrev surroundings : Surroundings ℕ Text Snapshot
surroundings = record {
  new_s3 = λ c. none;
  ensure_bucket = λ i. some failure;
  duplicate = λ col. col;
  host = no_database;
  random = [];
  codec = codec;
  snapshot = λ b. ok stored;
  static = none;
}

abbrev server : Running ℕ Text
server = record {
  config = config;
  log = record { level = level_info; add_source = false; json = false };
  backend = s3_backend;
  catalog = object_catalog (record {
    entries = (codes "a1", record no_entry { hash = codes "a1"; size = 3 }) ∷ [];
    stats = record { hits = 7; misses = 2; stores = 1; days = [] };
    dirty = false;
    load_failed = false;
  });
}

starts : start surroundings no_parsers environment ≡ running server
unfolding start text_eq
starts = ap (with_config surroundings) loaded ∙ refl

start-Serves_example : Serves surroundings server
start-Serves_example =
    start-Serves surroundings no_parsers environment server (λ path d h. absurd (cc)) starts

unhealthy : run_healthcheck (λ key. []) (λ url. ok 503) ≡ 1
unfolding run_healthcheck
unhealthy = refl

short_path : short_source (codes "/src/internal/store/object.go") ≡ codes "store/object.go"
unfolding short_source split_path trim_slash
short_path = refl

abbrev panics : Inner
panics ctx r = record { headers = []; answer = none; panic = some other_panic; lines = [] }

abbrev request : Incoming
request = record {
  request_id = codes "r1";
  ip = codes "10.0.0.1";
  method = codes "GET";
  path = codes "/ui/entries";
  tls = true;
}

abbrev background : Context
background = record { log = none; timeout = none }

not_aborted : some other_panic ≢ some abort_handler
not_aborted h = absurd (cc)

calm : (inner_outcome [] (λ next. next) panics background request).panic ≢ some abort_handler
unfolding request_timeout has_prefix text_eq
calm = not_aborted

outer-Ended_example :
    Ended [] request
      (inner_outcome [] (λ next. next) panics background request).panic
      (inner_outcome [] (λ next. next) panics background request)
      (outer [] (λ next. next) panics background request)
outer-Ended_example = outer-Ended [] (λ next. next) panics background request calm
