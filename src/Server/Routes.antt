-- ===== src/Server/Routes.antt =====
-- internal/httpserver/server.go: Handler, and the middlewares `allowlist` and `rateLimit` of
-- internal/httpserver/access.go.
use nx_cache.Common.{
  Bool, true, false, not, ◌||◌, Option, some, List, [], ◌∷◌, if◌then◌else◌, Text, codes, text_eq,
}
use nx_cache.Storage.Types.{Backend}
use nx_cache.Store.Types.{TaskInfo}
use nx_cache.Store.Interface.{Store}
use nx_cache.Auth.{Crypto}
use nx_cache.ClientIp.{Addresses, ip_allowed}
use nx_cache.CacheApi.{put, get, head, Config, Response, PutRequest, World}
use nx_cache.Server.Types.{
  Route, HttpRequest, Answer, problem, plain, no_page, render, entries_section, stats_section,
  ServerConfig, Site, Handler, Readings, health, static_file, login_get, login_post, dashboard,
  entries, stats, cleanup_now, logout, unknown, cache_put, cache_get, cache_head, delete_entry,
}
use nx_cache.Server.Login.{request_ip, bearer, require_session}
use nx_cache.Server.Login
use nx_cache.Server.Pages.{section}
use nx_cache.Server.Pages

abbrev pub put_request : Text → HttpRequest → PutRequest
put_request hash r = record {
  hash = hash;
  content_length = r.content_length;
  headers = r.headers;
  body = r.body;
}

-- `static` answers a request for a file.
pub record Deployment (N : Type 0) : Type 0 where
  pub crypto : Crypto
  pub addresses : Addresses N
  pub settings : ServerConfig N
  pub cache : Config
  pub inspect : Text → TaskInfo
  pub static : HttpRequest → Answer

abbrev pub is_health : HttpRequest → Bool
is_health r = text_eq r.path (codes "/health")

abbrev pub no_nets {ℓ} : {N : Type ℓ} → List N → Bool
no_nets [] = true
no_nets (n ∷ nets) = false

module _ {N : Type 0} (d : Deployment N) {b : Backend} {s : Store} where
  -- A handler that answers and changes the world of the cache API.
  abbrev pub in_world : (Answer × World b s) → Site b s → Option Answer × Site b s
  in_world (a, w') w = (some a, record w { world = w' })

  abbrev pub answered : Response × World b s → Site b s → Option Answer × Site b s
  answered (a, w') w = (some (render a.status (plain a.body)), record w { world = w' })

  abbrev pub logged_in : Answer × Site b s → Option Answer × Site b s
  logged_in (a, w) = (some a, w)

  unfoldable pub put_handler : Readings → Text → Handler b s
  put_handler t hash r w = answered (put d.inspect d.cache t.moments (put_request hash r) w.world) w

  unfoldable pub get_handler : Readings → Text → Handler b s
  get_handler t hash r w = answered (get t.moments hash w.world) w

  unfoldable pub head_handler : Text → Handler b s
  head_handler hash r w = (some (render (head hash w.world) no_page), w)

  unfoldable pub cleanup_handler : Readings → Handler b s
  cleanup_handler t r w =
      in_world
        (Pages.cleanup_now d.crypto d.settings r t.clock t.later t.notified t.seconds w.world) w

  unfoldable pub delete_handler : Readings → Text → Handler b s
  delete_handler t hash r w =
      in_world (Pages.delete_entry d.crypto d.settings hash r t.seconds w.world) w

  unfoldable pub dashboard_handler : Readings → Handler b s
  dashboard_handler t r w =
      (some (Pages.dashboard d.crypto d.settings r t.clock t.seconds w.world), w)

  unfoldable pub entries_handler : Readings → Handler b s
  entries_handler t r w =
      (section d.crypto d.settings entries_section t.waited r t.clock t.seconds w.world, w)

  unfoldable pub stats_handler : Readings → Handler b s
  stats_handler t r w =
      (section d.crypto d.settings stats_section t.waited r t.clock t.seconds w.world, w)

  unfoldable pub logout_handler : Readings → Handler b s
  logout_handler t r w = (some (Login.logout d.crypto d.settings t.seconds r), w)

  unfoldable pub route : Readings → Route → Handler b s
  unfolding put_handler get_handler head_handler cleanup_handler delete_handler dashboard_handler
      entries_handler stats_handler logout_handler bearer require_session
  route t health r w = (some (render 200 (plain (codes "OK"))), w)
  route t static_file r w = (some (d.static r), w)
  route t (cache_put hash) r w = bearer d.crypto d.settings true (put_handler t hash) r w
  route t (cache_get hash) r w = bearer d.crypto d.settings false (get_handler t hash) r w
  route t (cache_head hash) r w = bearer d.crypto d.settings false (head_handler hash) r w
  route t login_get r w = (some (Login.login_get d.crypto d.settings t.seconds r), w)
  route t login_post r w =
      logged_in (Login.login_post d.crypto d.addresses d.settings t.clock t.seconds r w)
  route t dashboard r w = require_session d.crypto d.settings t.seconds (dashboard_handler t) r w
  route t entries r w = require_session d.crypto d.settings t.seconds (entries_handler t) r w
  route t stats r w = require_session d.crypto d.settings t.seconds (stats_handler t) r w
  route t cleanup_now r w = require_session d.crypto d.settings t.seconds (cleanup_handler t) r w
  route t (delete_entry hash) r w =
      require_session d.crypto d.settings t.seconds (delete_handler t hash) r w
  route t logout r w = require_session d.crypto d.settings t.seconds (logout_handler t) r w
  route t unknown r w = (some (problem 404 "404 page not found"), w)

  -- The middleware `allowlist`.
  unfoldable pub allowlist : Handler b s → Handler b s
  unfolding ip_allowed request_ip
  allowlist next r w =
      if is_health r || no_nets d.settings.allow_nets
      then next r w
      else if not (
          ip_allowed d.addresses d.settings.allow_nets
            (request_ip d.crypto d.addresses d.settings r))
      then (some (problem 403 "Forbidden"), w)
      else next r w

  -- The middleware `rateLimit`.
  unfoldable pub rate_limit : Readings → Handler b s → Handler b s
  rate_limit t next r w =
      if is_health r
      then next r w
      else if not t.within_rate
      then (some (problem 429 "Too many requests"), w)
      else next r w

  -- The handler that `Handler` makes, without the middlewares that log and set headers.
  unfoldable pub serve : Readings → Handler b s
  unfolding allowlist rate_limit route
  serve t r w = allowlist (rate_limit t (route t r.route)) r w
