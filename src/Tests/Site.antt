-- ===== src/Tests/Site.antt =====
-- internal/httpserver/server.go: requests to a server over a backend and a catalog in memory.
use nx_cache.Common.{
  trim_space, trim_prefix, List, ◌≤◌, lookup, text_eq, ◌∷◌, leb, cut, format, parse_int, ◌≡◌, ◌+◌,
  refl, arith, true, false, none, some, [], Text, codes, natural, if◌then◌else◌, has_byte,
  has_prefix,
}
use nx_cache.Storage.Memory.Laws.{memory_backend, memory_laws}
use nx_cache.Storage.Memory
use nx_cache.Store.Interface.{object_store, object_laws}
use nx_cache.Store.Object
use nx_cache.Auth.{bearer_ok, session_ttl, cookie_value, csrf_token}
use nx_cache.LoginGate.{allow, new_login_gate}
use nx_cache.CacheApi.{valid_hash}
use nx_cache.Server.Types.{
  HttpRequest, ServerConfig, Site, Readings, render, no_page, set_to, cache_put, login_post,
}
use nx_cache.Server.Login.{user_of, valid_csrf}
use nx_cache.Server.Login
use nx_cache.Server.Pages
use nx_cache.Server.Routes.{Deployment, serve}
use nx_cache.Server.Guarded.{serve_spares_backend, serve_spares_world}
use nx_cache.Server.Purged.{Purged, delete_entry-Purged}
use nx_cache.Server.Sessions.{Granted, login_post-user_of}
use nx_cache.Server.Limited.{asks_limiter, AllAsk, served, served-burst}
use nx_cache.Tests.Access.{plain, plain_laws, admin, plain_addresses}
use nx_cache.Tests.Alphabet.{ascii}
use nx_cache.Tests.Numbers.{numbers, number_laws, number_counts, limiter}
use nx_cache.Tests.Uploads.{full_world, moments, config, inspect, no_headers}

abbrev settings : ServerConfig Text
settings = record {
  access_token = codes "w";
  read_token = codes "r";
  ui_username = codes "admin";
  ui_password = codes "pass";
  allow_nets = [];
  trusted = [];
  trust_forwarded = false;
  sessions = admin;
}

abbrev deployment : Deployment Text
deployment = record {
  crypto = plain;
  addresses = plain_addresses;
  settings = settings;
  cache = config;
  inspect = inspect;
  static = λ r. render 404 no_page;
}

abbrev readings : Readings
readings = record {
  moments = moments;
  clock = 7;
  later = 8;
  notified = 9;
  seconds = 5;
  waited = none;
  within_rate = true;
}

abbrev site : Site memory_backend (object_store ascii)
site = record { world = full_world; logins = new_login_gate (natural 5) (natural 30) }

-- An upload with a token for reading only.
abbrev upload_request : HttpRequest
upload_request = record {
  route = cache_put (codes "a1");
  path = codes "/v1/cache/a1";
  from = record { remote_addr = codes "c"; forwarded_for = []; real_ip = [] };
  authorization = codes "Bearer r";
  cookie = none;
  csrf_header = [];
  csrf_form = [];
  form = true;
  username = [];
  password = [];
  query = [];
  page = natural 1;
  message = [];
  content_length = codes "3";
  headers = no_headers;
  body = record { bytes = codes "xyz"; broken = false };
}

serve_spares_backend_example :
    (serve deployment readings upload_request site).1.world.backend ≡ full_world.backend
unfolding bearer_ok has_prefix text_eq trim_prefix
serve_spares_backend_example = serve_spares_backend deployment readings upload_request site refl

serve_spares_world_example : (serve deployment readings upload_request site).1.world ≡ full_world
unfolding bearer_ok has_prefix text_eq trim_prefix
serve_spares_world_example = serve_spares_world deployment readings upload_request site refl

abbrev login_request : HttpRequest
login_request = record upload_request {
  route = login_post;
  path = codes "/login";
  username = codes "admin";
  password = codes "pass";
}

abbrev cookie : Text
cookie = cookie_value plain admin (codes "admin") 5

abbrev page_request : HttpRequest
page_request = record login_request {
  cookie = some cookie;
  csrf_header = csrf_token plain admin (codes "admin");
}

logged_in :
    (Login.login_post plain plain_addresses settings 7 5 login_request site).0.cookie
    ≡ set_to cookie
unfolding Login.login_post allow lookup new_login_gate text_eq
logged_in = refl

login_post-user_of_example :
    Granted plain plain_addresses settings 7 5 login_request site cookie
    × (user_of plain settings page_request 6
        ≡ (if leb 6 (5 + session_ttl) then some (codes "admin") else none))
unfolding has_byte
login_post-user_of_example =
    login_post-user_of plain plain_addresses settings 7 5 6 login_request page_request site cookie
      plain_laws refl refl refl refl (omega arith) logged_in refl

purged : (Pages.delete_entry plain settings (codes "b2") page_request 6 full_world).0.status ≡ 303
unfolding Pages.delete_entry cookie_value cut format text_eq parse_int valid_hash Memory.delete
    Object.delete
purged = refl

delete_entry-Purged_example :
    (valid_csrf plain settings page_request 6 ≡ true)
    × (valid_hash (codes "b2") ≡ true)
    × Purged memory_laws
        (object_laws ascii)
        (codes "b2")
        full_world
        (Pages.delete_entry plain settings (codes "b2") page_request 6 full_world).1
delete_entry-Purged_example =
    delete_entry-Purged memory_laws (object_laws ascii) plain settings (codes "b2") page_request 6
      full_world purged

abbrev two_requests : List (Readings × HttpRequest)
two_requests = (readings, upload_request) ∷ (readings, login_request) ∷ []

both_ask : AllAsk deployment (codes "c") two_requests
unfolding asks_limiter text_eq Login.request_ip trim_prefix trim_space
both_ask = ((refl, refl), ((refl, refl), tt))

served-burst_example : served numbers deployment 7 two_requests (some limiter, site) ≤ 3
unfolding lookup text_eq number_counts
served-burst_example =
    served-burst numbers deployment 7 (codes "c") two_requests limiter site number_laws
      number_counts (refl, tt) both_ask
      (record {
        burst = omega arith;
        rate = omega arith;
        known = omega arith;
        not_ahead = omega arith;
      })
