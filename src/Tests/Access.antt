-- ===== src/Tests/Access.antt =====
-- internal/auth/auth.go, internal/config/config.go, internal/httpserver/login.go and
-- internal/httpserver/clientip.go: a session, a configuration, a lock and an address.
use nx_cache.Common.{
  split, is_empty, trim_space, trim_prefix, ℕ, ◌≡◌, refl, ◌≤◌, ◌*◌, Text, [], ◌∷◌, codes, length,
  true, false, List, some, none, natural, second, text_eq, trim_space, to_lower, if◌then◌else◌,
  ◌||◌, has_byte,
}
use nx_cache.Auth.{username_from_request, cookie_value, Crypto, Sessions}
use nx_cache.Auth.Names.{username_from_request-none, CryptoLaws}
use nx_cache.LoginGate.{new_login_gate, Attempt, Gate}
use nx_cache.LoginGate.Bounded.{length-run_calls, run_calls, asked, failed, succeeded, Call}
use nx_cache.ClientIp.{client_ip, remote_ip, Addresses, Request}
use nx_cache.ClientIp.Forwarded.{client_ip_of_forged}
use nx_cache.Config.{◌>>=◌, load, fine, Config, Parsers}

-- Codes that change nothing.
abbrev pub plain : Crypto
plain = record { digest = λ t. t; sign = λ secret t. t; encode = λ t. t; decode = some }

pub plain_laws : CryptoLaws plain
plain_laws = record { decode_encode = λ t. refl; encode_empty = λ t. refl }

abbrev pub admin : Sessions
admin = record { secret = codes "k"; username = codes "admin" }

abbrev dotted : Sessions
dotted = record { secret = codes "k"; username = codes "a.b" }

username_from_request-none_example :
    username_from_request plain dotted (some (cookie_value plain dotted (codes "a.b") 5)) 6 ≡ none
unfolding has_byte
username_from_request-none_example =
    username_from_request-none plain dotted (some (cookie_value plain dotted (codes "a.b") 5)) 6
      refl

abbrev attempt : Attempt
attempt = record { fails = 4; until = 0; seen = 7 }

abbrev gate : Gate
gate = record {
  by_ip = (codes "10.0.0.1", attempt) ∷ [];
  max_fails = 5;
  lock_for = 30;
  max_map = 100;
}

abbrev calls : List Call
calls = asked 1 (codes "10.0.0.1") ∷ failed 2 (codes "10.0.0.1") ∷ succeeded (codes "10.0.0.1") ∷ []

length-run_calls_example :
    length (run_calls calls (new_login_gate (natural 5) (natural 30))).by_ip ≤ 10_000
length-run_calls_example = length-run_calls (natural 5) (natural 30) calls

-- Parsers that read nothing; a network is its text.
abbrev pub no_parsers : Parsers ℕ Text
no_parsers = record {
  parse_bool = λ s. none;
  parse_float = λ s. none;
  zero_float = 0;
  is_negative = λ x. false;
  parse_duration = λ s. none;
  parse_cidr = some;
  parse_host = some;
  random = none;
}

abbrev pub environment : Text → Text
environment key =
    if text_eq key (codes "NX_CACHE_ACCESS_TOKEN") || text_eq key (codes "UI_PASSWORD")
    then codes "t"
    else if text_eq key (codes "SESSION_SECRET")
    then codes "s"
    else []

abbrev pub config : Config ℕ Text
config = record {
  port = codes "8080";
  log_level = codes "info";
  log_format = codes "text";
  aws_region = codes "us-east-1";
  aws_access_key_id = [];
  aws_secret_access_key = [];
  s3_bucket = codes "nx-cache";
  s3_endpoint = [];
  s3_prefix = codes "nx-cache/";
  s3_force_path_style = false;
  create_bucket = false;
  access_token = codes "t";
  read_token = [];
  ui_username = codes "admin";
  ui_password = codes "t";
  session_secret = codes "s";
  session_secret_random = false;
  session_secure = true;
  trust_forwarded_ip = false;
  trusted_proxy_nets = [];
  allow_nets = [];
  rate_limit_rps = 0;
  rate_limit_burst = natural 0;
  sqlite_path = [];
  storage_backend = codes "s3";
  catalog_backend = codes "s3";
  catalog_flush = natural (30 * second);
  cache_ttl = natural (259_200 * second);
  cleanup_interval = natural (3_600 * second);
  cleanup_on_save = true;
  max_upload_bytes = natural 2_147_483_648;
}

pub loaded : load no_parsers environment ≡ fine config
unfolding load ◌>>=◌ trim_space text_eq to_lower
loaded = refl

-- Every text but the empty one is an address, and a network is one address.
abbrev pub plain_addresses : Addresses Text
plain_addresses = record {
  parse_ip = λ s. if is_empty s then none else some s;
  split_host_port = some;
  contains_ip = text_eq;
}

abbrev request : Request
request = record { remote_addr = codes "p"; forwarded_for = codes "c"; real_ip = [] }

client_ip_of_forged_example :
    client_ip plain_addresses (record request { forwarded_for = codes "x,c" }) true (codes "p" ∷ [])
    ≡ client_ip plain_addresses request true (codes "p" ∷ [])
unfolding remote_ip client_ip text_eq trim_prefix trim_space split
client_ip_of_forged_example =
    client_ip_of_forged plain_addresses request true (codes "p" ∷ []) (codes "x") refl refl refl
