-- ===== src/Config.antt =====
-- internal/config/config.go: the configuration that is read from the environment. What
-- `strconv.ParseBool`, `strconv.ParseFloat`, `time.ParseDuration`, `net.ParseCIDR` and `net.ParseIP`
-- return, and the random bytes of a session secret in hexadecimal, are parameters.
pub mod Checked
use nx_cache.Common.{
  zero, ◌-◌, ◌/◌, ◌*◌, min, max, String, Bool, true, false, not, ◌&&◌, ◌||◌, Option, none, some,
  List, [], ◌∷◌, ltb, ◌==◌, if◌then◌else◌, Text, codes, text_eq, is_empty, has_byte, to_lower,
  trim_space, split, mem, format, parse_int, Int64, natural, negative, second,
}

-- An error is its text, without the value that it quotes.
pub data Outcome {ℓ} (A : Type ℓ) : Type ℓ where
  fine : A → Outcome A
  refused : Text → Outcome A

infixl 5 ◌>>=◌
unfoldable pub ◌>>=◌ {ℓ κ} : {A : Type ℓ} {B : Type κ} → Outcome A → (A → Outcome B) → Outcome B
fine a >>= f = f a
refused e >>= f = refused e

abbrev pub fail {ℓ} : {A : Type ℓ} → String → Outcome A
fail message = refused (codes message)

-- The parsers, over the types `F` of a float64, `N` of a network and `Ip` of an address. A float64
-- says whether it is less than 0, a network is made from an address, and `random` is none where the
-- system has no random bytes.
pub record Parsers (F N : Type 0) : Type 0 where
  pub parse_bool : Text → Option Bool
  pub parse_float : Text → Option F
  pub zero_float : F
  pub is_negative : F → Bool
  pub parse_duration : Text → Option Int64
  pub parse_cidr : Text → Option N
  pub parse_host : Text → Option N
  pub random : Option Text

pub record Config (F N : Type 0) : Type 0 where
  pub port : Text
  pub log_level : Text
  pub log_format : Text
  pub aws_region : Text
  pub aws_access_key_id : Text
  pub aws_secret_access_key : Text
  pub s3_bucket : Text
  pub s3_endpoint : Text
  pub s3_prefix : Text
  pub s3_force_path_style : Bool
  pub create_bucket : Bool
  pub access_token : Text
  pub read_token : Text
  pub ui_username : Text
  pub ui_password : Text
  pub session_secret : Text
  pub session_secret_random : Bool
  pub session_secure : Bool
  pub trust_forwarded_ip : Bool
  pub trusted_proxy_nets : List N
  pub allow_nets : List N
  pub rate_limit_rps : F
  pub rate_limit_burst : Int64
  pub sqlite_path : Text
  pub storage_backend : Text
  pub catalog_backend : Text
  pub catalog_flush : Int64
  pub cache_ttl : Int64
  pub cleanup_interval : Int64
  pub cleanup_on_save : Bool
  pub max_upload_bytes : Int64

abbrev pub is_text : Text → String → Bool
is_text s word = text_eq s (codes word)

unfoldable pub parse_log_level : Text → Outcome Text
parse_log_level s =
    let level = to_lower (trim_space s) in
    if is_empty level || is_text level "info"
    then fine (codes "info")
    else if is_text level "debug"
    then fine (codes "debug")
    else if is_text level "warn" || is_text level "warning"
    then fine (codes "warn")
    else if is_text level "error"
    then fine (codes "error")
    else fail "LOG_LEVEL must be debug, info, warn, or error"

abbrev pub or_refuse {ℓ} : {A : Type ℓ} → String → Option A → Outcome A
or_refuse message none = fail message
or_refuse message (some a) = fine a

-- envBool, envDuration, envInt64 and envFloat64, which differ in the parser and the message.
unfoldable pub env_parsed {ℓ} :
    {A : Type ℓ} → (Text → Text) → (Text → Option A) → String → String → A → Outcome A
env_parsed getenv parse message key fallback =
    let v = trim_space (getenv (codes key)) in
    if is_empty v then fine fallback else or_refuse message (parse v)

unfoldable pub env : (Text → Text) → String → Text → Text
env getenv key fallback =
    let v = trim_space (getenv (codes key)) in if is_empty v then fallback else v

abbrev pub is_positive : Int64 → Bool
is_positive (natural n) = ltb 0 n
is_positive (negative n) = false

abbrev pub is_below_zero : Int64 → Bool
is_below_zero (natural n) = false
is_below_zero (negative n) = true

abbrev pub no_nets {ℓ} : {A : Type ℓ} → List A → Bool
no_nets [] = true
no_nets (n ∷ ns) = false

abbrev pub is_one_of_two : Text → String → String → Bool
is_one_of_two s a b = is_text s a || is_text s b

-- if !strings.HasSuffix(cfg.S3Prefix, "/") && cfg.S3Prefix != ""
unfoldable pub end_with_slash : Text → Text
end_with_slash [] = []
end_with_slash (c ∷ []) = if c == b'/' then c ∷ [] else c ∷ b'/' ∷ []
end_with_slash (c ∷ s) = c ∷ end_with_slash s

module _ {F N : Type 0} (parsers : Parsers F N) where
  unfoldable pub parse_net : Text → Outcome N
  parse_net part =
      if has_byte b'/' part
      then or_refuse "invalid CIDR" (parsers.parse_cidr part)
      else or_refuse "invalid IP" (parsers.parse_host part)

  unfoldable pub parse_parts : List Text → Outcome (List N)
  unfolding parse_net
  parse_parts [] = fine []
  parse_parts (p ∷ ps) =
      let rest = parse_parts ps in
      let part = trim_space p in
      if is_empty part then rest else do n ← parse_net part; ns ← rest; fine (n ∷ ns)

  unfoldable pub parse_ip_nets : Text → Outcome (List N)
  unfolding parse_parts
  parse_ip_nets s =
      let trimmed = trim_space s in
      if is_empty trimmed then fine [] else parse_parts (split b',' trimmed)

  -- The end of Load: its last three checks.
  unfoldable pub check_rest : Config F N → Outcome (Config F N)
  check_rest cfg =
      if not (is_positive cfg.cache_ttl)
      then fail "CACHE_TTL must be positive"
      else if is_below_zero cfg.catalog_flush
      then fail "CATALOG_FLUSH_INTERVAL cannot be negative"
      else if not (is_one_of_two cfg.log_format "text" "json")
      then fail "LOG_FORMAT must be text or json"
      else fine cfg

  -- Load, from the check of the password on.
  unfoldable pub check_secrets : Config F N → Outcome (Config F N)
  unfolding check_rest
  check_secrets cfg =
      if is_empty cfg.ui_password
      then fail "UI_PASSWORD is required"
      else if is_empty (trim_space cfg.session_secret)
      then (do
        secret ← or_refuse "SESSION_SECRET" parsers.random
        check_rest (record cfg { session_secret = secret; session_secret_random = true }))
      else check_rest cfg

  -- Load, from the default of the catalog's backend on.
  unfoldable pub check_catalog : Config F N → Outcome (Config F N)
  unfolding check_secrets
  check_catalog cfg =
      let backend = if is_empty cfg.catalog_backend then codes "s3" else cfg.catalog_backend in
      let needs_path = is_text backend "sqlite" && is_empty (trim_space cfg.sqlite_path) in
      if not (is_one_of_two backend "s3" "sqlite")
      then fail "CATALOG_BACKEND must be s3 or sqlite"
      else check_secrets (record cfg {
        catalog_backend = backend;
        sqlite_path = (if needs_path then codes "data/nx-cache.db" else cfg.sqlite_path);
      })

  -- Load, behind the literal of `cfg`.
  unfoldable pub check_config : Config F N → Outcome (Config F N)
  unfolding check_catalog end_with_slash
  check_config cfg =
      if is_empty cfg.access_token
      then fail "NX_CACHE_ACCESS_TOKEN is required"
      else if not (is_one_of_two cfg.storage_backend "s3" "memory")
      then fail "STORAGE_BACKEND must be s3 or memory"
      else if is_text cfg.storage_backend "s3" && is_empty cfg.s3_bucket
      then fail "S3_BUCKET_NAME is required"
      else check_catalog (record cfg { s3_prefix = end_with_slash cfg.s3_prefix })

  abbrev pub refuse_if : Bool → String → Outcome Bool
  refuse_if true message = fail message
  refuse_if false message = fine true

  unfoldable pub load : (Text → Text) → Outcome (Config F N)
  unfolding check_config env_parsed env parse_ip_nets parse_log_level
  load getenv = do
    let raw = λ (key : String). getenv (codes key)
    let bool_of = env_parsed getenv parsers.parse_bool "invalid boolean"
    let duration_of = env_parsed getenv parsers.parse_duration "invalid duration"
    let integer_of = env_parsed getenv parse_int "invalid integer"
    force_path ← bool_of "S3_FORCE_PATH_STYLE" (not (is_empty (raw "S3_ENDPOINT_URL")))
    create_bucket ← bool_of "S3_CREATE_BUCKET" false
    flush ← duration_of "CATALOG_FLUSH_INTERVAL" (natural (30 * second))
    ttl ← duration_of "CACHE_TTL" (natural (259_200 * second))
    cleanup_every ← duration_of "CLEANUP_INTERVAL" (natural (3_600 * second))
    cleanup_on_save ← bool_of "CLEANUP_ON_SAVE" true
    max_upload ← integer_of "MAX_UPLOAD_BYTES" (natural 2_147_483_648)
    session_secure ← bool_of "SESSION_SECURE" true
    trust ← bool_of "TRUST_FORWARDED_IP" false
    rps ← env_parsed getenv parsers.parse_float "invalid number" "RATE_LIMIT_RPS" parsers.zero_float
    burst ← integer_of "RATE_LIMIT_BURST" (natural 0)
    _ ← refuse_if (parsers.is_negative rps) "RATE_LIMIT_RPS cannot be negative"
    _ ← refuse_if (is_below_zero burst) "RATE_LIMIT_BURST cannot be negative"
    allow_nets ← parse_ip_nets (raw "ALLOW_IPS")
    trusted ← parse_ip_nets (raw "TRUSTED_PROXY_CIDRS")
    _ ←
        refuse_if (trust && no_nets trusted)
          "TRUSTED_PROXY_CIDRS is required when TRUST_FORWARDED_IP is true"
    log_level ← parse_log_level (env getenv "LOG_LEVEL" (codes "info"))
    check_config (record {
      port = env getenv "PORT" (codes "8080");
      log_level = log_level;
      log_format = to_lower (env getenv "LOG_FORMAT" (codes "text"));
      aws_region = env getenv "AWS_REGION" (codes "us-east-1");
      aws_access_key_id = raw "AWS_ACCESS_KEY_ID";
      aws_secret_access_key = raw "AWS_SECRET_ACCESS_KEY";
      s3_bucket = env getenv "S3_BUCKET_NAME" (codes "nx-cache");
      s3_endpoint = raw "S3_ENDPOINT_URL";
      s3_prefix = env getenv "S3_PREFIX" (codes "nx-cache/");
      s3_force_path_style = force_path;
      create_bucket = create_bucket;
      access_token =
          env getenv "NX_CACHE_ACCESS_TOKEN" (raw "NX_SELF_HOSTED_REMOTE_CACHE_ACCESS_TOKEN");
      read_token = raw "NX_CACHE_READ_TOKEN";
      ui_username = env getenv "UI_USERNAME" (codes "admin");
      ui_password = raw "UI_PASSWORD";
      session_secret = raw "SESSION_SECRET";
      session_secret_random = false;
      session_secure = session_secure;
      trust_forwarded_ip = trust;
      trusted_proxy_nets = trusted;
      allow_nets = allow_nets;
      rate_limit_rps = rps;
      rate_limit_burst = burst;
      sqlite_path = raw "SQLITE_PATH";
      storage_backend = to_lower (env getenv "STORAGE_BACKEND" (codes "s3"));
      catalog_backend = to_lower (env getenv "CATALOG_BACKEND" (codes "s3"));
      catalog_flush = flush;
      cache_ttl = ttl;
      cleanup_interval = cleanup_every;
      cleanup_on_save = cleanup_on_save;
      max_upload_bytes = max_upload;
    })
