-- ===== src/Config/Checked.antt =====
-- internal/config/config.go: what a configuration that was loaded satisfies.
use nx_cache.Common.{
  String, ◌≡◌, refl, subst, inl, inr, Bool, true, false, ◌&&◌, if◌then◌else◌, Bool-cases, Text,
  codes, is_empty, trim_space,
}
use nx_cache.Config.{
  ◌>>=◌, is_text, or_refuse, is_positive, is_below_zero, no_nets, is_one_of_two, end_with_slash,
  check_rest, check_secrets, check_catalog, check_config, refuse_if, load, Outcome, Parsers, Config,
  fine, refused,
}

-- A predicate of the value that an outcome has, if it has one.
abbrev Ensures {ℓ} : {A : Type ℓ} → (A → Type 0) → Outcome A → Type 0
Ensures P (fine a) = P a
Ensures P (refused e) = Unit

Ensures->>= {ℓ κ} :
    {A : Type ℓ} {B : Type κ} (P : B → Type 0) (m : Outcome A) (f : A → Outcome B)
    → ((a : A) → Ensures P (f a))
    → Ensures P (m >>= f)
unfolding ◌>>=◌
Ensures->>= P (fine a) f h = h a
Ensures->>= P (refused e) f h = tt

-- What the checks at the end establish.
pub record IsValid {F N : Type 0} (c : Config F N) : Type 0 where
  pub has_token : is_empty c.access_token ≡ false
  pub has_password : is_empty c.ui_password ≡ false
  pub storage_known : is_one_of_two c.storage_backend "s3" "memory" ≡ true
  pub bucket_known : (is_text c.storage_backend "s3" && is_empty c.s3_bucket) ≡ false
  pub catalog_known : is_one_of_two c.catalog_backend "s3" "sqlite" ≡ true
  pub path_known :
      (is_text c.catalog_backend "sqlite" && is_empty (trim_space c.sqlite_path)) ≡ false
  pub ttl_positive : is_positive c.cache_ttl ≡ true
  pub flush_not_negative : is_below_zero c.catalog_flush ≡ false
  pub format_known : is_one_of_two c.log_format "text" "json" ≡ true
  pub proxies_known : (c.trust_forwarded_ip && no_nets c.trusted_proxy_nets) ≡ false

module _ {F N : Type 0} (parsers : Parsers F N) where
  -- What has been checked when the end of Load is reached.
  record IsReady (c : Config F N) : Type 0 where
    has_token : is_empty c.access_token ≡ false
    has_password : is_empty c.ui_password ≡ false
    storage_known : is_one_of_two c.storage_backend "s3" "memory" ≡ true
    bucket_known : (is_text c.storage_backend "s3" && is_empty c.s3_bucket) ≡ false
    catalog_known : is_one_of_two c.catalog_backend "s3" "sqlite" ≡ true
    path_known : (is_text c.catalog_backend "sqlite" && is_empty (trim_space c.sqlite_path)) ≡ false
    proxies_known : (c.trust_forwarded_ip && no_nets c.trusted_proxy_nets) ≡ false

  check_rest-IsValid : (c : Config F N) → IsReady c → Ensures IsValid (check_rest parsers c)
  unfolding check_rest
  check_rest-IsValid c h = elim (Bool-cases (is_positive c.cache_ttl)) [
    | inr old ↦ rw old tt
    | inl positive ↦ rw positive (elim (Bool-cases (is_below_zero c.catalog_flush)) [
      | inl below ↦ rw below tt
      | inr flush ↦ rw flush (elim (Bool-cases (is_one_of_two c.log_format "text" "json")) [
        | inr unknown ↦ rw unknown tt
        | inl known ↦ rw known (record {
          has_token = h.has_token;
          has_password = h.has_password;
          storage_known = h.storage_known;
          bucket_known = h.bucket_known;
          catalog_known = h.catalog_known;
          path_known = h.path_known;
          ttl_positive = positive;
          flush_not_negative = flush;
          format_known = known;
          proxies_known = h.proxies_known;
        })
      ])
    ])
  ]

  check_secrets-IsValid :
      (c : Config F N)
      → (is_empty c.ui_password ≡ false → IsReady c)
      → Ensures IsValid (check_secrets parsers c)
  unfolding check_secrets
  check_secrets-IsValid c h = elim (Bool-cases (is_empty c.ui_password)) [
    | inl missing ↦ rw missing tt
    | inr given ↦ rw given (elim (Bool-cases (is_empty (trim_space c.session_secret))) [
      | inr kept ↦ rw kept (check_rest-IsValid c (h given))
      | inl blank ↦ rw blank (
          Ensures->>= IsValid (or_refuse "SESSION_SECRET" parsers.random) _ (λ secret.
            check_rest-IsValid (record c { session_secret = secret; session_secret_random = true })
              (with_secret secret (h given))))
    ])
  ]
    where
      with_secret :
          (secret : Text)
          → IsReady c
          → IsReady (record c { session_secret = secret; session_secret_random = true })
      with_secret secret r = record {
        has_token = r.has_token;
        has_password = r.has_password;
        storage_known = r.storage_known;
        bucket_known = r.bucket_known;
        catalog_known = r.catalog_known;
        path_known = r.path_known;
        proxies_known = r.proxies_known;
      }

  default_path :
      (lite : Bool) (path : Text)
      → (lite
          && is_empty (
              trim_space
                (if lite && is_empty (trim_space path) then codes "data/nx-cache.db" else path)))
        ≡ false
  unfolding trim_space
  default_path false path = refl
  default_path true path = elim (Bool-cases (is_empty (trim_space path))) [
    | inl blank ↦ rw blank refl
    | inr given ↦ rw given given
  ]

  check_catalog-IsValid :
      (c : Config F N)
      → is_empty c.access_token ≡ false
      → is_one_of_two c.storage_backend "s3" "memory" ≡ true
      → (is_text c.storage_backend "s3" && is_empty c.s3_bucket) ≡ false
      → (c.trust_forwarded_ip && no_nets c.trusted_proxy_nets) ≡ false
      → Ensures IsValid (check_catalog parsers c)
  unfolding check_catalog
  check_catalog-IsValid c token storage bucket proxies =
      let backend = if is_empty c.catalog_backend then codes "s3" else c.catalog_backend in
      let needs_path = is_text backend "sqlite" && is_empty (trim_space c.sqlite_path) in
      let completed = record c {
        catalog_backend = backend;
        sqlite_path = (if needs_path then codes "data/nx-cache.db" else c.sqlite_path);
      } in
      elim (Bool-cases (is_one_of_two backend "s3" "sqlite")) [
        | inr unknown ↦ rw unknown tt
        | inl known ↦ rw known (
            check_secrets-IsValid completed (λ password. record {
              has_token = token;
              has_password = password;
              storage_known = storage;
              bucket_known = bucket;
              catalog_known = known;
              path_known = default_path (is_text backend "sqlite") c.sqlite_path;
              proxies_known = proxies;
            }))
      ]

  check_config-IsValid :
      (c : Config F N)
      → (c.trust_forwarded_ip && no_nets c.trusted_proxy_nets) ≡ false
      → Ensures IsValid (check_config parsers c)
  unfolding check_config
  check_config-IsValid c proxies = elim (Bool-cases (is_empty c.access_token)) [
    | inl missing ↦ rw missing tt
    | inr token ↦ rw token (elim (Bool-cases (is_one_of_two c.storage_backend "s3" "memory")) [
      | inr unknown ↦ rw unknown tt
      | inl storage ↦
          rw storage (elim (Bool-cases (is_text c.storage_backend "s3" && is_empty c.s3_bucket)) [
            | inl none_given ↦ rw none_given tt
            | inr bucket ↦ rw bucket (
                check_catalog-IsValid (record c { s3_prefix = end_with_slash c.s3_prefix }) token
                  storage bucket proxies)
          ])
    ])
  ]

  refuse_if-Ensures :
      {A : Type 0} (P : A → Type 0) (test : Bool) (message : String) (f : Bool → Outcome A)
      → (test ≡ false → Ensures P (f true))
      → Ensures P (refuse_if parsers test message >>= f)
  unfolding ◌>>=◌
  refuse_if-Ensures P true message f h = tt
  refuse_if-Ensures P false message f h = h refl

  load-Ensures : (getenv : Text → Text) → Ensures IsValid (load parsers getenv)
  unfolding load
  load-Ensures getenv = Ensures->>= IsValid _ _ (λ force_path.
      Ensures->>= IsValid _ _ (λ create_bucket. Ensures->>= IsValid _ _ (λ flush.
        Ensures->>= IsValid _ _ (λ ttl. Ensures->>= IsValid _ _ (λ cleanup_every.
          Ensures->>= IsValid _ _ (λ cleanup_on_save. Ensures->>= IsValid _ _ (λ max_upload.
            Ensures->>= IsValid _ _ (λ session_secure. Ensures->>= IsValid _ _ (λ trust.
              Ensures->>= IsValid _ _ (λ rps. Ensures->>= IsValid _ _ (λ burst.
                Ensures->>= IsValid _ _ (λ rps_checked. Ensures->>= IsValid _ _ (λ burst_checked.
                  Ensures->>= IsValid _ _ (λ allow_nets. Ensures->>= IsValid _ _ (λ trusted.
                    refuse_if-Ensures IsValid (trust && no_nets trusted) _ _ (λ proxies.
                      Ensures->>= IsValid _ _
                        (λ log_level. search check_config-IsValid)))))))))))))))))

  -- A configuration that is loaded has an access token and a password, a known storage with a bucket
  -- if that is S3, a known catalog with a path if that is SQLite, a TTL above 0, a flush interval not
  -- below 0, a known log format, and trusted proxies if it trusts forwarded addresses; whatever the
  -- environment holds.
  pub load-IsValid :
      (getenv : Text → Text) (c : Config F N) → load parsers getenv ≡ fine c → IsValid c
  load-IsValid getenv c p = subst (Ensures IsValid) p (load-Ensures getenv)
