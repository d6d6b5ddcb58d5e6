-- ===== src/Auth.antt =====
-- internal/auth/auth.go: bearer tokens and the session's cookie. SHA-256, HMAC-SHA256 with its
-- encoding, and unpadded base64 are parameters; the clock's reading in seconds is an argument.
pub mod Names
use nx_cache.Common.{
  [], ℕ, ◌-◌, ◌+◌, ◌/◌, ◌*◌, Bool, false, not, ◌&&◌, ◌||◌, Option, none, some, ◌∷◌, ◌++◌, leb,
  if◌then◌else◌, Text, codes, text_eq, is_empty, has_prefix, trim_prefix, cut, format, parse_int,
  Int64, natural, negative, second,
}

pub record Crypto : Type 0 where
  pub digest : Text → Text
  pub sign : Text → Text → Text
  pub encode : Text → Text
  pub decode : Text → Option Text

-- The answer of BearerOK: allowed, or a status and its message.
pub data Verdict : Type 0 where
  allowed : Verdict
  denied : ℕ → Text → Verdict

pub record Sessions : Type 0 where
  pub secret : Text
  pub username : Text

-- 12 * time.Hour, in seconds
abbrev pub session_ttl : ℕ
session_ttl = 43_200

module _ (crypto : Crypto) where
  unfoldable pub secure_eq : Text → Text → Bool
  secure_eq a b = text_eq (crypto.digest a) (crypto.digest b)

  unfoldable pub check_password : Text → Text → Bool
  check_password got want = text_eq (crypto.digest got) (crypto.digest want)

  unfoldable pub bearer_ok : Text → Text → Text → Bool → Verdict
  unfolding secure_eq
  bearer_ok header write_token read_token write =
      let got = trim_prefix header (codes "Bearer ") in
      if not (has_prefix header (codes "Bearer "))
      then denied 401 (codes "Missing or invalid authentication token")
      else if not (is_empty write_token) && secure_eq got write_token
      then allowed
      else if not (is_empty read_token) && secure_eq got read_token
      then (if write
          then denied 403 (codes "Access forbidden. (e.g. read-only token used to write)")
          else allowed)
      else denied 401 (codes "Missing or invalid authentication token")

  -- The value of the cookie that SetCookie sets.
  unfoldable pub cookie_value : Sessions → Text → ℕ → Text
  cookie_value s username now =
      let payload = username ++ b'|' ∷ format (now + session_ttl) in
      crypto.encode (payload ++ b'.' ∷ crypto.sign s.secret payload)

  -- err != nil || time.Now().Unix() > exp
  abbrev pub is_current : ℕ → Option Int64 → Bool
  is_current now none = false
  is_current now (some (natural exp)) = leb now exp
  is_current now (some (negative n)) = false

  unfoldable pub user_of_payload : Sessions → Text → ℕ → Option Text
  user_of_payload s payload now =
      let (user, expiry, found) = cut b'|' payload in
      if found
        && not (is_empty user)
        && text_eq user s.username
        && is_current now (parse_int expiry)
      then some user
      else none

  unfoldable pub user_of_token : Sessions → Text → ℕ → Option Text
  unfolding user_of_payload secure_eq
  user_of_token s token now =
      let (payload, sig, found) = cut b'.' token in
      if found && secure_eq sig (crypto.sign s.secret payload)
      then user_of_payload s payload now
      else none

  -- UsernameFromRequest, with the cookie's value, which is none without the cookie.
  unfoldable pub username_from_request : Sessions → Option Text → ℕ → Option Text
  unfolding user_of_token
  username_from_request s none now = none
  username_from_request s (some value) now =
      if is_empty value
      then none
      else elim (crypto.decode value) [ none ↦ none | some token ↦ user_of_token s token now ]

  unfoldable pub csrf_token : Sessions → Text → Text
  csrf_token s username = crypto.sign s.secret (codes "nx-cache-ui" ++ b'|' ∷ username)

  unfoldable pub valid_csrf_token : Sessions → Text → Text → Bool
  unfolding secure_eq csrf_token
  valid_csrf_token s username token =
      not (is_empty token) && secure_eq token (csrf_token s username)

-- http.Cookie, as the sessions set it: the path is "/", HttpOnly is set, and SameSite is lax. The
-- time at which it expires is in Unix seconds.
pub record SessionCookie : Type 0 where
  pub name : Text
  pub value : Text
  pub secure : Bool
  pub expires : ℕ
  pub max_age : Int64

abbrev pub cookie_name : Text
cookie_name = codes "nx_cache_session"

-- SetCookie; `secure` is the field of Sessions.
unfoldable pub set_cookie : Crypto → (secure : Bool) → Sessions → Text → ℕ → SessionCookie
unfolding cookie_value
set_cookie crypto secure s username now = record {
  name = cookie_name;
  value = cookie_value crypto s username now;
  secure = secure;
  expires = now + session_ttl;
  max_age = natural session_ttl;
}

-- ClearCookie: a MaxAge of -1 removes the cookie.
unfoldable pub clear_cookie : (secure : Bool) → SessionCookie
clear_cookie secure = record {
  name = cookie_name;
  value = [];
  secure = secure;
  expires = 0;
  max_age = negative 0;
}
