-- ===== src/Auth/Names.antt =====
-- internal/auth/auth.go: which names can have a session, and for how long.
use nx_cache.Common.{
  ℕ, ◌+◌, ◌^◌, ◌<◌, ◌≡◌, refl, sym, ap, ◌∙◌, inl, inr, true, false, ◌||◌, false≢true, Option, none,
  some, [], ◌∷◌, ◌++◌, arith, leb, if◌then◌else◌, Bool-cases, Option-cases, Text, text_eq,
  text_eq_refl, eq_of_text_eq, is_empty, has_byte, cut, format, has_byte-format, parse_int-format,
  has_byte-append, cut-append,
}
use nx_cache.Auth.{
  session_ttl, secure_eq, cookie_value, user_of_payload, user_of_token, username_from_request,
  Crypto, Sessions,
}

-- What stands before a separator holds no byte that was not there, and no separator.
cut-has_no : (c : ℕ) (s : Text) → has_byte c (cut c s).0 ≡ false
unfolding has_byte cut
cut-has_no c [] = refl
cut-has_no c (x ∷ s) = ground (arith, cut-has_no c s)

cut-has_byte : (b c : ℕ) (s : Text) → has_byte b s ≡ false → has_byte b (cut c s).0 ≡ false
unfolding has_byte cut
cut-has_byte b c [] h = refl
cut-has_byte b c (x ∷ s) h = ground (arith, cut-has_byte b c s)

is_empty-append : (s t : Text) → is_empty s ≡ false → is_empty (s ++ t) ≡ false
is_empty-append [] t h = cc
is_empty-append (c ∷ s) t h = refl

-- What base64 promises: a text is read back, and only the empty one has an empty code.
pub record CryptoLaws (crypto : Crypto) : Type 0 where
  pub decode_encode : (t : Text) → crypto.decode (crypto.encode t) ≡ some t
  pub encode_empty : (t : Text) → is_empty (crypto.encode t) ≡ is_empty t

module _ (crypto : Crypto) where
  user_of_payload-other :
      (s : Sessions) (payload : Text) (now : ℕ)
      → text_eq (cut b'|' payload).0 s.username ≡ false
      → user_of_payload crypto s payload now ≡ none
  unfolding user_of_payload
  user_of_payload-other s payload now h = ground arith

  other_user :
      (s : Sessions) (payload : Text) (b : ℕ)
      → has_byte b s.username ≡ true
      → has_byte b (cut b'|' payload).0 ≡ false
      → text_eq (cut b'|' payload).0 s.username ≡ false
  other_user s payload b h k = elim (Bool-cases (text_eq (cut b'|' payload).0 s.username)) [
    | inl same ↦ absurd (
        let e = eq_of_text_eq (cut b'|' payload).0 s.username same in
        false≢true (sym k ∙ ap (has_byte b) e ∙ h))
    | inr other ↦ other
  ]

  user_of_token-none :
      (s : Sessions) (token : Text) (now : ℕ)
      → (has_byte b'.' s.username || has_byte b'|' s.username) ≡ true
      → user_of_token crypto s token now ≡ none
  unfolding user_of_token
  user_of_token-none s token now h = elim (Bool-cases (has_byte b'.' s.username)) [
    | inl dot ↦ ground (
      arith,
      user_of_payload-other s (cut b'.' token).0 now (
          other_user s (cut b'.' token).0 b'.' dot
            (cut-has_byte b'.' b'|' (cut b'.' token).0 (cut-has_no b'.' token))),
    )
    | inr no_dot ↦ ground (
      arith,
      user_of_payload-other s (cut b'.' token).0 now (
          other_user s (cut b'.' token).0 b'|' (ground arith) (cut-has_no b'|' (cut b'.' token).0)),
    )
  ]

  -- No cookie, not even the one that a login sets, gives a session to a configured name that holds a
  -- `.` or a `|`.
  pub username_from_request-none :
      (s : Sessions) (value : Option Text) (now : ℕ)
      → (has_byte b'.' s.username || has_byte b'|' s.username) ≡ true
      → username_from_request crypto s value now ≡ none
  unfolding username_from_request
  username_from_request-none s none now h = refl
  username_from_request-none s (some value) now h = elim (Bool-cases (is_empty value)) [
    | inl blank ↦ rw blank refl
    | inr given ↦ rw given (elim (Option-cases (crypto.decode value)) [
      | inl garbled ↦ rw garbled refl
      | inr (token, e) ↦ rw e (user_of_token-none s token now h)
    ])
  ]

  module _ (s : Sessions) (now : ℕ) where
    abbrev payload : Text
    payload = s.username ++ b'|' ∷ format (now + session_ttl)

    payload-has_dot : has_byte b'.' s.username ≡ false → has_byte b'.' payload ≡ false
    payload-has_dot h =
        rw (has_byte-append b'.' s.username (b'|' ∷ format (now + session_ttl)), h)
          (unfold has_byte in has_byte-format b'.' (now + session_ttl) (omega arith))

    user_of_payload_lem :
        (later : ℕ)
        → is_empty s.username ≡ false
        → has_byte b'|' s.username ≡ false
        → now + session_ttl < 2 ^ 63
        → user_of_payload crypto s payload later
          ≡ (if leb later (now + session_ttl) then some s.username else none)
    unfolding user_of_payload
    user_of_payload_lem later named bar small =
        rw
          (
            cut-append b'|' s.username (format (now + session_ttl)) bar,
            named,
            text_eq_refl s.username,
            parse_int-format (now + session_ttl) small,
          )
          refl

    -- The cookie that a login sets gives a session to the configured name until 12 hours after the
    -- login, and not later, if the name is not empty and holds neither `.` nor `|`; base64 is read
    -- back, and the time is one of an int64.
    pub username_from_request-cookie_value :
        (later : ℕ)
        → CryptoLaws crypto
        → is_empty s.username ≡ false
        → has_byte b'.' s.username ≡ false
        → has_byte b'|' s.username ≡ false
        → now + session_ttl < 2 ^ 63
        → username_from_request crypto s (some (cookie_value crypto s s.username now)) later
          ≡ (if leb later (now + session_ttl) then some s.username else none)
    unfolding username_from_request user_of_token cookie_value secure_eq
    username_from_request-cookie_value later laws named dot bar small =
        let token = payload ++ b'.' ∷ crypto.sign s.secret payload in
        rw (laws.encode_empty token, laws.decode_encode token)
          (rw
            (
              is_empty-append payload (b'.' ∷ crypto.sign s.secret payload)
                  (is_empty-append s.username (b'|' ∷ format (now + session_ttl)) named),
              cut-append b'.' payload (crypto.sign s.secret payload) (payload-has_dot dot),
              text_eq_refl (crypto.digest (crypto.sign s.secret payload)),
            )
            (user_of_payload_lem later named bar small))
