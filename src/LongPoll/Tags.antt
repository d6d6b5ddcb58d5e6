-- ===== src/LongPoll/Tags.antt =====
-- internal/longpoll/longpoll.go: entity tags, and which requests they make fresh.
use nx_cache.Common.{
  ℕ, ◌<◌, ◌≡◌, refl, ap, ◌∙◌, ◌≢◌, inl, inr, true, false, Option, none, some, [], ◌∷◌, ◌++◌,
  append_assoc, arith, Bool-cases, Text, text_eq, text_eq_refl, eq_of_text_eq, is_empty,
  trim_prefix, has_byte, is_space, trim_space, cut, format, scan, scan-format, has_byte-format,
  Time, has_byte-append, cut-append, split_without, trim_space_lem,
}
use nx_cache.LongPoll.{
  unix, etag_of, snapshot, weak_prefix, etag_matches, is_fresh, State, Hub, Conditions,
}

abbrev middle : ℕ → ℕ → Text
middle v u = format v ++ b'-' ∷ format u

has_byte-middle : (b v u : ℕ) → b < 45 → has_byte b (middle v u) ≡ false
unfolding has_byte
has_byte-middle b v u h = ground (
  arith,
  has_byte-append b (format v) (b'-' ∷ format u),
  has_byte-format b v,
  has_byte-format b u,
)

module _ (v u : ℕ) where
  trim_space-etag_of : trim_space (etag_of v u) ≡ etag_of v u
  unfolding etag_of
  trim_space-etag_of =
      trim_space_lem b'"' (middle v u) b'"' (unfold is_space in refl) (unfold is_space in refl)

  has_byte-etag_of : has_byte b',' (etag_of v u) ≡ false
  unfolding etag_of has_byte
  has_byte-etag_of =
      ground (
        arith,
        has_byte-append b',' (middle v u) (b'"' ∷ []),
        has_byte-middle b',' v u (omega arith),
      )

  -- A tag has no weak prefix to drop, and a weak tag has its own.
  trim_prefix-etag_of : trim_prefix (etag_of v u) weak_prefix ≡ etag_of v u
  unfolding etag_of trim_prefix
  trim_prefix-etag_of = refl

  trim_prefix-weak : trim_prefix (weak_prefix ++ etag_of v u) weak_prefix ≡ etag_of v u
  unfolding trim_prefix
  trim_prefix-weak = refl

  trim_space-weak : trim_space (weak_prefix ++ etag_of v u) ≡ weak_prefix ++ etag_of v u
  unfolding etag_of
  trim_space-weak =
      trim_space_lem b'W' (b'/' ∷ b'"' ∷ middle v u) b'"' (unfold is_space in refl)
        (unfold is_space in refl)

  not_star : text_eq (etag_of v u) (b'*' ∷ []) ≡ false
  unfolding etag_of text_eq
  not_star = refl

-- A client's tag, strong or weak, matches the server's tag exactly if they are the same text.
matches_strong :
    (v u : ℕ) (tag : Text)
    → trim_space tag ≡ tag
    → trim_prefix tag weak_prefix ≡ tag
    → etag_matches (etag_of v u) tag ≡ text_eq (etag_of v u) tag
unfolding etag_matches
matches_strong v u tag p q =
    rw
      (
        trim_space-etag_of v u,
        not_star v u,
        split_without b',' (etag_of v u) (has_byte-etag_of v u),
        p,
        q,
        trim_space-etag_of v u,
        trim_prefix-etag_of v u,
      )
      (ground arith)

matches_weak :
    (v u : ℕ) (tag : Text)
    → trim_space tag ≡ tag
    → trim_prefix tag weak_prefix ≡ tag
    → etag_matches (weak_prefix ++ etag_of v u) tag ≡ text_eq (etag_of v u) tag
unfolding etag_matches
matches_weak v u tag p q =
    rw
      (
        trim_space-weak v u,
        split_without b',' (weak_prefix ++ etag_of v u) (unfold has_byte in has_byte-etag_of v u),
        p,
        q,
        trim_space-weak v u,
        trim_prefix-weak v u,
      )
      (unfold text_eq in ground arith)

cut-etag_of : (v u : ℕ) → cut b'-' (etag_of v u) ≡ (b'"' ∷ format v, format u ++ b'"' ∷ [], true)
unfolding etag_of
cut-etag_of v u = rw append_assoc (
    cut-append b'-' (b'"' ∷ format v) (format u ++ b'"' ∷ [])
      (unfold has_byte in ground (arith, has_byte-format b'-' v)))

version_of : Text → Option ℕ
version_of [] = none
version_of (c ∷ s) = scan s 0

-- The version can be read off a tag.
version_of-etag_of : (v u : ℕ) → version_of (cut b'-' (etag_of v u)).0 ≡ some v
unfolding version_of
version_of-etag_of v u = rw cut-etag_of (scan-format v)

etag_of-ne : (v u v' u' : ℕ) → v ≢ v' → text_eq (etag_of v u) (etag_of v' u') ≡ false
etag_of-ne v u v' u' ne = elim (Bool-cases (text_eq (etag_of v u) (etag_of v' u'))) [
  | inl same ↦ absurd (
      ne (
        cc (
          version_of-etag_of v u,
          ap (λ s. version_of (cut b'-' s).0) (eq_of_text_eq (etag_of v u) (etag_of v' u') same),
          version_of-etag_of v' u',
        )))
  | inr other ↦ other
]

-- The request that a client makes with the tag of an answer: strong, or weak.
abbrev pub with_tag : Text → Text → Conditions
with_tag tag since = record { none_match = tag; modified_since = since }

is_fresh-with_tag :
    (parse_time : Text → Option Time) (tag since : Text) (state : State)
    → is_empty tag ≡ false
    → is_fresh parse_time (with_tag tag since) state ≡ etag_matches tag state.etag
unfolding is_fresh
is_fresh-with_tag parse_time tag since state h = ground arith

not_empty : (v u : ℕ) → is_empty (etag_of v u) ≡ false
unfolding etag_of
not_empty v u = refl

-- A request with the tag of the hub's state, strong or weak, is fresh whatever date it carries;
-- a request with the tag of another version, strong or weak, is not.
pub is_fresh_iff_version :
    (parse_time : Text → Option Time) (h : Hub) (v u : ℕ) (since : Text)
    → v ≢ h.version
    → (is_fresh parse_time (with_tag (snapshot h).etag since) (snapshot h) ≡ true)
      × (is_fresh parse_time (with_tag (weak_prefix ++ (snapshot h).etag) since) (snapshot h)
          ≡ true)
      × (is_fresh parse_time (with_tag (etag_of v u) since) (snapshot h) ≡ false)
      × (is_fresh parse_time (with_tag (weak_prefix ++ etag_of v u) since) (snapshot h) ≡ false)
unfolding snapshot
is_fresh_iff_version parse_time h v u since ne =
    let v' = h.version in
    let u' = unix h.updated_at in
    let tag = etag_of v' u' in
    let p = trim_space-etag_of v' u' in
    let q = trim_prefix-etag_of v' u' in
    (
      is_fresh-with_tag parse_time tag since (snapshot h) (not_empty v' u')
          ∙ matches_strong v' u' tag p q
          ∙ text_eq_refl tag,
      is_fresh-with_tag parse_time (weak_prefix ++ tag) since (snapshot h) refl
          ∙ matches_weak v' u' tag p q
          ∙ text_eq_refl tag,
      is_fresh-with_tag parse_time (etag_of v u) since (snapshot h) (not_empty v u)
          ∙ matches_strong v u tag p q
          ∙ etag_of-ne v u v' u' ne,
      is_fresh-with_tag parse_time (weak_prefix ++ etag_of v u) since (snapshot h) refl
          ∙ matches_weak v u tag p q
          ∙ etag_of-ne v u v' u' ne,
    )
