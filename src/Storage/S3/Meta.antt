-- ===== src/Storage/S3/Meta.antt =====
-- internal/storage/s3.go: the metadata, under keys of its own.
use nx_cache.Common.{
  ℕ, ◌≡◌, refl, sym, ap, ◌∙◌, inl, inr, true, false, ◌⊎◌, Option, none, some, List, [], ◌∷◌, ◌++◌,
  append_assoc, arith, length, take_of_length-le, if◌then◌else◌, Bool-cases, map, Text, codes,
  text_eq, text_eq_iff, has_byte, trim_prefix, mem,
}
use nx_cache.Storage.Types.{Fault, Result, Stored, not_found, failure, ok, err}
use nx_cache.Storage.S3.Sdk.{Client, ClientError, Reply, reply, refused, Content, PutInput}
use nx_cache.Storage.S3.{S3, key, is_not_found, delete_batches}
use nx_cache.Storage.S3.Laws.{ClientLaws}
use nx_cache.Storage.S3.Delete.{batches-keep}
use nx_cache.Storage.S3.Objects.{view, text_eq-append}

unfoldable pub meta_key : S3 → Text → Text
meta_key s key = s.prefix ++ codes ".meta/" ++ trim_prefix key (codes "/")

-- The body is a bytes.Reader over the data.
unfoldable pub meta_input : S3 → Text → Text → PutInput
unfolding meta_key
meta_input s key data_ = record {
  bucket = s.bucket;
  key = meta_key s key;
  body = record { bytes = data_; broken = false };
  content_length = length data_;
  content_type = codes "application/json";
  if_none_match = none;
}

abbrev pub fault_of : Option ClientError → Option Fault
fault_of none = none
fault_of (some e) = some failure

fault_of-none : (e : Option ClientError) → fault_of e ≡ none → e ≡ none
fault_of-none none h = refl
fault_of-none (some e) h = ground arith

module _ (c : Client) where
  unfoldable pub put_meta : S3 → c.State → Text → Text → Option Fault × c.State
  unfolding meta_input
  put_meta s st key data_ =
      let (p, st') = c.put_object st (meta_input s key data_) in (fault_of p.error, st')

  unfoldable pub after_get_meta : Reply Content → Result Text
  unfolding is_not_found
  after_get_meta (refused e) = if is_not_found e then err not_found else err failure
  after_get_meta (reply out) = ok out.bytes

  unfoldable pub get_meta : S3 → c.State → Text → Result Text
  unfolding after_get_meta meta_key
  get_meta s st key = after_get_meta (c.get_object st s.bucket (meta_key s key))

  unfoldable pub delete_meta : S3 → c.State → List Text → Option Fault × c.State
  unfolding delete_batches meta_key
  delete_meta s st keys = delete_batches c s (meta_key s) (length keys) keys st

has_byte-inside : (b : ℕ) (s t : Text) → has_byte b (s ++ b ∷ t) ≡ true
unfolding has_byte
has_byte-inside b [] t = ground arith
has_byte-inside b (c ∷ s) t = ground (arith, has_byte-inside b s t)

slash_apart : (s t hash : Text) → has_byte b'/' hash ≡ false → text_eq (s ++ b'/' ∷ t) hash ≡ false
slash_apart s t hash h = ground (arith, text_eq_iff (s ++ b'/' ∷ t) hash, has_byte-inside b'/' s t)

-- No metadata has the key of an artifact whose hash has no slash.
meta_key_apart :
    (s : S3) (k hash : Text)
    → has_byte b'/' hash ≡ false
    → text_eq (meta_key s k) (key s hash) ≡ false
unfolding meta_key key
meta_key_apart s k hash h =
    let rest = trim_prefix k (codes "/") in
    rw
      (
        append_assoc s.prefix (codes ".meta/") rest,
        text_eq-append s.prefix (codes ".meta/" ++ rest) hash,
      )
      (slash_apart (codes ".meta") rest hash h)

mem-meta_keys :
    (s : S3) (ks : List Text) (hash : Text)
    → has_byte b'/' hash ≡ false
    → mem (key s hash) (map (meta_key s) ks) ≡ false
unfolding mem
mem-meta_keys s [] hash h = refl
mem-meta_keys s (k ∷ ks) hash h = rw (meta_key_apart s k hash h) (mem-meta_keys s ks hash h)

module _ {c : Client} (s : S3) (l : ClientLaws c s.bucket) where
  -- Writing metadata leaves every artifact whose hash has no slash as it is, whether it succeeds or
  -- not.
  pub put_meta-spares :
      (st : c.State) (k data_ hash : Text)
      → has_byte b'/' hash ≡ false
      → view s l (put_meta c s st k data_).1 hash ≡ view s l st hash
  unfolding put_meta meta_input
  put_meta-spares st k data_ hash h =
      l.put_other st (meta_input s k data_) (key s hash) (meta_key_apart s k hash h)

  -- So does the deletion of metadata, however many keys it is given.
  pub delete_meta-spares :
      (st : c.State) (ks : List Text) (hash : Text)
      → has_byte b'/' hash ≡ false
      → view s l (delete_meta c s st ks).1 hash ≡ view s l st hash
  unfolding delete_meta
  delete_meta-spares st ks hash h =
      batches-keep s l (meta_key s) (length ks) ks st (key s hash) (mem-meta_keys s ks hash h)

  put_meta-stores :
      (st : c.State) (k data_ : Text)
      → (put_meta c s st k data_).0 ≡ none
      → l.view (put_meta c s st k data_).1 (meta_key s k)
        ≡ some (record { content = data_; modified = l.stamp st })
  unfolding put_meta meta_input
  put_meta-stores st k data_ h =
      let i = meta_input s k data_ in
      let done : (c.put_object st i).0.error ≡ none = fault_of-none _ h in
      l.put_stored st i refl done (l.put_all st i refl refl done)
      ∙ ap (λ x. some (record { content = x; modified = l.stamp st }))
          (take_of_length-le (length data_) data_ (omega arith))

  after_get_meta-cases :
      (st : c.State) (k : Text) (o : Stored) (a : Reply Content)
      → c.get_object st s.bucket (meta_key s k) ≡ a
      → l.view st (meta_key s k) ≡ some o
      → (after_get_meta c a ≡ ok o.content) ⊎ (after_get_meta c a ≡ err failure)
  unfolding after_get_meta
  after_get_meta-cases st k o (reply out) q p =
      let (o', there, same, sized) = l.get_found st (meta_key s k) out q in
      let both : some o' ≡ some o = sym there ∙ p in
      let one : o' ≡ o = cc in inl (ap ok (sym same ∙ ap (λ x. x.content) one))
  after_get_meta-cases st k o (refused e) q p = elim (Bool-cases (is_not_found e)) [
    | inl gone ↦ let absent = l.get_missing st (meta_key s k) e q gone in absurd (cc)
    | inr other ↦ rw other (inr refl)
  ]

  -- Metadata that was written without an error is read back as it was, or the read fails with an
  -- error that is not ErrNotFound, if the service keeps its laws.
  pub get_meta-put_meta :
      (st : c.State) (k data_ : Text)
      → (put_meta c s st k data_).0 ≡ none
      → (get_meta c s (put_meta c s st k data_).1 k ≡ ok data_)
        ⊎ (get_meta c s (put_meta c s st k data_).1 k ≡ err failure)
  unfolding get_meta
  get_meta-put_meta st k data_ h =
      after_get_meta-cases (put_meta c s st k data_).1 k _ _ refl (put_meta-stores st k data_ h)
