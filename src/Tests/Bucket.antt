-- ===== src/Tests/Bucket.antt =====
-- internal/storage/s3.go: a small service behind the client, which answers a listing in one page and
-- refuses to delete some keys.
use nx_cache.Common.{
  ℕ, ◌≡◌, ◌≤◌, refl, sym, ap, ◌∙◌, inl, inr, Bool, true, false, not, ◌&&◌, ◌≢◌, Option, none, some,
  List, [], ◌∷◌, ◌==◌, arith, if◌then◌else◌, Bool-cases, length, take, take_of_length-le, any,
  filter, sum_by, All, Text, codes, text_eq, text_eq_iff, text_eq_refl, has_prefix, mem, Assoc,
  lookup, insert, remove_all, keys, Distinct, lookup-insert, lookup_absent, lookup-remove_all,
  insert-Distinct, remove_all-Distinct, Time,
}
use nx_cache.Storage.Types.{Stored, is_some, modified_when}
use nx_cache.Storage.S3.Sdk.{
  Client, ClientError, Reply, reply, refused, Content, Entry, Page, PutInput,
}
use nx_cache.Storage.S3.Listing.{or_zero, next_page}
use nx_cache.Storage.S3.Laws.{is_key, is_under, only_if_new, ClientLaws}

pub record Bucket : Type 0 where
  pub held : Assoc Stored
  pub distinct : Distinct (keys held)

abbrev with_code : Text → ℕ → ClientError
with_code c n = record {
  is_missing = false;
  is_bucket_taken = false;
  code = some c;
  status = some n;
}

abbrev missing : ClientError
missing = with_code (codes "NoSuchKey") 404

abbrev head_of : Option Stored → Option ClientError
head_of none = some missing
head_of (some o) = none

abbrev content_of : Option Stored → Reply Content
content_of none = refused missing
content_of (some o) = reply (record { bytes = o.content; content_length = some (length o.content) })

abbrev entry_of : Text → Stored → Entry
entry_of k o = record {
  key = some k;
  size = some (length o.content);
  last_modified = some o.modified;
}

unfoldable pub entries_under : Text → Assoc Stored → List Entry
entries_under prefix [] = []
entries_under prefix ((k, o) ∷ rest) =
    let others = entries_under prefix rest in
    if has_prefix k prefix then entry_of k o ∷ others else others

unfoldable pub is_only_if_new : Option Text → Bool
is_only_if_new none = false
is_only_if_new (some t) = text_eq t (codes "*")

unfoldable pub put_error : PutInput → Option Stored → Option ClientError
unfolding is_only_if_new
put_error i old =
    if is_only_if_new i.if_none_match && is_some old
    then some (with_code (codes "PreconditionFailed") 412)
    else if length i.body.bytes == i.content_length && not i.body.broken
    then none
    else some (with_code (codes "IncompleteBody") 400)

abbrev put_state : PutInput → Bucket → Option ClientError → Bucket
put_state i b (some e) = b
put_state i b none = record {
  held = insert i.key (record { content = i.body.bytes; modified = 5 }) b.held;
  distinct =
      insert-Distinct i.key (record { content = i.body.bytes; modified = 5 }) b.held b.distinct;
}

abbrev without : List Text → Bucket → Bucket
without ks b = record {
  held = remove_all ks b.held;
  distinct = remove_all-Distinct ks b.held b.distinct;
}

abbrev page_of : Option Text → Text → Assoc Stored → List Entry
page_of none prefix held = entries_under prefix held
page_of (some t) prefix held = []

-- `locked` are the keys that cannot be deleted.
abbrev pub bucket_client : List Text → Client
bucket_client locked = record {
  State = Bucket;
  head_object = λ b name k. head_of (lookup k b.held);
  put_object = λ b i. (
    record { error = put_error i (lookup i.key b.held); reads = length i.body.bytes ∷ [] },
    put_state i b (put_error i (lookup i.key b.held)),
  );
  get_object = λ b name k. content_of (lookup k b.held);
  delete_objects = λ b name ks.
      (none, filter (λ k. mem k locked) ks, without (filter (λ k. not (mem k locked)) ks) b);
  list_objects = λ b name prefix token.
      reply
        (record { contents = page_of token prefix b.held; is_truncated = none; next_token = none });
  head_bucket = λ b name. none;
  create_bucket = λ b name. (none, b);
}

pub mem-filter :
    (j : Text) (p : Text → Bool) (ks : List Text) → mem j (filter p ks) ≡ (mem j ks && p j)
unfolding mem
mem-filter j p [] = refl
mem-filter j p (k ∷ ks) = ground (arith, mem-filter j p ks, text_eq_iff k j)

pub any-entries_under :
    (prefix k : Text) (p : Time → Bool) (held : Assoc Stored)
    → Distinct (keys held)
    → any (λ e. is_key k e.key && p (or_zero e.last_modified)) (entries_under prefix held)
      ≡ (has_prefix k prefix && modified_when p (lookup k held))
unfolding entries_under lookup
any-entries_under prefix k p [] d = ground arith
any-entries_under prefix k p ((j, o) ∷ held) d =
    ground
      (arith, any-entries_under prefix k p held d.1, lookup_absent k held, text_eq_iff j k, d.0)

pub entries_under-All :
    (prefix : Text) (held : Assoc Stored)
    → All (λ e. is_under prefix e.key ≡ true) (entries_under prefix held)
unfolding entries_under
entries_under-All prefix [] = tt
entries_under-All prefix ((j, o) ∷ held) = elim (Bool-cases (has_prefix j prefix)) [
  | inl h ↦ rw h (h, entries_under-All prefix held)
  | inr h ↦ rw h (entries_under-All prefix held)
]

pub put_error-some :
    (i : PutInput) (o : Stored)
    → i.if_none_match ≡ only_if_new
    → put_error i (some o) ≡ some (with_code (codes "PreconditionFailed") 412)
unfolding put_error is_only_if_new text_eq
put_error-some i o m = rw m refl

pub put_error-new :
    (i : PutInput) (old : Option Stored)
    → i.if_none_match ≡ only_if_new
    → put_error i old ≡ none
    → old ≡ none
unfolding put_error is_only_if_new text_eq
put_error-new i none m h = refl
put_error-new i (some o) m h = absurd (ground (arith, put_error-some i o m))

pub put_error-length :
    (i : PutInput) (old : Option Stored)
    → put_error i old ≡ none
    → length i.body.bytes ≡ i.content_length
unfolding put_error
put_error-length i old h = ground arith

page_or : Page → Reply Page → Page
page_or d (reply p) = p
page_or d (refused e) = d

pub no_next : (n : Option Text) (t : Text) → n ≡ none → n ≢ some t
no_next n t p q = ground arith

pub one_read : (i : PutInput) → sum_by (λ n. n) (length i.body.bytes ∷ []) ≤ length i.body.bytes
one_read i = omega arith

pub one_read_all :
    (i : PutInput)
    → length i.body.bytes ≡ i.content_length
    → sum_by (λ n. n) (length i.body.bytes ∷ []) ≡ i.content_length
one_read_all i sized = omega arith

module _ (locked : List Text) where
  pub put_stored-bucket :
      (b : Bucket) (i : PutInput) (e : Option ClientError)
      → e ≡ none
      → length i.body.bytes ≡ i.content_length
      → lookup i.key (put_state i b e).held
        ≡ some (record { content = take i.content_length i.body.bytes; modified = 5 })
  put_stored-bucket b i none q sized =
      lookup-insert i.key i.key _ b.held
      ∙ rw (text_eq_refl i.key) (
          ap (λ x. some (record { content = x; modified = 5 }))
            (sym (take_of_length-le i.content_length i.body.bytes (omega arith))))
  put_stored-bucket b i (some e) q sized = ground arith

  pub put_other-bucket :
      (b : Bucket) (i : PutInput) (j : Text) (e : Option ClientError)
      → text_eq i.key j ≡ false
      → lookup j (put_state i b e).held ≡ lookup j b.held
  put_other-bucket b i j none h = lookup-insert i.key j _ b.held ∙ rw h refl
  put_other-bucket b i j (some e) h = refl

  pub head_of-found : (o : Option Stored) → head_of o ≡ none → is_some o ≡ true
  head_of-found none h = ground arith
  head_of-found (some o) h = refl

  pub head_of-missing : (o : Option Stored) (e : ClientError) → head_of o ≡ some e → o ≡ none
  head_of-missing none e h = refl
  head_of-missing (some o) e h = ground arith

  pub content_of-found :
      (s : Option Stored) (out : Content)
      → content_of s ≡ reply out
      → (o : Stored) × (s ≡ some o)
        × (o.content ≡ out.bytes)
        × (out.content_length ≡ some (length out.bytes))
  content_of-found none out h = ground arith
  content_of-found (some o) out h = (o, refl, ground arith, ground arith)

  pub content_of-missing :
      (s : Option Stored) (e : ClientError) → content_of s ≡ refused e → s ≡ none
  content_of-missing none e h = refl
  content_of-missing (some o) e h = ground arith

  pub delete-bucket :
      (b : Bucket) (ks : List Text) (j : Text)
      → lookup j (without (filter (λ k. not (mem k locked)) ks) b).held
        ≡ (if mem j ks && not (mem j locked) then none else lookup j b.held)
  delete-bucket b ks j =
      lookup-remove_all (filter (λ k. not (mem k locked)) ks) j b.held
      ∙ rw (mem-filter j (λ k. not (mem k locked)) ks) refl

  pub delete_gone-bucket :
      (b : Bucket) (ks : List Text) (j : Text)
      → mem j ks ≡ true
      → mem j (filter (λ k. mem k locked) ks) ≡ false
      → lookup j (without (filter (λ k. not (mem k locked)) ks) b).held ≡ none
  delete_gone-bucket b ks j m clear =
      delete-bucket b ks j ∙ ground (arith, mem-filter j (λ k. mem k locked) ks)

  pub delete_refused-bucket :
      (b : Bucket) (ks : List Text) (j : Text)
      → mem j (filter (λ k. mem k locked) ks) ≡ true
      → lookup j (without (filter (λ k. not (mem k locked)) ks) b).held ≡ lookup j b.held
  delete_refused-bucket b ks j m =
      delete-bucket b ks j ∙ ground (arith, mem-filter j (λ k. mem k locked) ks)

  pub one_page :
      (b : Bucket) (name prefix : Text) (token : Option Text) (p : Page)
      → (bucket_client locked).list_objects b name prefix token ≡ reply p
      → (page_of token prefix b.held ≡ p.contents) × (next_page p ≡ none)
  unfolding next_page page_or
  one_page b name prefix token p q =
      let same = ap (page_or p) q in (ap (λ x. x.contents) same, rw (← same) refl)

  abbrev pub bucket_laws : (name : Text) → ClientLaws (bucket_client locked) name
  bucket_laws name = record {
    view = λ b k. lookup k b.held;
    stamp = λ b. 5;
    head_found = λ b k h. head_of-found (lookup k b.held) h;
    head_missing = λ b k e h m. head_of-missing (lookup k b.held) e h;
    put_reads = λ b i. one_read i;
    put_all = λ b i sized whole h. one_read_all i sized;
    put_stored = λ b i same h sized.
        put_stored-bucket b i (put_error i (lookup i.key b.held)) h
          (put_error-length i (lookup i.key b.held) h);
    put_other = λ b i j h. put_other-bucket b i j (put_error i (lookup i.key b.held)) h;
    put_new = λ b i same m h. put_error-new i (lookup i.key b.held) m h;
    put_refused = λ b i o m h. rw (h, put_error-some i o m) h;
    get_found = λ b k out h. content_of-found (lookup k b.held) out h;
    get_missing = λ b k e h m. content_of-missing (lookup k b.held) e h;
    delete_gone = λ b ks j q m clear. delete_gone-bucket b ks j m clear;
    delete_refused = λ b ks j m. delete_refused-bucket b ks j m;
    delete_other = λ b ks j m. delete-bucket b ks j ∙ rw m refl;
    listing = λ b prefix token. page_of token prefix b.held;
    rank = λ b prefix token. 0;
    page_last = λ b prefix token p q last. (one_page b name prefix token p q).0;
    page_more = λ b prefix token p t q more.
        absurd (no_next (next_page p) t (one_page b name prefix token p q).1 more);
    listed_under = λ b prefix. entries_under-All prefix b.held;
    listed = λ b prefix k p. any-entries_under prefix k p b.held b.distinct;
  }

-- Where no key is locked, none is refused.
pub none_locked : (ks : List Text) → filter (λ k. mem k []) ks ≡ []
unfolding mem
none_locked [] = refl
none_locked (k ∷ ks) = none_locked ks
