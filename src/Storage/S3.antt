-- ===== src/Storage/S3.antt =====
-- internal/storage/s3.go: `S3`, the backend that keeps the artifacts in a bucket.
pub mod Sdk
pub mod Listing
pub mod Laws
pub mod Delete
pub mod Objects
pub mod Complete
pub mod Meta
pub mod Contract
use nx_cache.Common.{
  ℕ, suc, zero, ◌-◌, ◌+◌, Bool, true, false, not, ◌&&◌, ◌||◌, Option, none, some, List, [], ◌∷◌,
  ◌++◌, ltb, ◌==◌, if◌then◌else◌, length, take, drop, map, Text, codes, text_eq, is_empty,
  has_suffix, has_byte, trim_prefix, sum_by, Time,
}
use nx_cache.Storage.Types.{
  limit_reader, Fault, Result, Object, Body, not_found, already_exists, incomplete, failure, ok,
  err,
}
use nx_cache.Storage.S3.Sdk.{
  Client, ClientError, Reply, reply, refused, PutInput, PutReply, Content, Entry, Page,
}

-- The fields of `S3` beside its client.
pub record S3 : Type 0 where
  pub bucket : Text
  pub prefix : Text

-- What `NewS3` makes of the bucket and the prefix that are configured.
unfoldable pub new_s3 : Text → Text → S3
new_s3 bucket prefix = record {
  bucket = bucket;
  prefix =
      if not (is_empty prefix) && not (has_suffix prefix (codes "/"))
      then prefix ++ codes "/"
      else prefix;
}

abbrev pub has_code : List Text → Option Text → Bool
has_code cs none = false
has_code [] (some c) = false
has_code (d ∷ cs) (some c) = text_eq c d || has_code cs (some c)

abbrev pub has_status : ℕ → Option ℕ → Bool
has_status n none = false
has_status n (some m) = m == n

-- isNotFound, of an error that is not nil
unfoldable pub is_not_found : ClientError → Bool
is_not_found e =
    e.is_missing
    || has_code (codes "NotFound" ∷ codes "NoSuchKey" ∷ codes "NoSuchBucket" ∷ []) e.code
    || has_status 404 e.status

-- isPreconditionFailed, of an error that is not nil
unfoldable pub is_precondition_failed : ClientError → Bool
is_precondition_failed e =
    has_code (codes "PreconditionFailed" ∷ codes "412" ∷ []) e.code || has_status 412 e.status

unfoldable pub key : S3 → Text → Text
key s hash = s.prefix ++ hash

-- countingReader.Read: `n` is the field before, `read` what the reader behind it answers.
unfoldable pub counting_read : ℕ → ℕ → ℕ
counting_read n read = n + read

-- The field of the counting reader after the reads that the client has made of it.
unfoldable pub count_reads : ℕ → List ℕ → ℕ
unfolding counting_read
count_reads n [] = n
count_reads n (read ∷ reads) = count_reads (counting_read n read) reads

unfoldable pub object_input : S3 → Text → Body → ℕ → PutInput
unfolding key limit_reader
object_input s hash r size = record {
  bucket = s.bucket;
  key = key s hash;
  body = limit_reader r size;
  content_length = size;
  content_type = codes "application/octet-stream";
  if_none_match = some (codes "*");
}

-- The keys of the objects of a batch.
unfoldable pub keys_of : (Text → Text) → List Text → List Text
keys_of f hashes = map f hashes

module _ (c : Client) where
  -- What a batch's answer makes of the loop: it goes on, or it ends with the error. The errors that
  -- the answer lists for single keys are not looked at.
  unfoldable pub after_batch :
      (c.State → Option Fault × c.State)
      → Option ClientError × List Text × c.State
      → Option Fault × c.State
  after_batch rest (none, keys, st) = rest st
  after_batch rest (some e, keys, st) = (some failure, st)

  -- The loop of `Delete` and `DeleteMeta` over batches of a thousand, with the most batches that it
  -- may run; `f` gives the key of a name.
  unfoldable pub delete_batches :
      S3 → (Text → Text) → ℕ → List Text → c.State → Option Fault × c.State
  unfolding after_batch keys_of
  delete_batches s f zero names st = (none, st)
  delete_batches s f (suc n) [] st = (none, st)
  delete_batches s f (suc n) (name ∷ names) st =
      let rest = delete_batches s f n (drop 1000 (name ∷ names)) in
      after_batch rest (c.delete_objects st s.bucket (keys_of f (take 1000 (name ∷ names))))

  unfoldable pub delete : S3 → c.State → List Text → Option Fault × c.State
  unfolding delete_batches key
  delete s st hashes = delete_batches s (key s) (length hashes) hashes st

  unfoldable pub after_head : Option ClientError → Result Bool
  unfolding is_not_found
  after_head none = ok true
  after_head (some e) = if is_not_found e then ok false else err failure

  unfoldable pub exists : S3 → c.State → Text → Result Bool
  unfolding after_head key
  exists s st hash = after_head (c.head_object st s.bucket (key s hash))

  unfoldable pub after_put_object : S3 → Text → ℕ → PutReply × c.State → Option Fault × c.State
  unfolding is_precondition_failed count_reads delete
  after_put_object s hash size (p, st) = elim p.error [
    | none ↦
        if not (count_reads 0 p.reads == size)
        then (some incomplete, (delete s st (hash ∷ [])).1)
        else (none, st)
    | some e ↦ (some (if is_precondition_failed e then already_exists else failure), st)
  ]

  unfoldable pub put : S3 → c.State → Text → Body → ℕ → Option Fault × c.State
  unfolding after_put_object object_input
  put s st hash r size = after_put_object s hash size (c.put_object st (object_input s hash r size))

  unfoldable pub length_or_zero : Option ℕ → ℕ
  length_or_zero none = 0
  length_or_zero (some n) = n

  unfoldable pub after_get_object : Reply Content → Result (Text × ℕ)
  unfolding is_not_found length_or_zero
  after_get_object (refused e) = if is_not_found e then err not_found else err failure
  after_get_object (reply out) = ok (out.bytes, length_or_zero out.content_length)

  unfoldable pub get : S3 → c.State → Text → Result (Text × ℕ)
  unfolding after_get_object key
  get s st hash = after_get_object (c.get_object st s.bucket (key s hash))

  unfoldable pub after_create : Option ClientError × c.State → Option Fault × c.State
  after_create (none, st) = (none, st)
  after_create (some e, st) = if e.is_bucket_taken then (none, st) else (some failure, st)

  unfoldable pub after_head_bucket : S3 → Option ClientError → c.State → Option Fault × c.State
  unfolding is_not_found after_create
  after_head_bucket s none st = (none, st)
  after_head_bucket s (some e) st =
      if not (is_not_found e)
      then (some failure, st)
      else after_create (c.create_bucket st s.bucket)

  unfoldable pub ensure_bucket : S3 → c.State → Option Fault × c.State
  unfolding after_head_bucket
  ensure_bucket s st = after_head_bucket s (c.head_bucket st s.bucket) st
