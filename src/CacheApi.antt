-- ===== src/CacheApi.antt =====
-- internal/cacheapi/handler.go: the handlers of `/v1/cache/{hash}` over a backend and a store. What
-- `Inspect` finds in an upload is a parameter; the clock's readings are arguments.
pub mod Preserves
pub mod Uploads
pub mod Rollback
use nx_cache.Common.{
  ℕ, ◌-◌, ◌+◌, ◌/◌, ◌^◌, max, String, ap, Bool, true, false, not, ◌&&◌, ◌||◌, Option, none, some,
  [], ◌∷◌, ltb, leb, ◌==◌, if◌then◌else◌, length, take, Text, codes, is_empty, parse_int, Int64,
  natural, negative, Time,
}
use nx_cache.Storage.Types.{
  Fault, Result, Body, Backend, not_found, already_exists, incomplete, ok, err,
}
use nx_cache.Store.Types.{override, TaskInfo, Entry}
use nx_cache.Store.Interface.{call, Store}
use nx_cache.NxArtifact.Kind.{from_headers, merge, TaskHeaders}
use nx_cache.Cleanup.{run, maybe_run, start, Cleaner}
use nx_cache.LongPoll.{notify, State, Hub, answer}
use nx_cache.Metrics.{observe, observe_read, observe_write, Collector}

abbrev pub is_alphanumeric : ℕ → Bool
is_alphanumeric c = leb b'A' c && leb c b'Z' || leb b'a' c && leb c b'z' || leb b'0' c && leb c b'9'

abbrev pub is_hash_byte : ℕ → Bool
is_hash_byte c = is_alphanumeric c || c == b'.' || c == b'_' || c == b'-'

unfoldable pub all_hash_bytes : Text → Bool
all_hash_bytes [] = true
all_hash_bytes (c ∷ s) = is_hash_byte c && all_hash_bytes s

-- ^[A-Za-z0-9][A-Za-z0-9._-]{0,127}$
unfoldable pub valid_hash : Text → Bool
unfolding all_hash_bytes
valid_hash [] = false
valid_hash (c ∷ s) = is_alphanumeric c && leb (length s) 127 && all_hash_bytes s

pub record Response : Type 0 where
  pub status : ℕ
  pub body : Text
  pub content_length : Option ℕ

abbrev pub reply : ℕ → String → Response
reply status message = record { status = status; body = codes message; content_length = none }

-- MaxUpload is an int64; 0 and less set no limit. A nil Cleaner is `has_cleaner = false`.
pub record Config : Type 0 where
  pub cleanup_on_save : Bool
  pub max_upload : Int64
  pub has_cleaner : Bool

-- What the clock reads during a request: `Now`, the time since the start, the time of the
-- notification, and the two readings of `MaybeRun`.
pub record Moments : Type 0 where
  pub now : Time
  pub elapsed : Int64
  pub notified : Time
  pub since : Time
  pub launched : Time

pub record PutRequest : Type 0 where
  pub hash : Text
  pub content_length : Text
  pub headers : TaskHeaders
  pub body : Body

-- A nil Metrics or Notify is `none`. `runs` counts the cleanups that were started.
pub record World (b : Backend) (s : Store) : Type 0 where
  pub backend : b.State
  pub store : s.State
  pub metrics : Option Collector
  pub hub : Option Hub
  pub cleaner : Cleaner
  pub runs : ℕ

-- h.MaxUpload > 0 && size > h.MaxUpload
abbrev pub too_large : Int64 → ℕ → Bool
too_large (natural limit) size = ltb 0 limit && ltb limit size
too_large (negative n) size = false

abbrev pub head_status : Result Bool → ℕ
head_status (err e) = 500
head_status (ok false) = 404
head_status (ok true) = 200

module _ {b : Backend} {s : Store} where
  -- The deferred calls of Put and of Get.
  unfoldable pub observe_with : (Collector → Collector) → Time → World b s → World b s
  observe_with f notified w = record w {
    metrics = elim w.metrics [ none ↦ none | some c ↦ some (f c) ];
    hub = elim w.hub [ none ↦ none | some h ↦ some (notify notified h) ];
  }

  unfoldable pub maybe_clean : Config → Moments → World b s → World b s
  maybe_clean cfg m w =
      if cfg.cleanup_on_save && cfg.has_cleaner
      then (let (started, c) = maybe_run m.since m.launched w.cleaner in
          record w { cleaner = c; runs = (if started then w.runs + 1 else w.runs) })
      else w

  -- The answer of `Store.UpsertEntry`; an error takes the object back.
  unfoldable pub after_upsert :
      Config → Moments → Text → Option Fault × s.State → World b s → Response × World b s
  unfolding maybe_clean
  after_upsert cfg m hash (some e, ss) w = (
    reply 500 "Internal server error",
    record w { backend = (b.delete w.backend (hash ∷ [])).1; store = ss },
  )
  after_upsert cfg m hash (none, ss) w =
      (reply 200 "Successfully uploaded", maybe_clean cfg m (record w { store = ss }))

  -- The answer of `Backend.Put`.
  unfoldable pub after_put :
      (Text → TaskInfo)
      → Config
      → Moments
      → PutRequest
      → ℕ
      → Option Fault × b.State
      → World b s
      → Response × World b s
  unfolding after_upsert
  after_put inspect cfg m r size (some already_exists, bs) w =
      (reply 409 "Cannot override an existing record", record w { backend = bs })
  after_put inspect cfg m r size (some incomplete, bs) w =
      (reply 400 "upload did not match Content-Length", record w { backend = bs })
  after_put inspect cfg m r size (some e, bs) w =
      (reply 500 "Internal server error", record w { backend = bs })
  after_put inspect cfg m r size (none, bs) w =
      let info = merge (from_headers r.headers) (inspect r.body.bytes) in
      after_upsert cfg m r.hash (s.upsert_entry r.hash size m.now info w.store)
        (record w { backend = bs })

  unfoldable pub after_exists :
      (Text → TaskInfo)
      → Config
      → Moments
      → PutRequest
      → ℕ
      → Result Bool
      → World b s
      → Response × World b s
  unfolding after_put
  after_exists inspect cfg m r size (err e) w = (reply 500 "Internal server error", w)
  after_exists inspect cfg m r size (ok true) w =
      (reply 409 "Cannot override an existing record", w)
  after_exists inspect cfg m r size (ok false) w =
      after_put inspect cfg m r size (b.put w.backend r.hash r.body size) w

  -- From `started` on, with what is deferred there.
  unfoldable pub put_sized :
      (Text → TaskInfo) → Config → Moments → PutRequest → ℕ → World b s → Response × World b s
  unfolding after_exists observe_with
  put_sized inspect cfg m r size w =
      let (response, w') = after_exists inspect cfg m r size (b.exists w.backend r.hash) w in
      (response, observe_with (observe_write m.elapsed (natural size)) m.notified w')

  unfoldable pub put_parsed :
      (Text → TaskInfo)
      → Config
      → Moments
      → PutRequest
      → Option Int64
      → World b s
      → Response × World b s
  unfolding put_sized
  put_parsed inspect cfg m r none w = (reply 411 "Content-Length header is required", w)
  put_parsed inspect cfg m r (some (negative n)) w =
      (reply 411 "Content-Length header is required", w)
  put_parsed inspect cfg m r (some (natural size)) w =
      if too_large cfg.max_upload size
      then (reply 413 "payload too large", w)
      else put_sized inspect cfg m r size w

  unfoldable pub put :
      (Text → TaskInfo) → Config → Moments → PutRequest → World b s → Response × World b s
  unfolding put_parsed
  put inspect cfg m r w =
      if not (valid_hash r.hash)
      then (reply 400 "invalid hash", w)
      else if is_empty r.content_length
      then (reply 411 "Content-Length header is required", w)
      else put_parsed inspect cfg m r (parse_int r.content_length) w

  -- The answer of `Backend.Get`, with the size that the deferred call reports. A backend returns the
  -- size 0 with an error.
  unfoldable pub after_get :
      Moments → Text → Result (Text × ℕ) → World b s → Response × ℕ × World b s
  after_get m hash (err not_found) w = (
    reply 404 "The record was not found",
    0,
    record w { store = (s.record_miss m.now w.store).1 },
  )
  after_get m hash (err e) w = (reply 500 "Internal server error", 0, w)
  after_get m hash (ok (content, size)) w = (
    record {
      status = 200;
      body = content;
      content_length = (if ltb 0 size then some size else none);
    },
    size,
    record w { store = (s.record_hit hash m.now w.store).1 },
  )

  unfoldable pub get : Moments → Text → World b s → Response × World b s
  unfolding after_get observe_with
  get m hash w =
      if not (valid_hash hash)
      then (reply 404 "The record was not found", w)
      else (let (response, size, w') = after_get m hash (b.get w.backend hash) w in
          (response, observe_with (observe_read m.elapsed (natural size)) m.notified w'))

  unfoldable pub head : Text → World b s → ℕ
  head hash w = if not (valid_hash hash) then 404 else head_status (b.exists w.backend hash)
