-- ===== src/LongPoll.antt =====
-- internal/longpoll/longpoll.go: the hub that long-poll requests wait on. `http.ParseTime` is a
-- parameter of the tests of the request's headers.
pub mod Tags
pub mod Waiting
use nx_cache.Common.{
  codes, ℕ, ◌-◌, ◌+◌, ◌/◌, ◌*◌, ◌^◌, ◌%◌, ◌<◌, ap, Bool, true, false, not, ◌&&◌, ◌||◌, Option, none,
  some, List, [], ◌∷◌, ◌++◌, ltb, ◌==◌, if◌then◌else◌, length, filter, Text, text_eq, is_empty,
  trim_prefix, trim_space, split, format, Time, second,
}

pub record State : Type 0 where
  pub version : ℕ
  pub last_modified : Time
  pub etag : Text

-- A channel of `subscribers`, with room for one signal, and the state that its request has seen.
pub record Waiter : Type 0 where
  pub channel : ℕ
  pub signalled : Bool
  pub seen : State

-- `version` is a uint64.
pub record Hub : Type 0 where
  pub version : ℕ
  pub updated_at : Time
  pub subscribers : List Waiter
  pub closed : Bool

-- t.UTC().Truncate(time.Second)
abbrev pub truncate_second : Time → Time
truncate_second t = t - t % second

unfoldable pub new_hub : Time → Hub
new_hub now = record {
  version = 1;
  updated_at = truncate_second now;
  subscribers = [];
  closed = false;
}

-- select { case ch <- struct{}{}: default: }, for every subscriber
unfoldable pub signal_all : List Waiter → List Waiter
signal_all [] = []
signal_all (w ∷ ws) = record w { signalled = true } ∷ signal_all ws

unfoldable pub notify : Time → Hub → Hub
unfolding signal_all
notify t h =
    if h.closed
    then h
    else let now = truncate_second t in
      record h {
        version = (h.version + 1) % 2 ^ 64;
        updated_at = (if ltb h.updated_at now then now else h.updated_at);
        subscribers = signal_all h.subscribers;
      }

-- 1970-01-01T00:00:00Z in seconds of the year 1
abbrev pub unix_epoch : ℕ
unix_epoch = 62_135_596_800

-- t.Unix(), of a time from 1970 on
abbrev pub unix : Time → ℕ
unix t = t / second - unix_epoch

-- fmt.Sprintf(`"%d-%d"`, version, seconds)
unfoldable pub etag_of : ℕ → ℕ → Text
etag_of version seconds = b'"' ∷ ((format version ++ b'-' ∷ format seconds) ++ b'"' ∷ [])

unfoldable pub snapshot : Hub → State
snapshot h = record {
  version = h.version;
  last_modified = h.updated_at;
  etag = etag_of h.version (unix h.updated_at);
}

abbrev pub weak_prefix : Text
weak_prefix = b'W' ∷ b'/' ∷ []

-- The loop over the comma-separated parts.
unfoldable pub some_part_is : Text → List Text → Bool
some_part_is tag [] = false
some_part_is tag (p ∷ ps) =
    text_eq (trim_prefix (trim_space p) weak_prefix) tag || some_part_is tag ps

unfoldable pub etag_matches : Text → Text → Bool
unfolding some_part_is
etag_matches client_header server_etag =
    let header = trim_space client_header in
    if text_eq header (b'*' ∷ [])
    then true
    else some_part_is (trim_prefix (trim_space server_etag) weak_prefix) (split b',' header)

-- The headers If-None-Match and If-Modified-Since, empty where they are missing.
pub record Conditions : Type 0 where
  pub none_match : Text
  pub modified_since : Text

-- !state.LastModified.After(t)
unfoldable pub not_after : Time → Option Time → Bool
not_after last_modified none = false
not_after last_modified (some t) = not (ltb t last_modified)

unfoldable pub is_fresh : (Text → Option Time) → Conditions → State → Bool
unfolding not_after
is_fresh parse_time r state =
    if is_empty r.none_match && is_empty r.modified_since
    then false
    else if not (is_empty r.none_match)
    then etag_matches r.none_match state.etag
    else not_after state.last_modified (parse_time r.modified_since)

-- WaitOrModified up to its `select`: an answer at once, or a subscription to a new channel.
unfoldable pub begin_wait : (Text → Option Time) → Conditions → ℕ → Hub → Option State × Hub
begin_wait parse_time r channel h =
    let state = snapshot h in
    if not (is_fresh parse_time r state) then (some state, h) else (
      none,
      record h {
        subscribers = record { channel = channel; signalled = false; seen = state } ∷ h.subscribers;
      },
    )

-- The time to wait: the timeout, or what the request's deadline leaves less 100 ms.
unfoldable pub effective_timeout : ℕ → Option ℕ → ℕ
effective_timeout timeout none = timeout
effective_timeout timeout (some until_deadline) =
    let remaining = until_deadline - 100_000_000 in
    if ltb 0 remaining && ltb remaining timeout then remaining else timeout

-- delete(h.subscribers, ch)
unfoldable pub unsubscribe : ℕ → Hub → Hub
unsubscribe channel h = record h {
  subscribers = filter (λ w. not (w.channel == channel)) h.subscribers;
}

-- The arms of the `select`: a signal, the timer, the end of the request.
pub data Arm : Type 0 where
  signal timer context_done : Arm

-- The answer of WaitOrModified, as the state with whether it is modified, or the context's error.
pub data Answer : Type 0 where
  answer : Bool → State → Answer
  cancelled : State → Answer

unfoldable pub arm_answer : Arm → Waiter → Hub → Answer
unfolding snapshot
arm_answer signal w h = answer true (snapshot h)
arm_answer timer w h = answer false w.seen
arm_answer context_done w h = cancelled w.seen

unfoldable pub close : Hub → Hub
unfolding signal_all
close h = if h.closed then h else record h { closed = true; subscribers = signal_all h.subscribers }

unfoldable pub subscriber_count : Hub → ℕ
subscriber_count h = length h.subscribers

-- SetCacheHeaders; `http_time` is the format http.TimeFormat.
unfoldable pub set_cache_headers : (http_time : Time → Text) → State → List (Text × Text)
set_cache_headers http_time st =
    (codes "Cache-Control", codes "no-cache")
    ∷ (codes "ETag", st.etag)
    ∷ (codes "Last-Modified", http_time st.last_modified)
    ∷ []
