-- ===== src/LongPoll/Waiting.antt =====
-- internal/longpoll/longpoll.go: requests that wait, notifications and the end of both, in every
-- order in which `mu` lets them in.
use nx_cache.Common.{
  ℕ, suc, ◌+◌, ◌^◌, ◌%◌, ◌≤◌, ◌<◌, ◌≡◌, refl, sym, ap, subst, ◌⊎◌, inl, inr, Bool, true, false, not,
  Option, List, [], ◌∷◌, ◌++◌, arith, ltb, ◌==◌, if◌then◌else◌, Bool-cases, length, filter, any,
  All, Text, Time,
}
use nx_cache.LongPoll.Tags.{with_tag, is_fresh_iff_version}
use nx_cache.LongPoll.{
  truncate_second, new_hub, signal_all, notify, unix, snapshot, is_fresh, begin_wait, unsubscribe,
  arm_answer, close, State, Waiter, Hub, Conditions, Arm, signal, timer, answer,
}

-- Whether a channel is among the subscribers.
abbrev pub has_channel : ℕ → List Waiter → Bool
has_channel channel ws = any (λ w. w.channel == channel) ws

-- What a notification makes of a hub that is open.
abbrev notify_open : Time → Hub → Hub
notify_open t h = record h {
  version = (h.version + 1) % 2 ^ 64;
  updated_at = (if ltb h.updated_at (truncate_second t) then truncate_second t else h.updated_at);
  subscribers = signal_all h.subscribers;
}

notify-cases :
    (t : Time) (h : Hub)
    → ((h.closed ≡ true) × (notify t h ≡ h)) ⊎ ((h.closed ≡ false) × (notify t h ≡ notify_open t h))
unfolding notify
notify-cases t h = elim (Bool-cases h.closed) [
  | inl shut ↦ inl (shut, ground arith)
  | inr running ↦ inr (running, ground arith)
]

notify_running : (t : Time) (h : Hub) → h.closed ≡ false → notify t h ≡ notify_open t h
unfolding notify
notify_running t h running = ground arith

module _ (parse_time : Text → Option Time) where
  -- `make` returns a channel that is not in use. A request leaves when one arm of its `select` is
  -- taken: that of the signal only if its channel holds one.
  pub data Step : Hub → Hub → Type 0 where
    notified : (h : Hub) (t : Time) → Step h (notify t h)
    arrived :
        (h : Hub) (r : Conditions) (channel : ℕ)
        → has_channel channel h.subscribers ≡ false
        → Step h (begin_wait parse_time r channel h).1
    departed :
        (h : Hub) (w : Waiter) (arm : Arm)
        → has_channel w.channel h.subscribers ≡ true
        → (arm ≡ signal → w.signalled ≡ true)
        → Step h (unsubscribe w.channel h)
    closed : (h : Hub) → Step h (close h)

  pub data Reach (h : Hub) : Hub → Type 0 where
    here : Reach h h
    next : {g k : Hub} → Reach h g → Step g k → Reach h k

  -- A request whose channel is empty has seen the state that the hub has now.
  abbrev pub IsAwake : Hub → Type 0
  IsAwake h = All (λ w. w.signalled ≡ false → w.seen ≡ snapshot h) h.subscribers

  signal_all-awake :
      (ws : List Waiter) (state : State)
      → All (λ w. w.signalled ≡ false → w.seen ≡ state) (signal_all ws)
  unfolding signal_all
  signal_all-awake [] state = tt
  signal_all-awake (w ∷ ws) state = (λ no_signal. cc, signal_all-awake ws state)

  filter-All :
      (P : Waiter → Type 0) (test : Waiter → Bool) (ws : List Waiter)
      → All P ws
      → All P (filter test ws)
  filter-All P test [] h = tt
  filter-All P test (w ∷ ws) h = elim (Bool-cases (test w)) [
    | inl passed ↦ rw passed (h.0, filter-All P test ws h.1)
    | inr dropped ↦ rw dropped (filter-All P test ws h.1)
  ]

  notify-IsAwake : (t : Time) (h : Hub) → IsAwake h → IsAwake (notify t h)
  notify-IsAwake t h a = elim (notify-cases t h) [
    | inl (shut, e) ↦ subst IsAwake (sym e) a
    | inr (running, e) ↦
        subst IsAwake (sym e) (signal_all-awake h.subscribers (snapshot (notify_open t h)))
  ]

  begin_wait-IsAwake :
      (r : Conditions) (channel : ℕ) (h : Hub)
      → IsAwake h
      → IsAwake (begin_wait parse_time r channel h).1
  unfolding begin_wait snapshot
  begin_wait-IsAwake r channel h a = elim (Bool-cases (not (is_fresh parse_time r (snapshot h)))) [
    | inl stale ↦ rw stale a
    | inr fresh ↦ rw fresh (λ no_signal. refl, a)
  ]

  unsubscribe-IsAwake : (channel : ℕ) (h : Hub) → IsAwake h → IsAwake (unsubscribe channel h)
  unfolding unsubscribe snapshot
  unsubscribe-IsAwake channel h a =
      filter-All (λ w. w.signalled ≡ false → w.seen ≡ snapshot h) (λ w. not (w.channel == channel))
        h.subscribers a

  close-IsAwake : (h : Hub) → IsAwake h → IsAwake (close h)
  unfolding close snapshot
  close-IsAwake h a = elim (Bool-cases h.closed) [
    | inl shut ↦ rw shut a
    | inr running ↦ rw running (signal_all-awake h.subscribers _)
  ]

  step-IsAwake : {h k : Hub} → Step h k → IsAwake h → IsAwake k
  step-IsAwake (notified h t) a = notify-IsAwake t h a
  step-IsAwake (arrived h r channel new) a = begin_wait-IsAwake r channel h a
  step-IsAwake (departed h w arm there signalled) a = unsubscribe-IsAwake w.channel h a
  step-IsAwake (closed h) a = close-IsAwake h a

  -- No wake-up is lost: in every state that a new hub can reach, a standing request whose channel
  -- holds no signal has seen the hub's present state.
  pub Reach-IsAwake : (now : Time) (h : Hub) → Reach (new_hub now) h → IsAwake h
  unfolding new_hub
  Reach-IsAwake now h here = tt
  Reach-IsAwake now h (next reach step) = step-IsAwake step (Reach-IsAwake now _ reach)

All-middle :
    (P : Waiter → Type 0) (before after : List Waiter) (w : Waiter)
    → All P (before ++ w ∷ after)
    → P w
All-middle P [] after w h = h.0
All-middle P (x ∷ before) after w h = All-middle P before after w h.1

All-signalled : (ws : List Waiter) → All (λ w. w.signalled ≡ true) (signal_all ws)
unfolding signal_all
All-signalled [] = tt
All-signalled (w ∷ ws) = (refl, All-signalled ws)

length-signal_all : (ws : List Waiter) → length (signal_all ws) ≡ length ws
unfolding signal_all
length-signal_all [] = refl
length-signal_all (w ∷ ws) = ap suc (length-signal_all ws)

-- A timer that fires on a request with no signal pending answers "not modified" with the hub's
-- present state.
pub timer_answer_current :
    (parse_time : Text → Option Time) (now : Time) (h : Hub) (w : Waiter)
    (before after : List Waiter)
    → Reach parse_time (new_hub now) h
    → h.subscribers ≡ before ++ w ∷ after
    → w.signalled ≡ false
    → arm_answer timer w h ≡ answer false (snapshot h)
unfolding arm_answer
timer_answer_current parse_time now h w before after reach e quiet =
    let awake =
      subst (All (λ w. w.signalled ≡ false → w.seen ≡ snapshot h)) e
        (Reach-IsAwake parse_time now h reach) in
    ap (answer false)
      (All-middle (λ w. w.signalled ≡ false → w.seen ≡ snapshot h) before after w awake quiet)

-- A notification of an open hub whose version is a uint64 signals every standing request and keeps
-- them all, makes a request with the tag from before it stale, whatever its date, and never sets the
-- hub's time back.
pub notify_wakes :
    (parse_time : Text → Option Time) (h : Hub) (t : Time) (since : Text)
    → h.closed ≡ false
    → h.version < 2 ^ 64
    → All (λ w. w.signalled ≡ true) (notify t h).subscribers
      × (length (notify t h).subscribers ≡ length h.subscribers)
      × (is_fresh parse_time (with_tag (snapshot h).etag since) (snapshot (notify t h)) ≡ false)
      × (h.updated_at ≤ (notify t h).updated_at)
unfolding snapshot
notify_wakes parse_time h t since running small = rw (notify_running t h running) (
  All-signalled h.subscribers,
  length-signal_all h.subscribers,
  (is_fresh_iff_version parse_time (notify_open t h) h.version (unix h.updated_at) since
      (omega arith)).2,
  ground arith,
)
