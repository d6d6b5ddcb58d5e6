-- ===== src/Tests/Waiting.antt =====
-- internal/longpoll/longpoll.go: one request that waits.
use nx_cache.Common.{
  ◌≡◌, refl, ◌≤◌, ◌++◌, arith, text_eq, trim_space, Text, Time, [], ◌∷◌, codes, length, All, true,
  false, Option, none,
}
use nx_cache.LongPoll.{
  new_hub, notify, snapshot, is_fresh, etag_matches, begin_wait, arm_answer, timer, answer, Hub,
  Waiter, Conditions,
}
use nx_cache.LongPoll.Tags.{with_tag}
use nx_cache.LongPoll.Waiting.{Reach, here, next, arrived, timer_answer_current, notify_wakes}

-- A parser that reads no date.
abbrev no_date : Text → Option Time
no_date s = none

abbrev hub : Hub
hub = new_hub 0

abbrev request : Conditions
request = record { none_match = codes "*"; modified_since = [] }

abbrev waiter : Waiter
waiter = record { channel = 4; signalled = false; seen = snapshot hub }

abbrev waiting : Hub
waiting = (begin_wait no_date request 4 hub).1

reach : Reach no_date hub waiting
unfolding new_hub
reach = next here (arrived hub request 4 refl)

subscribed : waiting.subscribers ≡ [] ++ waiter ∷ []
unfolding begin_wait is_fresh etag_matches text_eq trim_space new_hub
subscribed = refl

timer_answer_current_example : arm_answer timer waiter waiting ≡ answer false (snapshot waiting)
timer_answer_current_example =
    timer_answer_current no_date 0 waiting waiter [] [] reach subscribed refl

notify_wakes_example :
    All (λ w. w.signalled ≡ true) (notify 5 waiting).subscribers
    × (length (notify 5 waiting).subscribers ≡ length waiting.subscribers)
    × (is_fresh no_date (with_tag (snapshot waiting).etag []) (snapshot (notify 5 waiting)) ≡ false)
    × (waiting.updated_at ≤ (notify 5 waiting).updated_at)
unfolding new_hub begin_wait is_fresh etag_matches text_eq trim_space
notify_wakes_example = notify_wakes no_date waiting 5 [] refl (omega arith)
