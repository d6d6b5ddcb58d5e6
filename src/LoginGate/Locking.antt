-- ===== src/LoginGate/Locking.antt =====
-- internal/httpserver/login.go: when an address is locked out, and for how long.
use nx_cache.Common.{
  ◌+◌, ◌≡◌, refl, false, some, arith, ltb, Text, text_eq_refl, lookup, insert, lookup-insert, Time,
}
use nx_cache.LoginGate.{
  allow_attempt, allow, is_full, count_failure, fail_attempt, failure, Attempt, Gate,
}

count_failure-last :
    (now : Time) (g : Gate) (st : Attempt)
    → st.fails + 1 ≡ g.max_fails
    → ((count_failure now g st).fails ≡ g.max_fails)
      × ((count_failure now g st).until ≡ now + g.lock_for)
unfolding count_failure
count_failure-last now g st h = ground arith

failure_known :
    (now : Time) (ip : Text) (g : Gate) (st : Attempt)
    → is_full g ≡ false
    → lookup ip g.by_ip ≡ some st
    → failure now ip g ≡ record g { by_ip = insert ip (count_failure now g st) g.by_ip }
unfolding failure fail_attempt
failure_known now ip g st room p = rw (room, p) refl

-- The failure that makes an address reach the limit of failures locks it out for exactly the time
-- of the lock: a later login is allowed if and only if the lock's end has passed. The gate has room,
-- and knows the address.
pub allow-failure :
    (now t : Time) (ip : Text) (g : Gate) (st : Attempt)
    → is_full g ≡ false
    → lookup ip g.by_ip ≡ some st
    → st.fails + 1 ≡ g.max_fails
    → (allow t ip (failure now ip g)).0 ≡ ltb (now + g.lock_for) t
unfolding allow
allow-failure now t ip g st room p h =
    let (fails, until) = count_failure-last now g st h in
    rw
      (
        failure_known now ip g st room p,
        lookup-insert ip ip (count_failure now g st) g.by_ip,
        text_eq_refl ip,
      )
      (unfold allow_attempt in rw (fails, until) (ground arith))
