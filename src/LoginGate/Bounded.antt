-- ===== src/LoginGate/Bounded.antt =====
-- internal/httpserver/login.go: the number of addresses that are kept.
use nx_cache.Common.{
  ℕ, ◌+◌, ◌/◌, ◌*◌, ◌≤◌, ◌<◌, max, ◌≡◌, refl, ◌∙◌, inl, inr, Option, none, some, List, [], ◌∷◌,
  arith, Bool-cases, length, Text, Assoc, lookup, length-remove-le, length-insert-le,
  length-insert_present, Int64, Time, second,
}
use nx_cache.LoginGate.{
  new_login_gate, no_attempt, allow_attempt, allow, success, drop_idle, gc_locked, drop_to,
  drop_locked, limit_of, is_full, count_failure, make_room, fail_attempt, failure, Attempt, Gate,
}

length-drop_idle :
    (now : Time) (idle : ℕ) (m : Assoc Attempt) → length (drop_idle now idle m) ≤ length m
unfolding drop_idle
length-drop_idle now idle [] = omega arith
length-drop_idle now idle ((ip, st) ∷ m) = ground (arith, length-drop_idle now idle m)

length-drop_to : (keep : ℕ) (m : Assoc Attempt) → length (drop_to keep m) ≤ keep
unfolding drop_to
length-drop_to keep [] = omega arith
length-drop_to keep (e ∷ m) = ground (arith, length-drop_to keep m)

limit_pos : (g : Gate) → 0 < limit_of g
limit_pos g = ground arith

make_room-room : (now : Time) (g : Gate) → length (make_room now g).by_ip + 1 ≤ limit_of g
unfolding make_room gc_locked drop_locked
make_room-room now g =
    let idle = max g.lock_for (60 * second) in
    ground (
      arith,
      limit_pos g,
      length-drop_to (limit_of g / 2) (drop_idle now idle g.by_ip),
      length-drop_idle now idle g.by_ip,
    )

make_room-max_map : (now : Time) (g : Gate) → (make_room now g).max_map ≡ g.max_map
unfolding make_room gc_locked drop_locked
make_room-max_map now g = ground arith

-- The gate keeps as many addresses as its limit allows, and the limit.
abbrev IsWithin : ℕ → Gate → Type 0
IsWithin n g = (g.max_map ≡ n) × (length g.by_ip ≤ limit_of g)

fail_attempt-IsWithin :
    (n : ℕ) (now : Time) (ip : Text) (g : Gate) (o : Option Attempt)
    → lookup ip g.by_ip ≡ o
    → IsWithin n g
    → IsWithin n (fail_attempt now ip o g)
unfolding fail_attempt
fail_attempt-IsWithin n now ip g none p (same, h) = (
  make_room-max_map now g ∙ same,
  rw make_room-max_map (
      omega (
        arith,
        make_room-room now g,
        length-insert-le ip (count_failure now g no_attempt) (make_room now g).by_ip,
      )),
)
fail_attempt-IsWithin n now ip g (some st) p (same, h) =
    (same, rw (length-insert_present ip (count_failure now g st) st g.by_ip p) h)

gc_locked-IsWithin : (n : ℕ) (now : Time) (g : Gate) → IsWithin n g → IsWithin n (gc_locked now g)
unfolding gc_locked
gc_locked-IsWithin n now g (same, h) =
    (same, omega (arith, h, length-drop_idle now (max g.lock_for (60 * second)) g.by_ip))

failure-IsWithin :
    (n : ℕ) (now : Time) (ip : Text) (g : Gate) → IsWithin n g → IsWithin n (failure now ip g)
unfolding failure
failure-IsWithin n now ip g h = elim (Bool-cases (is_full g)) [
  | inl full ↦
      rw full
        (fail_attempt-IsWithin n now ip (gc_locked now g) _ refl (gc_locked-IsWithin n now g h))
  | inr room ↦ rw room (fail_attempt-IsWithin n now ip g _ refl h)
]

allow_attempt-IsWithin :
    (n : ℕ) (now : Time) (ip : Text) (g : Gate) (o : Option Attempt)
    → lookup ip g.by_ip ≡ o
    → IsWithin n g
    → IsWithin n (allow_attempt now ip o g).1
unfolding allow_attempt
allow_attempt-IsWithin n now ip g none p h = h
allow_attempt-IsWithin n now ip g (some st) p (same, h) =
    (same, rw (length-insert_present ip (record st { seen = now }) st g.by_ip p) h)

-- What the handler of a login asks of the gate.
pub data Call : Type 0 where
  asked failed : Time → Text → Call
  succeeded : Text → Call

abbrev pub called : Call → Gate → Gate
called (asked now ip) g = (allow now ip g).1
called (failed now ip) g = failure now ip g
called (succeeded ip) g = success ip g

abbrev pub run_calls : List Call → Gate → Gate
run_calls [] g = g
run_calls (c ∷ cs) g = run_calls cs (called c g)

called-IsWithin : (n : ℕ) (c : Call) (g : Gate) → IsWithin n g → IsWithin n (called c g)
unfolding allow success
called-IsWithin n (asked now ip) g h = allow_attempt-IsWithin n now ip g _ refl h
called-IsWithin n (failed now ip) g h = failure-IsWithin n now ip g h
called-IsWithin n (succeeded ip) g (same, h) = (same, omega (arith, h, length-remove-le ip g.by_ip))

run_calls-IsWithin :
    (n : ℕ) (cs : List Call) (g : Gate) → IsWithin n g → IsWithin n (run_calls cs g)
run_calls-IsWithin n [] g h = h
run_calls-IsWithin n (c ∷ cs) g h = run_calls-IsWithin n cs (called c g) (called-IsWithin n c g h)

-- However logins are asked for, fail and succeed, at whatever times and from whatever addresses: a
-- gate that is made anew never keeps more than 10,000 addresses.
pub length-run_calls :
    (max_fails lock_for : Int64) (cs : List Call)
    → length (run_calls cs (new_login_gate max_fails lock_for)).by_ip ≤ 10_000
unfolding new_login_gate
length-run_calls max_fails lock_for cs =
    let within =
      run_calls-IsWithin 10_000 cs (new_login_gate max_fails lock_for) (refl, omega arith) in
    ground (arith, within.0, within.1)
