-- ===== src/LoginGate.antt =====
-- internal/httpserver/login.go: the gate that locks an address out after failed logins. Each reading
-- of the clock is an argument; a nil gate, which allows all, is not modelled. The map is walked in
-- the order of its association list, where Go leaves the order open.
pub mod Locking
pub mod Bounded
use nx_cache.Common.{
  suc, zero, ℕ, ◌-◌, ◌+◌, ◌/◌, ◌*◌, max, ap, Bool, true, not, ◌&&◌, Option, none, some, [], ◌∷◌,
  map, ltb, leb, if◌then◌else◌, length, drop, Text, Assoc, lookup, insert, remove, Int64, natural,
  negative, Time, second,
}

pub record Attempt : Type 0 where
  pub fails : ℕ
  pub until : Time
  pub seen : Time

pub record Gate : Type 0 where
  pub by_ip : Assoc Attempt
  pub max_fails : ℕ
  pub lock_for : ℕ
  pub max_map : ℕ

abbrev pub gate_max_map : ℕ
gate_max_map = 10_000

-- The value, or another if it is not positive.
abbrev pub positive_or : ℕ → Int64 → ℕ
positive_or fallback (natural n) = if ltb 0 n then n else fallback
positive_or fallback (negative n) = fallback

unfoldable pub new_login_gate : Int64 → Int64 → Gate
new_login_gate max_fails lock_for = record {
  by_ip = [];
  max_fails = positive_or 5 max_fails;
  lock_for = positive_or (30 * second) lock_for;
  max_map = gate_max_map;
}

-- `until` and `seen` are the zero time.
abbrev pub no_attempt : Attempt
no_attempt = record { fails = 0; until = 0; seen = 0 }

unfoldable pub allow_attempt : Time → Text → Option Attempt → Gate → Bool × Gate
allow_attempt now ip none g = (true, g)
allow_attempt now ip (some st) g = (
  if ltb st.until now then true else ltb st.fails g.max_fails,
  record g { by_ip = insert ip (record st { seen = now }) g.by_ip },
)

unfoldable pub allow : Time → Text → Gate → Bool × Gate
unfolding allow_attempt
allow now ip g = allow_attempt now ip (lookup ip g.by_ip) g

unfoldable pub success : Text → Gate → Gate
success ip g = record g { by_ip = remove ip g.by_ip }

-- now.After(st.until) && now.Sub(st.seen) > idle
abbrev pub is_idle : Time → ℕ → Attempt → Bool
is_idle now idle st = ltb st.until now && ltb idle (now - st.seen)

unfoldable pub drop_idle : Time → ℕ → Assoc Attempt → Assoc Attempt
drop_idle now idle [] = []
drop_idle now idle ((ip, st) ∷ m) =
    let rest = drop_idle now idle m in if is_idle now idle st then rest else (ip, st) ∷ rest

unfoldable pub gc_locked : Time → Gate → Gate
unfolding drop_idle
gc_locked now g =
    let idle = max g.lock_for (60 * second) in record g { by_ip = drop_idle now idle g.by_ip }

-- Deletes one address after the other until `keep` are left.
unfoldable pub drop_to : ℕ → Assoc Attempt → Assoc Attempt
drop_to keep [] = []
drop_to keep (e ∷ m) =
    let rest = drop_to keep m in if leb (length (e ∷ m)) keep then e ∷ m else rest

unfoldable pub drop_locked : ℕ → Gate → Gate
unfolding drop_to
drop_locked keep g = record g { by_ip = drop_to keep g.by_ip }

abbrev pub limit_of : Gate → ℕ
limit_of g = if ltb g.max_map 1 then gate_max_map else g.max_map

-- len(g.byIP) >= limit
abbrev pub is_full : Gate → Bool
is_full g = leb (limit_of g) (length g.by_ip)

unfoldable pub count_failure : Time → Gate → Attempt → Attempt
count_failure now g st =
    let before = if ltb st.until now && leb g.max_fails st.fails then 0 else st.fails in
    record {
      fails = before + 1;
      until = (if leb g.max_fails (before + 1) then now + g.lock_for else st.until);
      seen = now;
    }

-- The room that a new address needs.
unfoldable pub make_room : Time → Gate → Gate
unfolding gc_locked drop_locked
make_room now g =
    let collected = gc_locked now g in
    if is_full g
    then (if is_full collected then drop_locked (limit_of g / 2) collected else collected)
    else g

unfoldable pub fail_attempt : Time → Text → Option Attempt → Gate → Gate
unfolding count_failure make_room
fail_attempt now ip none g =
    let roomy = make_room now g in
    record roomy { by_ip = insert ip (count_failure now g no_attempt) roomy.by_ip }
fail_attempt now ip (some st) g = record g { by_ip = insert ip (count_failure now g st) g.by_ip }

unfoldable pub failure : Time → Text → Gate → Gate
unfolding gc_locked fail_attempt
failure now ip g =
    let g' = if is_full g then gc_locked now g else g in fail_attempt now ip (lookup ip g'.by_ip) g'
