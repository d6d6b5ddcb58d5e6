-- ===== src/Server/RateLimit.antt =====
-- internal/httpserver/access.go: the rate limiter. A float64 is a parameter; each reading of the clock
-- is an argument. A nil limiter, which allows all, is `none`.
use nx_cache.Common.{
  ℕ, ◌-◌, ◌*◌, Bool, true, false, Option, none, some, [], ◌∷◌, ltb, if◌then◌else◌, length, Text,
  Assoc, lookup, insert, Int64, natural, negative, Time, second,
}

-- `less` and `at_most` are < and <=; `of_int` is float64 of an int, `truncate` int of a float64, and
-- `seconds` the Seconds of a duration that is not negative.
pub record Floats : Type 1 where
  pub F : Type 0
  pub zero_float : F
  pub one : F
  pub less : F → F → Bool
  pub at_most : F → F → Bool
  pub plus : F → F → F
  pub minus : F → F → F
  pub times : F → F → F
  pub of_int : Int64 → F
  pub truncate : F → Int64
  pub seconds : ℕ → F

module _ (fl : Floats) where
  pub record IpBucket : Type 0 where
    pub tokens : fl.F
    pub last : Time

  pub record Limiter : Type 0 where
    pub rps : fl.F
    pub burst : fl.F
    pub by_ip : Assoc IpBucket

  abbrev pub below_one : Int64 → Bool
  below_one (natural n) = ltb n 1
  below_one (negative n) = true

  unfoldable pub new_ip_limiter : fl.F → Int64 → Option Limiter
  new_ip_limiter rps burst =
      let whole = fl.truncate rps in
      let or_one = if below_one whole then natural 1 else whole in
      if fl.at_most rps fl.zero_float
      then none
      else some (record {
        rps = rps;
        burst = fl.of_int (if below_one burst then or_one else burst);
        by_ip = [];
      })

  abbrev pub bucket_or : Limiter → Time → Option IpBucket → IpBucket
  bucket_or l now none = record { tokens = l.burst; last = now }
  bucket_or l now (some b) = b

  -- The tokens that have come in since the last request, up to the burst.
  unfoldable pub refill : Limiter → Time → IpBucket → IpBucket
  refill l now b =
      let filled = fl.plus b.tokens (fl.times (fl.seconds (now - b.last)) l.rps) in
      if ltb b.last now
      then record { tokens = (if fl.less l.burst filled then l.burst else filled); last = now }
      else b

  unfoldable pub drop_stale : Time → Assoc IpBucket → Assoc IpBucket
  drop_stale now [] = []
  drop_stale now ((ip, b) ∷ m) =
      let rest = drop_stale now m in
      if ltb (120 * second) (now - b.last) then rest else (ip, b) ∷ rest

  unfoldable pub collect : Time → Limiter → Limiter
  unfolding drop_stale
  collect now l =
      if ltb 10_000 (length l.by_ip) then record l { by_ip = drop_stale now l.by_ip } else l

  -- What is left of the tokens, if there is one.
  unfoldable pub take_token : IpBucket → Bool × IpBucket
  take_token b =
      if fl.less b.tokens fl.one
      then (false, b)
      else (true, record b { tokens = fl.minus b.tokens fl.one })

  unfoldable pub allow_ip : Time → Text → Limiter → Bool × Limiter
  unfolding refill collect take_token
  allow_ip now ip l =
      let (granted, b) = take_token (refill l now (bucket_or l now (lookup ip l.by_ip))) in
      (granted, collect now (record l { by_ip = insert ip b l.by_ip }))

  unfoldable pub within_limit : Time → Text → Option Limiter → Bool × Option Limiter
  unfolding allow_ip
  within_limit now ip none = (true, none)
  within_limit now ip (some l) = let (granted, l') = allow_ip now ip l in (granted, some l')
