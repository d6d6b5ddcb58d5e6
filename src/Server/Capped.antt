-- ===== src/Server/Capped.antt =====
-- internal/httpserver/access.go: no address saves up more than the burst.
use nx_cache.Common.{
  ◌≡◌, refl, inl, inr, false, Option, none, some, [], ◌∷◌, ltb, arith, Bool-cases, ◌-◌, ◌*◌, length,
  second, All, Text, text_eq, Assoc, lookup, insert, Time,
}
use nx_cache.Server.RateLimit.{
  Floats, IpBucket, Limiter, bucket_or, refill, drop_stale, collect, take_token, allow_ip,
}

module _ (fl : Floats) where
  -- What the limiter relies on of its numbers: none is less than itself, and taking one away from a
  -- number that is at most the burst leaves it so.
  pub record FloatLaws : Type 0 where
    pub less_irrefl : (x : fl.F) → fl.less x x ≡ false
    pub less-minus : (x y : fl.F) → fl.less x y ≡ false → fl.less x (fl.minus y fl.one) ≡ false

  abbrev pub Within : fl.F → IpBucket fl → Type 0
  Within burst b = fl.less burst b.tokens ≡ false

  abbrev pub IsCapped : Limiter fl → Type 0
  IsCapped l = All (λ (e : Text × IpBucket fl). Within l.burst e.1) l.by_ip

  insert-All :
      (burst : fl.F) (ip : Text) (b : IpBucket fl) (m : Assoc (IpBucket fl))
      → Within burst b
      → All (λ (e : Text × IpBucket fl). Within burst e.1) m
      → All (λ (e : Text × IpBucket fl). Within burst e.1) (insert ip b m)
  unfolding insert
  insert-All burst ip b [] w h = (w, tt)
  insert-All burst ip b ((j, c) ∷ m) w h = elim (Bool-cases (text_eq j ip)) [
    | inl same ↦ rw same (w, h.1)
    | inr other ↦ rw other (h.0, insert-All burst ip b m w h.1)
  ]

  lookup-All :
      (burst : fl.F) (ip : Text) (b : IpBucket fl) (m : Assoc (IpBucket fl))
      → All (λ (e : Text × IpBucket fl). Within burst e.1) m
      → lookup ip m ≡ some b
      → Within burst b
  unfolding lookup
  lookup-All burst ip b [] h = λ q. ground arith
  lookup-All burst ip b ((j, c) ∷ m) h = elim (Bool-cases (text_eq j ip)) [
    | inl same ↦ rw same (λ q. let one : c ≡ b = cc in rw (← one) h.0)
    | inr other ↦ rw other (λ q. lookup-All burst ip b m h.1 q)
  ]

  drop_stale-All :
      (burst : fl.F) (now : Time) (m : Assoc (IpBucket fl))
      → All (λ (e : Text × IpBucket fl). Within burst e.1) m
      → All (λ (e : Text × IpBucket fl). Within burst e.1) (drop_stale fl now m)
  unfolding drop_stale
  drop_stale-All burst now [] h = tt
  drop_stale-All burst now ((j, c) ∷ m) h = elim (Bool-cases (ltb (120 * second) (now - c.last))) [
    | inl old ↦ rw old (drop_stale-All burst now m h.1)
    | inr fresh ↦ rw fresh (h.0, drop_stale-All burst now m h.1)
  ]

  pub bucket_or-Within :
      (l : Limiter fl) (now : Time) (ip : Text) (o : Option (IpBucket fl))
      → FloatLaws
      → IsCapped l
      → lookup ip l.by_ip ≡ o
      → Within l.burst (bucket_or fl l now o)
  bucket_or-Within l now ip none laws h q = laws.less_irrefl l.burst
  bucket_or-Within l now ip (some b) laws h q = lookup-All l.burst ip b l.by_ip h q

  pub refill-Within :
      (l : Limiter fl) (now : Time) (b : IpBucket fl)
      → FloatLaws
      → Within l.burst b
      → Within l.burst (refill fl l now b)
  unfolding refill
  refill-Within l now b laws w = elim (Bool-cases (ltb b.last now)) [
    | inr early ↦ rw early w
    | inl later ↦
        let filled = fl.plus b.tokens (fl.times (fl.seconds (now - b.last)) l.rps) in
        rw later (elim (Bool-cases (fl.less l.burst filled)) [
          | inl over ↦ rw over (laws.less_irrefl l.burst)
          | inr under ↦ rw under under
        ])
  ]

  take_token-Within :
      (burst : fl.F) (b : IpBucket fl)
      → FloatLaws
      → Within burst b
      → Within burst (take_token fl b).1
  unfolding take_token
  take_token-Within burst b laws w = elim (Bool-cases (fl.less b.tokens fl.one)) [
    | inl empty ↦ rw empty w
    | inr some_left ↦ rw some_left (laws.less-minus burst b.tokens w)
  ]

  collect-IsCapped : (now : Time) (l : Limiter fl) → IsCapped l → IsCapped (collect fl now l)
  unfolding collect
  collect-IsCapped now l h = elim (Bool-cases (ltb 10_000 (length l.by_ip))) [
    | inl full ↦ rw full (drop_stale-All l.burst now l.by_ip h)
    | inr room ↦ rw room h
  ]

  -- Whatever a request of an address is answered, afterwards no address has more tokens than the
  -- burst, if none had before, no number is less than itself, and to take one from a number that is
  -- not above the burst leaves one that is not.
  pub allow_ip-IsCapped :
      (now : Time) (ip : Text) (l : Limiter fl)
      → FloatLaws
      → IsCapped l
      → IsCapped (allow_ip fl now ip l).1
  unfolding allow_ip
  allow_ip-IsCapped now ip l laws h =
      let b = refill fl l now (bucket_or fl l now (lookup ip l.by_ip)) in
      let w = take_token-Within l.burst b laws (
        refill-Within l now (bucket_or fl l now (lookup ip l.by_ip)) laws
          (bucket_or-Within l now ip (lookup ip l.by_ip) laws h refl)) in
      collect-IsCapped now (record l { by_ip = insert ip (take_token fl b).1 l.by_ip })
        (insert-All l.burst ip (take_token fl b).1 l.by_ip w h)
