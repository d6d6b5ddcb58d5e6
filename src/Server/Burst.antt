-- ===== src/Server/Burst.antt =====
-- internal/httpserver/access.go: how many requests of an address are let in at one time.
use nx_cache.Common.{
  refl, ap, ◌∙◌, subst, sym, lookup-insert, text_eq_refl, ℕ, zero, suc, ◌+◌, ◌-◌, ◌≤◌, inl, inr,
  ltb, Bool-cases, ◌≡◌, false, Option, none, some, [], ◌∷◌, arith, if◌then◌else◌, Text, text_eq_iff,
  Assoc, lookup, Time,
}
use nx_cache.Server.RateLimit.{
  Floats, IpBucket, Limiter, bucket_or, refill, drop_stale, collect, take_token, allow_ip,
}
use nx_cache.Server.Capped.{FloatLaws, IsCapped, refill-Within, bucket_or-Within}

module _ (fl : Floats) where
  -- What holds of the floats that count tokens, those from 0 to 2 ^ 53, and of the rates, which are
  -- finite and above 0. `count` is the whole tokens of a number: one that is taken is gone, since a
  -- float of that range has one less exactly, and a number not above another has no more. Not a
  -- number and the infinities are none of them.
  pub record CountLaws : Type 1 where
    pub IsCount : fl.F → Type 0
    pub IsRate : fl.F → Type 0
    pub count : fl.F → ℕ
    pub minus_IsCount :
        (x : fl.F) → IsCount x → fl.less x fl.one ≡ false → IsCount (fl.minus x fl.one)
    pub refilled_IsCount :
        (burst rate x : fl.F) (elapsed : ℕ)
        → IsCount burst
        → IsRate rate
        → IsCount x
        → fl.less burst (fl.plus x (fl.times (fl.seconds elapsed) rate)) ≡ false
        → IsCount (fl.plus x (fl.times (fl.seconds elapsed) rate))
    pub count-minus :
        (x : fl.F) → IsCount x → fl.less x fl.one ≡ false → count (fl.minus x fl.one) + 1 ≤ count x
    pub count_mono : (x y : fl.F) → IsCount x → IsCount y → fl.less x y ≡ false → count y ≤ count x

  -- `n` requests of one address at one time: how many are let in, and the limiter behind them.
  unfoldable pub allow_times : ℕ → Time → Text → Limiter fl → ℕ × Limiter fl
  unfolding allow_ip
  allow_times zero now ip l = (0, l)
  allow_times (suc n) now ip l =
      let (granted, l') = allow_ip fl now ip l in
      let (more, l'') = allow_times n now ip l' in ((if granted then 1 else 0) + more, l'')

  -- The bucket that a request meets.
  abbrev bucket_at : Time → Text → Limiter fl → IpBucket fl
  bucket_at now ip l = refill fl l now (bucket_or fl l now (lookup ip l.by_ip))

  -- The address was not seen later than now.
  abbrev pub NotAhead : Time → Option (IpBucket fl) → Type 0
  NotAhead now none = Unit
  NotAhead now (some b) = b.last ≤ now

  refill_last :
      (l : Limiter fl) (now : Time) (b : IpBucket fl)
      → b.last ≤ now
      → (refill fl l now b).last ≡ now
  unfolding refill
  refill_last l now b h = ground arith

  refill_now :
      (l : Limiter fl) (now : Time) (b : IpBucket fl) → b.last ≡ now → refill fl l now b ≡ b
  unfolding refill
  refill_now l now b h = ground arith

  bucket_at-last :
      (now : Time) (l : Limiter fl) (known : Option (IpBucket fl))
      → NotAhead now known
      → (refill fl l now (bucket_or fl l now known)).last ≡ now
  bucket_at-last now l none h = refill_last l now _ (omega arith)
  bucket_at-last now l (some b) h = refill_last l now b h

  last-take_token : (b : IpBucket fl) → (take_token fl b).1.last ≡ b.last
  unfolding take_token
  last-take_token b = ground arith

  lookup-drop_stale :
      (now : Time) (ip : Text) (b : IpBucket fl) (m : Assoc (IpBucket fl))
      → b.last ≡ now
      → lookup ip m ≡ some b
      → lookup ip (drop_stale fl now m) ≡ some b
  unfolding lookup drop_stale
  lookup-drop_stale now ip b [] h p = absurd (cc)
  lookup-drop_stale now ip b ((j, c) ∷ m) h p =
      ground (arith, lookup-drop_stale now ip b m h, text_eq_iff j ip)

  lookup-collect :
      (now : Time) (ip : Text) (b : IpBucket fl) (l : Limiter fl)
      → b.last ≡ now
      → lookup ip l.by_ip ≡ some b
      → lookup ip (collect fl now l).by_ip ≡ some b
  unfolding collect
  lookup-collect now ip b l h p = ground (arith, lookup-drop_stale now ip b l.by_ip h p)

  lookup-allow_ip :
      (now : Time) (ip : Text) (l : Limiter fl)
      → NotAhead now (lookup ip l.by_ip)
      → lookup ip (allow_ip fl now ip l).1.by_ip ≡ some (take_token fl (bucket_at now ip l)).1
  unfolding allow_ip
  lookup-allow_ip now ip l h =
      lookup-collect now ip _ _
        (last-take_token (bucket_at now ip l) ∙ bucket_at-last now l (lookup ip l.by_ip) h)
        (lookup-insert ip ip _ l.by_ip ∙ rw text_eq_refl refl)

  module _ (laws : CountLaws) where
    -- The tokens that an address has are a count.
    abbrev pub KnownCounts : Option (IpBucket fl) → Type 0
    KnownCounts none = Unit
    KnownCounts (some b) = laws.IsCount b.tokens

    -- The burst and the tokens of the address are counts, the rate is a rate, and the address was not
    -- seen later than now.
    pub record Counts (now : Time) (ip : Text) (l : Limiter fl) : Type 0 where
      pub burst : laws.IsCount l.burst
      pub rate : laws.IsRate l.rps
      pub known : KnownCounts (lookup ip l.by_ip)
      pub not_ahead : NotAhead now (lookup ip l.by_ip)

    refill-IsCount :
        (l : Limiter fl) (now : Time) (b : IpBucket fl)
        → laws.IsCount l.burst
        → laws.IsRate l.rps
        → laws.IsCount b.tokens
        → laws.IsCount (refill fl l now b).tokens
    unfolding refill
    refill-IsCount l now b burst rate h = elim (Bool-cases (ltb b.last now)) [
      | inr early ↦ rw early h
      | inl later ↦
          let filled = fl.plus b.tokens (fl.times (fl.seconds (now - b.last)) l.rps) in
          rw later (elim (Bool-cases (fl.less l.burst filled)) [
            | inl over ↦ rw over burst
            | inr under ↦
                rw under
                  (laws.refilled_IsCount l.burst l.rps b.tokens (now - b.last) burst rate h under)
          ])
    ]

    bucket_or-IsCount :
        (l : Limiter fl) (now : Time) (o : Option (IpBucket fl))
        → laws.IsCount l.burst
        → KnownCounts o
        → laws.IsCount (bucket_or fl l now o).tokens
    bucket_or-IsCount l now none burst h = burst
    bucket_or-IsCount l now (some b) burst h = h

    bucket_at-IsCount :
        (now : Time) (ip : Text) (l : Limiter fl)
        → Counts now ip l
        → laws.IsCount (bucket_at now ip l).tokens
    bucket_at-IsCount now ip l h =
        refill-IsCount l now (bucket_or fl l now (lookup ip l.by_ip)) h.burst h.rate
          (bucket_or-IsCount l now (lookup ip l.by_ip) h.burst h.known)

    take_token-IsCount :
        (b : IpBucket fl) → laws.IsCount b.tokens → laws.IsCount (take_token fl b).1.tokens
    unfolding take_token
    take_token-IsCount b h = elim (Bool-cases (fl.less b.tokens fl.one)) [
      | inl empty ↦ rw empty h
      | inr some_left ↦ rw some_left (laws.minus_IsCount b.tokens h some_left)
    ]

    take_token-count :
        (b : IpBucket fl)
        → laws.IsCount b.tokens
        → (if (take_token fl b).0 then 1 else 0) + laws.count (take_token fl b).1.tokens
          ≤ laws.count b.tokens
    unfolding take_token
    take_token-count b h = ground (arith, laws.count-minus b.tokens h)

    -- The next request meets the bucket that the last one has left.
    bucket_at-next :
        (now : Time) (ip : Text) (l : Limiter fl)
        → NotAhead now (lookup ip l.by_ip)
        → bucket_at now ip (allow_ip fl now ip l).1 ≡ (take_token fl (bucket_at now ip l)).1
    bucket_at-next now ip l h =
        ap
          (λ o.
            refill fl (allow_ip fl now ip l).1 now (bucket_or fl (allow_ip fl now ip l).1 now o))
          (lookup-allow_ip now ip l h)
        ∙ refill_now (allow_ip fl now ip l).1 now (take_token fl (bucket_at now ip l)).1
            (last-take_token (bucket_at now ip l) ∙ bucket_at-last now l (lookup ip l.by_ip) h)

    rates-allow_ip :
        (now : Time) (ip : Text) (l : Limiter fl)
        → ((allow_ip fl now ip l).1.burst ≡ l.burst) × ((allow_ip fl now ip l).1.rps ≡ l.rps)
    unfolding allow_ip collect
    rates-allow_ip now ip l = ground arith

    next-Counts :
        (now : Time) (ip : Text) (l : Limiter fl)
        → Counts now ip l
        → Counts now ip (allow_ip fl now ip l).1
    next-Counts now ip l h =
        let left = sym (lookup-allow_ip now ip l h.not_ahead) in
        record {
          burst = subst laws.IsCount (sym (rates-allow_ip now ip l).0) h.burst;
          rate = subst laws.IsRate (sym (rates-allow_ip now ip l).1) h.rate;
          known =
              subst KnownCounts left
                (take_token-IsCount (bucket_at now ip l) (bucket_at-IsCount now ip l h));
          not_ahead = subst (NotAhead now) left (
              omega (
                arith,
                last-take_token (bucket_at now ip l)
                    ∙ bucket_at-last now l (lookup ip l.by_ip) h.not_ahead,
              ));
        }

    allow_times-count :
        (n : ℕ) (now : Time) (ip : Text) (l : Limiter fl)
        → Counts now ip l
        → (allow_times n now ip l).0 ≤ laws.count (bucket_at now ip l).tokens
    unfolding allow_times
    allow_times-count zero now ip l h = omega arith
    allow_times-count (suc n) now ip l h =
        let rest =
          subst (λ b. (allow_times n now ip (allow_ip fl now ip l).1).0 ≤ laws.count b.tokens)
            (bucket_at-next now ip l h.not_ahead)
            (allow_times-count n now ip (allow_ip fl now ip l).1 (next-Counts now ip l h)) in
        unfold allow_ip in
        omega (arith, rest, take_token-count (bucket_at now ip l) (bucket_at-IsCount now ip l h))

    -- However many requests of an address come at one time, as many are let in as the burst has whole
    -- tokens, at most, if no address has more tokens than the burst and this one was not seen at a
    -- later time, whatever was let in before, where the rate is finite and the tokens are counts.
    pub allow_times-burst :
        (n : ℕ) (now : Time) (ip : Text) (l : Limiter fl)
        → FloatLaws fl
        → IsCapped fl l
        → Counts now ip l
        → (allow_times n now ip l).0 ≤ laws.count l.burst
    allow_times-burst n now ip l float_laws capped h = omega (
      arith,
      allow_times-count n now ip l h,
      laws.count_mono l.burst (bucket_at now ip l).tokens h.burst (bucket_at-IsCount now ip l h) (
          refill-Within fl l now _ float_laws
            (bucket_or-Within fl l now ip (lookup ip l.by_ip) float_laws capped refl)),
    )
