-- ===== src/ClientIp/Forwarded.antt =====
-- internal/httpserver/clientip.go: what a client that writes its own X-Forwarded-For can change.
use nx_cache.Common.{
  ℕ, ◌≡◌, refl, sym, ap, ◌∙◌, ◌≢◌, inl, inr, Bool, true, false, false≢true, none, some, List, [],
  ◌∷◌, ◌++◌, append_assoc, arith, ◌==◌, Bool-cases, Option-cases, Text, is_empty, extend_first,
  split,
}
use nx_cache.ClientIp.{
  or_remote, first_of, untrusted_or_first, ip_allowed, remote_ip, hops_of, forwarded_hops,
  forwarded_chain, first_untrusted, client_ip, Addresses, Request,
}

extend_first-append :
    (c : ℕ) (ps qs : List Text) → ps ≢ [] → extend_first c (ps ++ qs) ≡ extend_first c ps ++ qs
unfolding extend_first
extend_first-append c [] qs h = absurd (h refl)
extend_first-append c (p ∷ ps) qs h = refl

split_ne : (sep : ℕ) (s : Text) → split sep s ≢ []
unfolding split extend_first
split_ne sep [] = λ e. cc
split_ne sep (c ∷ s) = elim (Bool-cases (c == sep)) [
  | inl here ↦ rw here (λ e. cc)
  | inr more ↦ rw more (extend_first_ne c (split sep s))
]
  where
    extend_first_ne : (c : ℕ) (ps : List Text) → extend_first c ps ≢ []
    extend_first_ne c [] = λ e. cc
    extend_first_ne c (p ∷ ps) = λ e. cc

split-append : (sep : ℕ) (s t : Text) → split sep (s ++ sep ∷ t) ≡ split sep s ++ split sep t
unfolding split
split-append sep [] t = ground arith
split-append sep (c ∷ s) t = elim (Bool-cases (c == sep)) [
  | inl here ↦ rw here (ap (λ l. [] ∷ l) (split-append sep s t))
  | inr more ↦
      rw (more, split-append sep s t)
        (extend_first-append c (split sep s) (split sep t) (split_ne sep s))
]

not_empty : (s : Text) (c : ℕ) (t : Text) → is_empty (s ++ c ∷ t) ≡ false
not_empty [] c t = refl
not_empty (d ∷ s) c t = refl

module _ {N : Type 0} (addresses : Addresses N) where
  hops_of-append :
      (ps qs : List Text)
      → hops_of addresses (ps ++ qs) ≡ hops_of addresses ps ++ hops_of addresses qs
  unfolding hops_of
  hops_of-append [] qs = refl
  hops_of-append (p ∷ ps) qs = ground (arith, hops_of-append ps qs)

  -- A hop that is not trusted is found whatever stands to its left.
  first_untrusted-append :
      (trusted : List N) (hs later : List Text) (ip : Text)
      → first_untrusted addresses trusted later ≡ some ip
      → first_untrusted addresses trusted (hs ++ later) ≡ some ip
  unfolding first_untrusted
  first_untrusted-append trusted [] later ip h = h
  first_untrusted-append trusted (x ∷ hs) later ip h =
      rw (first_untrusted-append trusted hs later ip h) refl

  first_of-allowed :
      (trusted : List N) (hs : List Text) (peer : Text)
      → first_untrusted addresses trusted (hs ++ peer ∷ []) ≡ none
      → ip_allowed addresses trusted (first_of (hs ++ peer ∷ [])) ≡ true
  unfolding first_untrusted
  first_of-allowed trusted [] peer h = ground arith
  first_of-allowed trusted (x ∷ hs) peer h = ground arith

  or_remote-append :
      (r : Request) (hs : List Text) (peer : Text) → or_remote r (hs ++ peer ∷ []) ≡ hs ++ peer ∷ []
  or_remote-append r [] peer = refl
  or_remote-append r (h ∷ hs) peer = refl

  forwarded_chain_lem :
      (r : Request) (peer : Text)
      → is_empty r.forwarded_for ≡ false
      → is_empty peer ≡ false
      → forwarded_chain addresses r peer
        ≡ hops_of addresses (split b',' r.forwarded_for) ++ peer ∷ []
  unfolding forwarded_chain forwarded_hops
  forwarded_chain_lem r peer given known = rw (given, known) (or_remote-append r _ peer)

  -- The chain of a forged header has the forged addresses in front.
  forged_chain :
      (r : Request) (peer forged : Text)
      → is_empty r.forwarded_for ≡ false
      → is_empty peer ≡ false
      → forwarded_chain addresses
          (record r { forwarded_for = forged ++ b',' ∷ r.forwarded_for })
          peer
        ≡ hops_of addresses (split b',' forged)
          ++ (hops_of addresses (split b',' r.forwarded_for) ++ peer ∷ [])
  forged_chain r peer forged given known =
      forwarded_chain_lem (record r { forwarded_for = forged ++ b',' ∷ r.forwarded_for }) peer
        (not_empty forged (b',') r.forwarded_for) known
      ∙ rw
          (
            split-append b',' forged r.forwarded_for,
            hops_of-append (split b',' forged) (split b',' r.forwarded_for),
          )
          (append_assoc (hops_of addresses (split b',' forged))
            (hops_of addresses (split b',' r.forwarded_for)) (peer ∷ []))

  same_answer :
      (trusted : List N) (before hs : List Text) (peer : Text)
      → ip_allowed addresses trusted (
          untrusted_or_first
            (first_untrusted addresses trusted (hs ++ peer ∷ []))
            (hs ++ peer ∷ []))
        ≡ false
      → untrusted_or_first
          (first_untrusted addresses trusted (before ++ (hs ++ peer ∷ [])))
          (before ++ (hs ++ peer ∷ []))
        ≡ untrusted_or_first (first_untrusted addresses trusted (hs ++ peer ∷ [])) (hs ++ peer ∷ [])
  same_answer trusted before hs peer =
      elim (Option-cases (first_untrusted addresses trusted (hs ++ peer ∷ []))) [
        | inl e ↦
            rw e (λ other. absurd (false≢true (sym other ∙ first_of-allowed trusted hs peer e)))
        | inr (ip, e) ↦
            rw (e, first_untrusted-append trusted before (hs ++ peer ∷ []) ip e) (λ other. refl)
      ]

  -- A client whose address counts as not trusted cannot change it by writing addresses of its own
  -- in front of what the proxies put into X-Forwarded-For. The header is there, and the peer's
  -- address is readable.
  pub client_ip_of_forged :
      (r : Request) (trust_forwarded : Bool) (trusted : List N) (forged : Text)
      → is_empty r.forwarded_for ≡ false
      → is_empty (remote_ip addresses r.remote_addr) ≡ false
      → ip_allowed addresses trusted (client_ip addresses r trust_forwarded trusted) ≡ false
      → client_ip addresses
          (record r { forwarded_for = forged ++ b',' ∷ r.forwarded_for })
          trust_forwarded
          trusted
        ≡ client_ip addresses r trust_forwarded trusted
  unfolding client_ip
  client_ip_of_forged r false [] forged given known other = refl
  client_ip_of_forged r true [] forged given known other = refl
  client_ip_of_forged r false (n ∷ nets) forged given known other = refl
  client_ip_of_forged r true (n ∷ nets) forged given known other =
      let peer = remote_ip addresses r.remote_addr in
      let hops = hops_of addresses (split b',' r.forwarded_for) in
      rw (forged_chain r peer forged given known, forwarded_chain_lem r peer given known)
        (same_answer (n ∷ nets) (hops_of addresses (split b',' forged)) hops peer
          (rw (← forwarded_chain_lem r peer given known) other))
