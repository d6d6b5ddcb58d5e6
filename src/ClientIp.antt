-- ===== src/ClientIp.antt =====
-- internal/httpserver/clientip.go and `ipAllowed` of internal/httpserver/access.go: the address that
-- a request comes from. `net.ParseIP` with its `String`, `net.SplitHostPort` and `IPNet.Contains` are
-- parameters.
pub mod Forwarded
use nx_cache.Common.{
  ◌+◌, ◌-◌, ◌/◌, String, Bool, true, false, not, Option, none, some, List, [], ◌∷◌, ◌++◌, ◌==◌,
  if◌then◌else◌, any, All, Text, is_empty, trim_prefix, contains, trim_space, split,
}

pub record Addresses (N : Type 0) : Type 0 where
  pub parse_ip : Text → Option Text
  pub split_host_port : Text → Option Text
  pub contains_ip : N → Text → Bool

-- The headers X-Forwarded-For and X-Real-IP are empty where they are missing.
pub record Request : Type 0 where
  pub remote_addr : Text
  pub forwarded_for : Text
  pub real_ip : Text

-- strings.TrimSuffix(s, "]")
unfoldable pub trim_bracket : Text → Text
trim_bracket [] = []
trim_bracket (c ∷ []) = if c == b']' then [] else c ∷ []
trim_bracket (c ∷ d ∷ s) = c ∷ trim_bracket (d ∷ s)

abbrev pub or_blank : Option Text → Text
or_blank none = []
or_blank (some t) = t

abbrev pub or_remote : Request → List Text → List Text
or_remote r [] = r.remote_addr ∷ []
or_remote r (h ∷ hs) = h ∷ hs

abbrev pub first_of : List Text → Text
first_of [] = []
first_of (h ∷ hs) = h

abbrev pub untrusted_or_first : Option Text → List Text → Text
untrusted_or_first none hops = first_of hops
untrusted_or_first (some ip) hops = ip

module _ {N : Type 0} (addresses : Addresses N) where
  unfoldable pub ip_allowed : List N → Text → Bool
  ip_allowed [] ip = true
  ip_allowed (n ∷ nets) ip = elim (addresses.parse_ip ip) [
    | none ↦ false
    | some parsed ↦ any (λ net. addresses.contains_ip net parsed) (n ∷ nets)
  ]

  unfoldable pub normalize_ip : Text → Text
  unfolding trim_bracket
  normalize_ip s =
      or_blank (addresses.parse_ip (trim_bracket (trim_prefix (trim_space s) (b'[' ∷ []))))

  unfoldable pub remote_ip : Text → Text
  unfolding normalize_ip
  remote_ip addr = elim (addresses.split_host_port addr) [
    | none ↦ normalize_ip addr
    | some host ↦ normalize_ip host
  ]

  -- The parts of a list that are addresses.
  unfoldable pub hops_of : List Text → List Text
  unfolding normalize_ip
  hops_of [] = []
  hops_of (p ∷ ps) =
      let rest = hops_of ps in let ip = normalize_ip p in if is_empty ip then rest else ip ∷ rest

  unfoldable pub forwarded_hops : Request → List Text
  unfolding hops_of
  forwarded_hops r =
      if not (is_empty r.forwarded_for)
      then hops_of (split b',' r.forwarded_for)
      else hops_of (r.real_ip ∷ [])

  unfoldable pub forwarded_chain : Request → Text → List Text
  unfolding forwarded_hops
  forwarded_chain r peer =
      or_remote r (forwarded_hops r ++ (if is_empty peer then [] else peer ∷ []))

  -- The loop from the right: the first hop that is not trusted.
  unfoldable pub first_untrusted : List N → List Text → Option Text
  unfolding ip_allowed
  first_untrusted trusted [] = none
  first_untrusted trusted (h ∷ hs) =
      let later = first_untrusted trusted hs in
      elim later [ some ip ↦ some ip | none ↦ if ip_allowed trusted h then none else some h ]

  unfoldable pub client_ip : Request → Bool → List N → Text
  unfolding remote_ip forwarded_chain first_untrusted
  client_ip r trust_forwarded [] = remote_ip r.remote_addr
  client_ip r trust_forwarded (n ∷ nets) =
      let peer = remote_ip r.remote_addr in
      let hops = forwarded_chain r peer in
      if not trust_forwarded
      then peer
      else untrusted_or_first (first_untrusted (n ∷ nets) hops) hops
