-- ===== src/Cleanup/Expiry.antt =====
-- internal/cleanup/cleanup.go: which hashes a run gathers.
use nx_cache.Common.{
  ◌≡◌, refl, inl, inr, Bool, false, not, ◌&&◌, ◌||◌, List, [], ◌∷◌, ◌++◌, arith, ltb, if◌then◌else◌,
  Bool-cases, any, Text, text_eq, text_eq_iff, mem, mem-append, Distinct, Time, is_zero,
}
use nx_cache.Storage.Types.{modified_when, Object, Backend, BackendLaws}
use nx_cache.Store.Types.{Entry}
use nx_cache.Store.Object.Listing.{is_older}
use nx_cache.Store.Interface.{Store, StoreLaws}
use nx_cache.Cleanup.{hashes_of, stale_objects, gather, World}

append-Distinct :
    (k : Text) (xs : List Text) → Distinct xs → mem k xs ≡ false → Distinct (xs ++ k ∷ [])
unfolding mem
append-Distinct k [] d h = (refl, tt)
append-Distinct k (x ∷ xs) d h =
    ground
      (arith, append-Distinct k xs d.1, mem-append x xs (k ∷ []), text_eq_iff x k, text_eq_iff k x)

pub mem-gather :
    (k : Text) (hs hashes : List Text) → mem k (gather hashes hs) ≡ (mem k hashes || mem k hs)
unfolding gather mem
mem-gather k [] hashes = ground arith
mem-gather k (h ∷ hs) hashes = ground (
  arith,
  mem-gather k hs (if mem h hashes then hashes else hashes ++ h ∷ []),
  mem-append k hashes (h ∷ []),
  text_eq_iff h k,
)

pub gather-Distinct : (hs hashes : List Text) → Distinct hashes → Distinct (gather hashes hs)
unfolding gather
gather-Distinct [] hashes d = d
gather-Distinct (h ∷ hs) hashes d = elim (Bool-cases (mem h hashes)) [
  | inl seen ↦ rw seen (gather-Distinct hs hashes d)
  | inr new ↦ rw new (gather-Distinct hs (hashes ++ h ∷ []) (append-Distinct h hashes d new))
]

pub mem-hashes_of :
    (k : Text) (es : List Entry) → mem k (hashes_of es) ≡ any (λ e. text_eq e.hash k) es
unfolding mem
mem-hashes_of k [] = refl
mem-hashes_of k (e ∷ es) = ground (arith, mem-hashes_of k es)

-- The loop's test of an object's time.
abbrev pub expired : Time → Time → Bool
expired cutoff t = not (is_zero t) && ltb t cutoff

pub mem-stale_objects :
    (k : Text) (cutoff : Time) (os : List Object)
    → mem k (stale_objects cutoff os)
      ≡ any (λ o. text_eq o.hash k && expired cutoff o.last_modified) os
unfolding mem stale_objects
mem-stale_objects k cutoff [] = refl
mem-stale_objects k cutoff (o ∷ os) = ground (arith, mem-stale_objects k cutoff os)

module _ {b : Backend} {s : Store} (bl : BackendLaws b) (sl : StoreLaws s) where
  -- Expired in the catalog, or in the backend under a name that its listing has.
  abbrev pub gone : Time → World b s → Text → Bool
  gone cutoff w k =
      is_older (sl.mark cutoff) (sl.entry w.1 k)
      || bl.is_listed k && modified_when (expired cutoff) (bl.view w.0 k)
