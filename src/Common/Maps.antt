-- ===== src/Common/Maps.antt =====
-- Go's `map[string]V` as an association list with the keys as texts. A read takes the first entry
-- of its key; a write replaces it in place, so a key never stands twice.
use Prim.Native.Nat.{◌+◌, ◌≤◌}
use mathlib.Core.Path.{◌≡◌, refl, ap, ◌∙◌}
use mathlib.Core.Bool.{Bool, true, false, ◌||◌}
use mathlib.Core.Option.{Option, none, some}
use mathlib.Core.List.{List, [], ◌∷◌, ◌++◌}
use native.Mathlib.Omega.{arith}
use nx_cache.Common.Tests.{if◌then◌else◌}
use nx_cache.Common.Lists.{length}
use nx_cache.Common.Strings.{Text, text_eq, text_eq_iff}

abbrev pub Assoc {ℓ} : Type ℓ → Type ℓ
Assoc V = List (Text × V)

module _ {ℓ} {V : Type ℓ} where
  -- v, ok := m[k]
  unfoldable pub lookup : Text → Assoc V → Option V
  lookup key [] = none
  lookup key ((j, val) ∷ pairs) = if text_eq j key then some val else lookup key pairs

  -- m[k] = v
  unfoldable pub insert : Text → V → Assoc V → Assoc V
  insert key val [] = (key, val) ∷ []
  insert key val ((j, old) ∷ pairs) =
      if text_eq j key then (key, val) ∷ pairs else (j, old) ∷ insert key val pairs

  -- delete(m, k)
  unfoldable pub remove : Text → Assoc V → Assoc V
  remove key [] = []
  remove key ((j, val) ∷ pairs) =
      let rest = remove key pairs in if text_eq j key then rest else (j, val) ∷ rest

  -- for _, k := range ks { delete(m, k) }
  unfoldable pub remove_all : List Text → Assoc V → Assoc V
  remove_all [] pairs = pairs
  remove_all (key ∷ ks) pairs = remove_all ks (remove key pairs)

  pub lookup-insert :
      (key j : Text) (val : V) (pairs : Assoc V)
      → lookup j (insert key val pairs) ≡ (if text_eq key j then some val else lookup j pairs)
  unfolding lookup insert
  lookup-insert key j val [] = refl
  lookup-insert key j val ((i, old) ∷ pairs) =
      ground (
        arith,
        text_eq_iff key j,
        text_eq_iff i key,
        text_eq_iff i j,
        lookup-insert key j val pairs,
      )

  pub lookup-remove :
      (key j : Text) (pairs : Assoc V)
      → lookup j (remove key pairs) ≡ (if text_eq key j then none else lookup j pairs)
  unfolding lookup remove
  lookup-remove key j [] = ground arith
  lookup-remove key j ((i, old) ∷ pairs) =
      ground
        (arith, text_eq_iff key j, text_eq_iff i key, text_eq_iff i j, lookup-remove key j pairs)

  pub length-remove-le : (key : Text) (pairs : Assoc V) → length (remove key pairs) ≤ length pairs
  unfolding remove
  length-remove-le key [] = omega arith
  length-remove-le key ((j, old) ∷ pairs) = ground (arith, length-remove-le key pairs)

  pub length-insert-le :
      (key : Text) (val : V) (pairs : Assoc V) → length (insert key val pairs) ≤ length pairs + 1
  unfolding insert
  length-insert-le key val [] = omega arith
  length-insert-le key val ((j, old) ∷ pairs) = ground (arith, length-insert-le key val pairs)

  -- A write to a key that is there keeps the number of keys.
  pub length-insert_present :
      (key : Text) (val old : V) (pairs : Assoc V)
      → lookup key pairs ≡ some old
      → length (insert key val pairs) ≡ length pairs
  unfolding insert lookup
  length-insert_present key val old [] h = cc
  length-insert_present key val old ((j, u) ∷ pairs) h =
      ground (arith, length-insert_present key val old pairs)

-- Whether a text is in a list of texts.
unfoldable pub mem : Text → List Text → Bool
mem key [] = false
mem key (j ∷ js) = text_eq j key || mem key js

pub mem_one : (k j : Text) → text_eq k j ≡ false → mem j (k ∷ []) ≡ false
unfolding mem
mem_one k j h = rw h refl

pub mem-append : (k : Text) (xs ys : List Text) → mem k (xs ++ ys) ≡ (mem k xs || mem k ys)
unfolding mem
mem-append k [] ys = refl
mem-append k (x ∷ xs) ys = ground (arith, mem-append k xs ys)

-- No text stands twice.
abbrev pub Distinct : List Text → Type 0
Distinct [] = Unit
Distinct (key ∷ ks) = (mem key ks ≡ false) × Distinct ks

abbrev pub keys {ℓ} : {V : Type ℓ} → Assoc V → List Text
keys [] = []
keys ((key, val) ∷ pairs) = key ∷ keys pairs

module _ {ℓ} {V : Type ℓ} where
  pub mem-keys_of_lookup :
      (key : Text) (val : V) (pairs : Assoc V)
      → lookup key pairs ≡ some val
      → mem key (keys pairs) ≡ true
  unfolding lookup mem
  mem-keys_of_lookup key val [] h = cc
  mem-keys_of_lookup key val ((j, old) ∷ pairs) h = ground (arith, mem-keys_of_lookup key val pairs)

  pub lookup_absent :
      (key : Text) (pairs : Assoc V) → mem key (keys pairs) ≡ false → lookup key pairs ≡ none
  unfolding lookup mem
  lookup_absent key [] h = refl
  lookup_absent key ((j, old) ∷ pairs) h = ground (arith, lookup_absent key pairs)

  pub lookup-remove_all :
      (ks : List Text) (j : Text) (pairs : Assoc V)
      → lookup j (remove_all ks pairs) ≡ (if mem j ks then none else lookup j pairs)
  unfolding remove_all mem
  lookup-remove_all [] j pairs = refl
  lookup-remove_all (key ∷ ks) j pairs =
      ground (arith, lookup-remove_all ks j (remove key pairs), lookup-remove key j pairs)

  mem-keys-insert :
      (key j : Text) (val : V) (pairs : Assoc V)
      → mem j (keys (insert key val pairs)) ≡ (text_eq key j || mem j (keys pairs))
  unfolding insert mem
  mem-keys-insert key j val [] = refl
  mem-keys-insert key j val ((i, old) ∷ pairs) = ground (
    arith,
    text_eq_iff i key,
    text_eq_iff i j,
    text_eq_iff key j,
    mem-keys-insert key j val pairs,
  )

  pub insert-Distinct :
      (key : Text) (val : V) (pairs : Assoc V)
      → Distinct (keys pairs)
      → Distinct (keys (insert key val pairs))
  unfolding insert mem
  insert-Distinct key val [] h = ground arith
  insert-Distinct key val ((i, old) ∷ pairs) h = ground (
    arith,
    text_eq_iff i key,
    text_eq_iff key i,
    insert-Distinct key val pairs,
    mem-keys-insert key i val pairs,
  )

  mem-keys-remove :
      (key j : Text) (pairs : Assoc V)
      → mem j (keys pairs) ≡ false
      → mem j (keys (remove key pairs)) ≡ false
  unfolding remove mem
  mem-keys-remove key j [] h = refl
  mem-keys-remove key j ((i, old) ∷ pairs) h = ground (arith, mem-keys-remove key j pairs)

  pub remove-Distinct :
      (key : Text) (pairs : Assoc V) → Distinct (keys pairs) → Distinct (keys (remove key pairs))
  unfolding remove
  remove-Distinct key [] h = tt
  remove-Distinct key ((i, old) ∷ pairs) h =
      ground (arith, remove-Distinct key pairs, mem-keys-remove key i pairs)

  pub remove_all-Distinct :
      (ks : List Text) (pairs : Assoc V)
      → Distinct (keys pairs)
      → Distinct (keys (remove_all ks pairs))
  unfolding remove_all
  remove_all-Distinct [] pairs h = h
  remove_all-Distinct (key ∷ ks) pairs h =
      remove_all-Distinct ks (remove key pairs) (remove-Distinct key pairs h)

-- The same keys, each value changed.
unfoldable pub map_values {ℓ} : {V W : Type ℓ} → (V → W) → Assoc V → Assoc W
map_values f [] = []
map_values f ((key, val) ∷ pairs) = (key, f val) ∷ map_values f pairs

abbrev pub map_option {ℓ} : {V W : Type ℓ} → (V → W) → Option V → Option W
map_option f none = none
map_option f (some val) = some (f val)

module _ {ℓ} {V W : Type ℓ} (f : V → W) where
  pub lookup-map_values :
      (key : Text) (pairs : Assoc V)
      → lookup key (map_values f pairs) ≡ map_option f (lookup key pairs)
  unfolding lookup map_values
  lookup-map_values key [] = refl
  lookup-map_values key ((j, val) ∷ pairs) = ground (arith, lookup-map_values key pairs)

  pub insert-map_values :
      (key : Text) (val : V) (pairs : Assoc V)
      → insert key (f val) (map_values f pairs) ≡ map_values f (insert key val pairs)
  unfolding insert map_values
  insert-map_values key val [] = refl
  insert-map_values key val ((j, old) ∷ pairs) = ground (arith, insert-map_values key val pairs)

  remove-map_values :
      (key : Text) (pairs : Assoc V)
      → remove key (map_values f pairs) ≡ map_values f (remove key pairs)
  unfolding remove map_values
  remove-map_values key [] = refl
  remove-map_values key ((j, old) ∷ pairs) = ground (arith, remove-map_values key pairs)

  pub remove_all-map_values :
      (ks : List Text) (pairs : Assoc V)
      → remove_all ks (map_values f pairs) ≡ map_values f (remove_all ks pairs)
  unfolding remove_all
  remove_all-map_values [] pairs = refl
  remove_all-map_values (key ∷ ks) pairs =
      ap (remove_all ks) (remove-map_values key pairs) ∙ remove_all-map_values ks (remove key pairs)

pub ruleset assoc_laws = (lookup-insert, lookup-remove, lookup-remove_all)
