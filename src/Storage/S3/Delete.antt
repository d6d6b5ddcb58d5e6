-- ===== src/Storage/S3/Delete.antt =====
-- internal/storage/s3.go: `Delete` and `DeleteMeta` over all batches.
use nx_cache.Common.{
  ℕ, suc, zero, ◌≡◌, ◌≤◌, refl, sym, ap, ◌∙◌, inl, inr, Bool, true, false, ◌||◌, Option, none, some,
  List, [], ◌∷◌, ◌++◌, arith, Bool-cases, length, take, drop, length-drop, take-append-drop, map,
  Text, mem, mem-append,
}
use nx_cache.Storage.Types.{Fault}
use nx_cache.Storage.S3.Sdk.{Client, ClientError}
use nx_cache.Storage.S3.{S3, keys_of, after_batch, delete_batches}
use nx_cache.Storage.S3.Laws.{ClientLaws}

pub map-append : (f : Text → Text) (xs ys : List Text) → map f (xs ++ ys) ≡ map f xs ++ map f ys
map-append f [] ys = refl
map-append f (x ∷ xs) ys = ap (◌∷◌ (f x)) (map-append f xs ys)

-- A list's first items and the others, as far as membership of the keys goes.
mem_parts :
    (f : Text → Text) (n : ℕ) (j : Text) (names : List Text)
    → mem j (map f names) ≡ (mem j (map f (take n names)) || mem j (map f (drop n names)))
mem_parts f n j names =
    sym (ap (λ l. mem j (map f l)) (take-append-drop n names))
    ∙ ap (mem j) (map-append f (take n names) (drop n names))
    ∙ mem-append j (map f (take n names)) (map f (drop n names))

or_false : (a b : Bool) → (a || b) ≡ false → (a ≡ false) × (b ≡ false)
or_false false false h = (refl, refl)
or_false false true h = ground arith
or_false true b h = ground arith

module _ {c : Client} (s : S3) (l : ClientLaws c s.bucket) (f : Text → Text) where
  -- No answer without an error has errors for single keys.
  abbrev pub RefusesNone : Type 0
  RefusesNone =
      (st : c.State) (ks : List Text)
      → (c.delete_objects st s.bucket ks).0 ≡ none
      → (c.delete_objects st s.bucket ks).1 ≡ []

  after_batch-keeps :
      (rest : c.State → Option Fault × c.State) (ks : List Text) (st : c.State) (j : Text)
      (a : Option ClientError × List Text × c.State)
      → l.view a.2 j ≡ l.view st j
      → ((st' : c.State) → l.view (rest st').1 j ≡ l.view st' j)
      → l.view (after_batch c rest a).1 j ≡ l.view st j
  unfolding after_batch
  after_batch-keeps rest ks st j (none, bad, st') same go = go st' ∙ same
  after_batch-keeps rest ks st j (some e, bad, st') same go = same

  -- Every key that is not asked for is as before, whatever the answers.
  pub batches-keep :
      (n : ℕ) (names : List Text) (st : c.State) (j : Text)
      → mem j (map f names) ≡ false
      → l.view (delete_batches c s f n names st).1 j ≡ l.view st j
  unfolding delete_batches keys_of
  batches-keep zero names st j h = refl
  batches-keep (suc n) [] st j h = refl
  batches-keep (suc n) (name ∷ names) st j h =
      let (first, others) = or_false _ _ (sym (mem_parts f 1000 j (name ∷ names)) ∙ h) in
      after_batch-keeps _ (map f (take 1000 (name ∷ names))) st j _
        (l.delete_other st (map f (take 1000 (name ∷ names))) j first)
        (λ st'. batches-keep n (drop 1000 (name ∷ names)) st' j others)

  -- Where the loop has run all batches without an error, every key is gone that was not refused.
  after_batch-gone :
      (rest : c.State → Option Fault × c.State) (st : c.State) (j : Text) (ks : List Text)
      (later : Bool) (a : Option ClientError × List Text × c.State)
      → c.delete_objects st s.bucket ks ≡ a
      → RefusesNone
      → (mem j ks || later) ≡ true
      → ((st' : c.State) → (rest st').0 ≡ none → later ≡ true → l.view (rest st').1 j ≡ none)
      → ((st' : c.State) → later ≡ false → l.view (rest st').1 j ≡ l.view st' j)
      → (after_batch c rest a).0 ≡ none
      → l.view (after_batch c rest a).1 j ≡ none
  unfolding after_batch
  after_batch-gone rest st j ks later (some e, bad, st') q all m go keep h = ground arith
  after_batch-gone rest st j ks later (none, bad, st') q all m go keep h = elim (Bool-cases later) [
    | inl y ↦ go st' h y
    | inr y ↦
        let clean = all st ks (ap (λ x. x.0) q) in
        keep st' y
        ∙ sym (ap (λ x. l.view x.2 j) q)
        ∙ l.delete_gone st ks j (ap (λ x. x.0) q) (ground arith)
            (ap (mem j) clean ∙ unfold mem in refl)
  ]

  pub batches-remove :
      (n : ℕ) (names : List Text) (st : c.State) (j : Text)
      → RefusesNone
      → length names ≤ n
      → (delete_batches c s f n names st).0 ≡ none
      → mem j (map f names) ≡ true
      → l.view (delete_batches c s f n names st).1 j ≡ none
  unfolding delete_batches keys_of mem
  batches-remove n [] st j all le h m = ground arith
  batches-remove zero (name ∷ names) st j all le h m = absurd (omega arith)
  batches-remove (suc n) (name ∷ names) st j all le h m =
      let others = drop 1000 (name ∷ names) in
      after_batch-gone (delete_batches c s f n others) st j (map f (take 1000 (name ∷ names)))
        (mem j (map f others)) _ refl all (sym (mem_parts f 1000 j (name ∷ names)) ∙ m)
        (λ st' h' y.
          batches-remove n others st' j all (omega (arith, length-drop 1000 (name ∷ names))) h' y)
        (λ st' y. batches-keep n others st' j y) h
