-- ===== src/Storage/S3/Objects.antt =====
-- internal/storage/s3.go: what `Put`, `Get`, `Exists` and `Delete` do to the artifacts of a bucket.
use nx_cache.Common.{
  ℕ, suc, zero, ◌≡◌, ◌≤◌, ◌+◌, refl, sym, ap, ◌∙◌, inl, inr, Bool, true, false, Option, none, some,
  List, [], ◌∷◌, ◌++◌, ◌==◌, arith, if◌then◌else◌, Bool-cases, Option-cases, length, take,
  length-take, take_of_length-le, drop, drop_of_length-le, map, sum_by, Text, text_eq, text_eq_iff,
  mem, mem_one,
}
use nx_cache.Storage.Types.{limit_reader, is_some, Fault, Body, Stored, not_found, ok, err}
use nx_cache.Storage.S3.Sdk.{Client, ClientError, Reply, reply, refused, Content, PutReply}
use nx_cache.Storage.S3.{
  S3, key, keys_of, after_batch, delete_batches, count_reads, counting_read, object_input, delete,
  exists, after_head, put, after_put_object, get, after_get_object,
}
use nx_cache.Storage.S3.Laws.{ClientLaws}
use nx_cache.Storage.S3.Delete.{batches-keep, batches-remove, RefusesNone}

pub count_reads-sum : (n : ℕ) (reads : List ℕ) → count_reads n reads ≡ n + sum_by (λ m. m) reads
unfolding count_reads counting_read
count_reads-sum n [] = omega arith
count_reads-sum n (m ∷ reads) = omega (arith, count_reads-sum (n + m) reads)

pub text_eq-append : (p a b : Text) → text_eq (p ++ a) (p ++ b) ≡ text_eq a b
unfolding text_eq
text_eq-append [] a b = refl
text_eq-append (x ∷ p) a b = ground (arith, text_eq-append p a b)

pub mem-keys :
    (s : S3) (j : Text) (hashes : List Text) → mem (key s j) (map (key s) hashes) ≡ mem j hashes
unfolding mem key
mem-keys s j [] = refl
mem-keys s j (h ∷ hashes) = rw (text_eq-append s.prefix h j, mem-keys s j hashes) refl

module _ {c : Client} (s : S3) (l : ClientLaws c s.bucket) where
  -- The artifact of a hash.
  abbrev pub view : c.State → Text → Option Stored
  view st hash = l.view st (key s hash)

  pub delete-keeps :
      (st : c.State) (hashes : List Text) (j : Text)
      → mem j hashes ≡ false
      → view (delete c s st hashes).1 j ≡ view st j
  unfolding delete
  delete-keeps st hashes j h =
      batches-keep s l (key s) (length hashes) hashes st (key s j) (mem-keys s j hashes ∙ h)

  -- A deletion that reports no error has removed all its hashes, in as many batches as they take,
  -- and nothing else, if no answer without an error has errors for single keys, and the service
  -- keeps its laws.
  pub delete-removes :
      (st : c.State) (hashes : List Text) (j : Text)
      → RefusesNone s l (key s)
      → (delete c s st hashes).0 ≡ none
      → view (delete c s st hashes).1 j ≡ (if mem j hashes then none else view st j)
  unfolding delete
  delete-removes st hashes j all h = elim (Bool-cases (mem j hashes)) [
    | inl m ↦ rw m (
        batches-remove s l (key s) (length hashes) hashes st (key s j) all (omega arith) h
          (mem-keys s j hashes ∙ m))
    | inr m ↦ rw m (delete-keeps st hashes j m)
  ]

  no_batch :
      (n : ℕ) (names : List Text) (st : c.State)
      → names ≡ []
      → delete_batches c s (key s) n names st ≡ (none, st)
  unfolding delete_batches
  no_batch zero names st h = refl
  no_batch (suc n) [] st h = refl
  no_batch (suc n) (name ∷ names) st h = cc

  last_batch :
      (rest : c.State → Option Fault × c.State) (a : Option ClientError × List Text × c.State)
      → a.0 ≡ none
      → ((st : c.State) → rest st ≡ (none, st))
      → after_batch c rest a ≡ (none, a.2)
  unfolding after_batch
  last_batch rest (none, bad, st) h done = done st
  last_batch rest (some e, bad, st) h done = ground arith

  -- A deletion of one to a thousand hashes that the service answers without an error is the answer's
  -- state, and reports no error.
  delete-one_batch :
      (st : c.State) (hash : Text) (hashes : List Text)
      → length (hash ∷ hashes) ≤ 1000
      → (c.delete_objects st s.bucket (keys_of (key s) (hash ∷ hashes))).0 ≡ none
      → delete c s st (hash ∷ hashes)
        ≡ (none, (c.delete_objects st s.bucket (keys_of (key s) (hash ∷ hashes))).2)
  unfolding delete delete_batches
  delete-one_batch st hash hashes few q =
      let names = hash ∷ hashes in
      let rest = delete_batches c s (key s) (length hashes) (drop 1000 names) in
      ap (λ x. after_batch c rest (c.delete_objects st s.bucket (keys_of (key s) x)))
        (take_of_length-le 1000 names few)
      ∙ last_batch rest _ q
          (λ st'. no_batch (length hashes) (drop 1000 names) st' (drop_of_length-le 1000 names few))

  -- A deletion of up to a thousand hashes that the service answers without an error reports none, and
  -- leaves every artifact as it is that the answer has an error for, if the service keeps its laws.
  pub delete-refused :
      (st : c.State) (hash : Text) (hashes : List Text) (j : Text)
      → length (hash ∷ hashes) ≤ 1000
      → (c.delete_objects st s.bucket (keys_of (key s) (hash ∷ hashes))).0 ≡ none
      → mem (key s j) (c.delete_objects st s.bucket (keys_of (key s) (hash ∷ hashes))).1 ≡ true
      → ((delete c s st (hash ∷ hashes)).0 ≡ none)
        × (view (delete c s st (hash ∷ hashes)).1 j ≡ view st j)
  delete-refused st hash hashes j few q m =
      let same = delete-one_batch st hash hashes few q in
      (
        ap (λ x. x.0) same,
        ap (λ x. view x.1 j) same
            ∙ l.delete_refused st (keys_of (key s) (hash ∷ hashes)) (key s j) m,
      )

  -- What the answer to a PutObject is when `Put` reports no error.
  after_put-ok :
      (hash : Text) (size : ℕ) (p : PutReply) (st : c.State)
      → (after_put_object c s hash size (p, st)).0 ≡ none
      → (p.error ≡ none)
        × (sum_by (λ n. n) p.reads ≡ size)
        × ((after_put_object c s hash size (p, st)).1 ≡ st)
  unfolding after_put_object
  after_put-ok hash size p st = elim (Option-cases p.error) [
    | inr (e, q) ↦ rw q (λ h. ground arith)
    | inl q ↦ rw q (elim (Bool-cases (count_reads 0 p.reads == size)) [
      | inl all ↦ rw all (λ h. (refl, ground (arith, count_reads-sum 0 p.reads), refl))
      | inr few ↦ rw few (λ h. ground arith)
    ])
  ]

  after_put-err :
      (hash : Text) (size : ℕ) (p : PutReply) (st : c.State) (j : Text) (o : Stored)
      → view st j ≡ some o
      → ((p.error ≡ none) → text_eq hash j ≡ false)
      → view (after_put_object c s hash size (p, st)).1 j ≡ some o
  unfolding after_put_object
  after_put-err hash size p st j o here other = elim (Option-cases p.error) [
    | inr (e, q) ↦ rw q here
    | inl q ↦
        let apart = other q in
        rw q (elim (Bool-cases (count_reads 0 p.reads == size)) [
          | inl all ↦ rw all here
          | inr few ↦ rw few (delete-keeps st (hash ∷ []) j (mem_one hash j apart) ∙ here)
        ])
  ]

  module _ (st : c.State) (hash : Text) (body : Body) (size : ℕ) where
    answer : PutReply × c.State
    answer = c.put_object st (object_input s hash body size)

    put-ok :
        (put c s st hash body size).0 ≡ none
        → (answer.0.error ≡ none)
          × (sum_by (λ n. n) answer.0.reads ≡ size)
          × ((put c s st hash body size).1 ≡ answer.1)
    unfolding put answer
    put-ok h = after_put-ok hash size answer.0 answer.1 h

    put-here :
        (put c s st hash body size).0 ≡ none
        → (size ≤ length body.bytes)
          × (view answer.1 hash
              ≡ some (record { content = take size body.bytes; modified = l.stamp st }))
    unfolding answer object_input limit_reader
    put-here h =
        let (done, all, same) = put-ok h in
        let reads = l.put_reads st (object_input s hash body size) in
        (
          omega (arith, length-take size body.bytes),
          l.put_stored st (object_input s hash body size) refl done all
              ∙ ap (λ x. some (record { content = x; modified = l.stamp st }))
                  (take_of_length-le size (take size body.bytes)
                    (omega (arith, length-take size body.bytes))),
        )

    put-other : (j : Text) → text_eq hash j ≡ false → view answer.1 j ≡ view st j
    unfolding answer object_input key
    put-other j h =
        l.put_other st (object_input s hash body size) (key s j)
          (text_eq-append s.prefix hash j ∙ h)

    -- An upload that reports no error met no artifact at its hash, and its body had at least as many
    -- bytes as the size says; after it the bucket holds that many of them there, and what it held
    -- before under the other hashes, if the service keeps its laws.
    pub put-takes :
        (put c s st hash body size).0 ≡ none
        → (view st hash ≡ none)
          × (size ≤ length body.bytes)
          × ((j : Text)
              → view (put c s st hash body size).1 j ≡ (
                  if text_eq hash j
                  then some (record { content = take size body.bytes; modified = l.stamp st })
                  else view st j))
    unfolding answer object_input
    put-takes h =
        let (done, all, same) = put-ok h in
        let (le, here) = put-here h in
        (
          l.put_new st (object_input s hash body size) refl refl done,
          le,
          λ j. ap (λ x. view x j) same ∙ elim (Bool-cases (text_eq hash j)) [
            | inl e ↦ rw e (ap (view answer.1) (sym ((text_eq_iff hash j).0 e)) ∙ here)
            | inr e ↦ rw e (put-other j e)
          ],
        )

    -- Whatever an upload reports, and whether or not an incomplete one could be deleted again, every
    -- artifact from before is as it was.
    pub put-Keeps :
        (j : Text) (o : Stored) → view st j ≡ some o → view (put c s st hash body size).1 j ≡ some o
    unfolding put answer object_input
    put-Keeps j o p = elim (Bool-cases (text_eq hash j)) [
      | inl e ↦
          let same = (text_eq_iff hash j).0 e in
          let here : view st hash ≡ some o = rw same p in
          after_put-err hash size answer.0 answer.1 j o
            (ap (view answer.1) (sym same)
              ∙ l.put_refused st (object_input s hash body size) o refl here)
            (λ q.
              let absent = l.put_new st (object_input s hash body size) refl refl q in absurd (cc))
      | inr e ↦ after_put-err hash size answer.0 answer.1 j o (put-other j e ∙ p) (λ q. e)
    ]

  after_get-ok :
      (st : c.State) (hash content : Text) (n : ℕ) (a : Reply Content)
      → c.get_object st s.bucket (key s hash) ≡ a
      → after_get_object c a ≡ ok (content, n)
      → (o : Stored) × (view st hash ≡ some o) × (o.content ≡ content) × (n ≡ length content)
  unfolding after_get_object
  after_get-ok st hash content n (refused e) q h = ground arith
  after_get-ok st hash content n (reply out) q h =
      let (o, there, same, sized) = l.get_found st (key s hash) out q in
      (o, there, ground arith, ground arith)

  pub get-ok :
      (st : c.State) (hash content : Text) (n : ℕ)
      → get c s st hash ≡ ok (content, n)
      → (o : Stored) × (view st hash ≡ some o) × (o.content ≡ content) × (n ≡ length content)
  unfolding get
  get-ok st hash content n h = after_get-ok st hash content n _ refl h

  after_get-not_found :
      (st : c.State) (hash : Text) (a : Reply Content)
      → c.get_object st s.bucket (key s hash) ≡ a
      → after_get_object c a ≡ err not_found
      → view st hash ≡ none
  unfolding after_get_object
  after_get-not_found st hash (reply out) q h = ground arith
  after_get-not_found st hash (refused e) q h = l.get_missing st (key s hash) e q (ground arith)

  pub get-not_found :
      (st : c.State) (hash : Text) → get c s st hash ≡ err not_found → view st hash ≡ none
  unfolding get
  get-not_found st hash h = after_get-not_found st hash _ refl h

  after_head-ok :
      (st : c.State) (hash : Text) (b : Bool) (a : Option ClientError)
      → c.head_object st s.bucket (key s hash) ≡ a
      → after_head c a ≡ ok b
      → b ≡ is_some (view st hash)
  unfolding after_head
  after_head-ok st hash b none q h = ground (arith, l.head_found st (key s hash) q)
  after_head-ok st hash b (some e) q h =
      let gone = l.head_missing st (key s hash) e q in ground arith

  pub exists-ok :
      (st : c.State) (hash : Text) (b : Bool)
      → exists c s st hash ≡ ok b
      → b ≡ is_some (view st hash)
  unfolding exists
  exists-ok st hash b h = after_head-ok st hash b _ refl h
