-- ===== src/Storage/Memory/Laws.antt =====
-- internal/storage/storage.go: `Memory` keeps the contract of a backend.
use nx_cache.Common.{
  ◌≤◌, true, ℕ, ◌+◌, ◌≡◌, refl, ap, ◌∙◌, inl, inr, Bool, false, ◌&&◌, Option, none, some, List, [],
  ◌∷◌, arith, if◌then◌else◌, Option-cases, length, take, any, length-take, take_of_length-le, Text,
  text_eq, text_eq_iff, Assoc, lookup, insert, lookup-insert, mem, Distinct, keys, lookup_absent,
  lookup-remove_all, insert-Distinct, remove_all-Distinct, Time,
}
use nx_cache.Storage.Types.{
  ok_injective, is_some, modified_when, Fault, Object, Body, Stored, Backend, BackendLaws,
  not_found, ok, err,
}
use nx_cache.Storage.Memory.{exists, put, get, delete, list_objects, list, MemObj, Memory}

abbrev pub memory_backend : Backend
memory_backend = record {
  State = Memory;
  exists = exists;
  put = put;
  get = get;
  delete = delete;
  list = list;
}

abbrev pub stored : Option MemObj → Option Stored
stored none = none
stored (some o) = some (record { content = o.content; modified = o.modified })

abbrev pub memory_view : Memory → Text → Option Stored
memory_view m k = stored (lookup k m.objects)

take_all : (n : ℕ) (xs : Text) → length (take (n + 1) xs) ≡ n → take (n + 1) xs ≡ xs
take_all n xs h = take_of_length-le (n + 1) xs (omega (arith, length-take (n + 1) xs))

module _ (m : Memory) (k : Text) where
  -- What a successful write has met, and what it leaves.
  put-ok :
      (body : Body) (n : ℕ)
      → (put m k body n).0 ≡ none
      → (lookup k m.objects ≡ none)
        × (length body.bytes ≡ n)
        × ((put m k body n).1.objects
            ≡ insert k (record { content = body.bytes; modified = m.now }) m.objects)
  unfolding put
  put-ok body n h = ground (arith, take_all n body.bytes)

  pub put-err :
      (body : Body) (n : ℕ) (e : Fault) → (put m k body n).0 ≡ some e → (put m k body n).1 ≡ m
  unfolding put
  put-err body n e h = ground arith

  stored-if :
      (j : Text) (o : MemObj)
      → stored (lookup j (insert k o m.objects)) ≡ (
          if text_eq k j
          then some (record { content = o.content; modified = o.modified })
          else memory_view m j)
  stored-if j o = ground (arith, lookup-insert k j o m.objects)

  view-put :
      (body : Body) (n : ℕ)
      → (put m k body n).0 ≡ none
      → (j : Text)
      → memory_view (put m k body n).1 j ≡ (
          if text_eq k j
          then some (record { content = body.bytes; modified = m.now })
          else memory_view m j)
  view-put body n h j = rw (put-ok body n h).2 (stored-if j _)

  -- A write that succeeds had the declared size and met no object at its hash; afterwards the backend
  -- holds its bytes there, with the time of its clock, and everything else as before.
  pub put-stores :
      (body : Body) (n : ℕ)
      → (put m k body n).0 ≡ none
      → (memory_view m k ≡ none)
        × (length body.bytes ≡ n)
        × ((j : Text)
            → memory_view (put m k body n).1 j ≡ (
                if text_eq k j
                then some (record { content = body.bytes; modified = m.now })
                else memory_view m j))
  put-stores body n h = (ground (arith, put-ok body n h), (put-ok body n h).1, view-put body n h)

  pub view-delete :
      (ks : List Text)
      → memory_view (delete m ks).1 k ≡ (if mem k ks then none else memory_view m k)
  unfolding delete
  view-delete ks = ground (arith, lookup-remove_all ks k m.objects)

any-list_objects :
    (k : Text) (p : Time → Bool) (l : Assoc MemObj)
    → Distinct (keys l)
    → any (λ o. text_eq o.hash k && p o.last_modified) (list_objects l)
      ≡ modified_when p (stored (lookup k l))
unfolding list_objects lookup
any-list_objects k p [] d = refl
any-list_objects k p ((j, o) ∷ l) d =
    ground (arith, any-list_objects k p l d.1, lookup_absent k l, text_eq_iff j k, d.0)

abbrev pub IsSound : Memory → Type 0
IsSound m = Distinct (keys m.objects)

pub put-IsSound :
    (m : Memory) (k : Text) (body : Body) (n : ℕ) → IsSound m → IsSound (put m k body n).1
unfolding put
put-IsSound m k body n h = ground (
  arith,
  insert-Distinct k (record { content = take (n + 1) body.bytes; modified = m.now }) m.objects h,
)

pub delete-IsSound : (m : Memory) (ks : List Text) → IsSound m → IsSound (delete m ks).1
unfolding delete
delete-IsSound m ks h = remove_all-Distinct ks m.objects h

pub get-ok :
    (m : Memory) (k content : Text) (n : ℕ)
    → get m k ≡ ok (content, n)
    → (o : Stored) × (memory_view m k ≡ some o) × (o.content ≡ content) × (n ≡ length content)
unfolding get
get-ok m k content n h = elim (Option-cases (lookup k m.objects)) [
  | inl none_there ↦ ground arith
  | inr (o, found) ↦ (
    record { content = o.content; modified = o.modified },
    ground arith,
    ground arith,
    ground arith,
  )
]

pub get-not_found : (m : Memory) (k : Text) → get m k ≡ err not_found → memory_view m k ≡ none
unfolding get
get-not_found m k h = ground arith

pub exists-ok :
    (m : Memory) (k : Text) (c : Bool) → exists m k ≡ ok c → c ≡ is_some (memory_view m k)
unfolding exists
exists-ok m k c h = ground arith

pub delete-keeps :
    (m : Memory) (ks : List Text) (j : Text)
    → mem j ks ≡ false
    → memory_view (delete m ks).1 j ≡ memory_view m j
delete-keeps m ks j h = ground (arith, view-delete m j ks)

pub list-ok :
    (m : Memory) (os : List Object) (k : Text) (p : Time → Bool)
    → IsSound m
    → list m ≡ ok os
    → any (λ o. text_eq o.hash k && p o.last_modified) os ≡ modified_when p (memory_view m k)
unfolding list
list-ok m os k p d h = rw (← ok_injective _ os h) (any-list_objects k p m.objects d)

pub put-takes :
    (m : Memory) (k : Text) (body : Body) (n : ℕ)
    → (put m k body n).0 ≡ none
    → (memory_view m k ≡ none)
      × (n ≤ length body.bytes)
      × ((j : Text)
          → memory_view (put m k body n).1 j ≡ (
              if text_eq k j
              then some (record { content = take n body.bytes; modified = m.now })
              else memory_view m j))
put-takes m k body n h =
    let (absent, sized, stores) = put-stores m k body n h in
    (absent, omega arith, rw (take_of_length-le n body.bytes (omega arith)) stores)

-- The in-memory backend keeps the whole contract of `Backend`.
abbrev pub memory_laws : BackendLaws memory_backend
memory_laws = record {
  view = memory_view;
  stamp = λ m. m.now;
  exists_ok = exists-ok;
  put_ok = put-takes;
  put_err = λ m k body n e h j o p. ap (λ s. memory_view s j) (put-err m k body n e h) ∙ p;
  get_ok = get-ok;
  get_not_found = get-not_found;
  delete_ok = λ m ks h j. view-delete m j ks;
  delete_keeps = delete-keeps;
  IsSound = IsSound;
  put_IsSound = put-IsSound;
  delete_IsSound = delete-IsSound;
  is_listed = λ k. true;
  list_ok = list-ok;
}
