-- ===== src/Store/Object/Entries.antt =====
-- internal/store/object.go: what the methods do to the entries.
use nx_cache.Common.{
  ℕ, ◌≤◌, ◌≡◌, refl, ap, ◌∙◌, ◌⊎◌, inl, inr, Bool, true, false, not, ◌&&◌, Option, none, some, List,
  [], ◌∷◌, arith, ltb, ◌==◌, Bool-cases, Option-cases, Text, text_eq, text_eq_refl, text_eq_iff,
  is_empty, Assoc, lookup, insert, remove_all, lookup-insert, mem, Distinct, keys,
  mem-keys_of_lookup, lookup-remove_all, insert-Distinct, remove_all-Distinct, Time, is_zero,
}
use nx_cache.Store.Types.{TaskInfo, Entry}
use nx_cache.Store.Object.Run.{
  perform, run, run_induction, Operation, upsert, hit_at, miss_at, delete_all, ensure, update,
  put_back,
}
use nx_cache.Store.Object.{
  entry_or_zero, upserted, upsert_entry, hit, record_hit, record_miss, delete, ensure_known,
  ensure_entry, update_known, update_task_info, seed, Catalog,
}

-- Every entry stands under its own hash, and no key stands twice.
pub record IsKeyed (m : Assoc Entry) : Type 0 where
  pub distinct : Distinct (keys m)
  pub at_key : (k : Text) (e : Entry) → lookup k m ≡ some e → e.hash ≡ k

pub IsKeyed-tail :
    (j : Text) (e : Entry) (m : Assoc Entry) → IsKeyed ((j, e) ∷ m) → (e.hash ≡ j) × IsKeyed m
unfolding lookup
IsKeyed-tail j e m h = (
  h.at_key j e (ground (arith, text_eq_refl j)),
  record {
    distinct = h.distinct.1;
    at_key = λ k x p.
        h.at_key k x (ground (arith, text_eq_iff j k, mem-keys_of_lookup k x m p, h.distinct.0));
  },
)

insert-IsKeyed :
    (k : Text) (e : Entry) (m : Assoc Entry) → e.hash ≡ k → IsKeyed m → IsKeyed (insert k e m)
insert-IsKeyed k e m same h = record {
  distinct = insert-Distinct k e m h.distinct;
  at_key = λ j x p. ground (arith, lookup-insert k j e m, h.at_key j x, text_eq_iff k j);
}

remove_all-IsKeyed : (ks : List Text) (m : Assoc Entry) → IsKeyed m → IsKeyed (remove_all ks m)
remove_all-IsKeyed ks m h = record {
  distinct = remove_all-Distinct ks m h.distinct;
  at_key = λ j x p. ground (arith, lookup-remove_all ks j m, h.at_key j x);
}

module _ (k : Text) (m : Assoc Entry) (h : IsKeyed m) where
  hash-read : (entry_or_zero (lookup k m)).hash ≡ [] ⊎ ((entry_or_zero (lookup k m)).hash ≡ k)
  hash-read = elim (Option-cases (lookup k m)) [
    | inl missing ↦ rw missing (inl refl)
    | inr (e, found) ↦ rw found (inr (h.at_key k e found))
  ]

  hash-upserted :
      (size : ℕ) (at : Time) (info : TaskInfo)
      → (upserted k size at info (entry_or_zero (lookup k m))).hash ≡ k
  unfolding upserted
  hash-upserted size at info = ground (arith, hash-read)

  hash-hit : (at : Time) → (hit k at (entry_or_zero (lookup k m))).hash ≡ k
  unfolding hit
  hash-hit at = ground (arith, hash-read)

ensure_known-IsKeyed :
    (k : Text) (size : ℕ) (at : Time) (known : Option Entry) (o : Catalog)
    → lookup k o.entries ≡ known
    → IsKeyed o.entries
    → IsKeyed (ensure_known k size at known o).entries
unfolding ensure_known
ensure_known-IsKeyed k size at none o p h = insert-IsKeyed k _ o.entries refl h
ensure_known-IsKeyed k size at (some e) o p h = elim (Bool-cases (e.size == 0 && ltb 0 size)) [
  | inl fill ↦ rw fill (insert-IsKeyed k _ o.entries (h.at_key k e p) h)
  | inr leave ↦ rw leave h
]

update_known-IsKeyed :
    (k : Text) (info : TaskInfo) (known : Option Entry) (o : Catalog)
    → lookup k o.entries ≡ known
    → IsKeyed o.entries
    → IsKeyed (update_known k info known o).entries
unfolding update_known
update_known-IsKeyed k info none o p h = h
update_known-IsKeyed k info (some e) o p h = insert-IsKeyed k _ o.entries (h.at_key k e p) h

pub perform-IsKeyed :
    (op : Operation) (o : Catalog) → IsKeyed o.entries → IsKeyed (perform op o).entries
unfolding perform upsert_entry record_hit record_miss delete ensure_entry update_task_info seed
perform-IsKeyed (upsert k size at info) o h =
    insert-IsKeyed k _ o.entries (hash-upserted k o.entries h size at info) h
perform-IsKeyed (hit_at k at) o h = insert-IsKeyed k _ o.entries (hash-hit k o.entries h at) h
perform-IsKeyed (miss_at at) o h = h
perform-IsKeyed (delete_all []) o h = h
perform-IsKeyed (delete_all (k ∷ ks)) o h = remove_all-IsKeyed (k ∷ ks) o.entries h
perform-IsKeyed (ensure k size at) o h = ensure_known-IsKeyed k size at _ o refl h
perform-IsKeyed (update k info) o h = update_known-IsKeyed k info _ o refl h
perform-IsKeyed (put_back e) o h = insert-IsKeyed e.hash e o.entries refl h

pub run-IsKeyed :
    (ops : List Operation) (o : Catalog) → IsKeyed o.entries → IsKeyed (run ops o).entries
run-IsKeyed = run_induction (λ o. IsKeyed o.entries) perform-IsKeyed

-- Whatever operations are run on a catalog in which every entry stands once and under its own
-- hash: afterwards no key stands twice, and an entry that is looked up has the hash it is asked by.
pub lookup-run :
    (ops : List Operation) (o : Catalog) (k : Text) (e : Entry)
    → IsKeyed o.entries
    → lookup k (run ops o).entries ≡ some e
    → (e.hash ≡ k) × Distinct (keys (run ops o).entries)
lookup-run ops o k e h p = let keyed = run-IsKeyed ops o h in (keyed.at_key k e p, keyed.distinct)

-- The operations that may take an entry away or replace it whole.
abbrev pub replaces : Text → Operation → Bool
replaces j (delete_all ks) = mem j ks
replaces j (put_back e) = text_eq e.hash j
replaces j _ = false

-- What an entry keeps under the other operations.
pub record Continues (e e' : Entry) : Type 0 where
  pub created : e'.created_at ≡ e.created_at
  pub hits : e.hits ≤ e'.hits
  pub hash : e'.hash ≡ e.hash

pub record Kept (e : Entry) (after : Option Entry) : Type 0 where
  pub now : Entry
  pub there : after ≡ some now
  pub same : Continues e now

Continues-refl : (e : Entry) → Continues e e
Continues-refl e = record { created = refl; hits = omega arith; hash = refl }

Kept-refl : (e : Entry) (after : Option Entry) → after ≡ some e → Kept e after
Kept-refl e after p = record { now = e; there = p; same = Continues-refl e }

insert-Kept :
    (k j : Text) (new e : Entry) (m : Assoc Entry)
    → lookup j m ≡ some e
    → (k ≡ j → Continues e new)
    → Kept e (lookup j (insert k new m))
insert-Kept k j new e m p same = elim (Bool-cases (text_eq k j)) [
  | inl here ↦ record {
    now = new;
    there = ground (arith, lookup-insert k j new m);
    same = same ((text_eq_iff k j).0 here);
  }
  | inr there ↦ Kept-refl e _ (ground (arith, lookup-insert k j new m))
]

same_entry :
    (k j : Text) (d e : Entry) (m : Assoc Entry)
    → lookup k m ≡ some d
    → lookup j m ≡ some e
    → k ≡ j
    → d ≡ e
same_entry k j d e m q p same = cc (ap (λ x. lookup x m) same)

none_there :
    (k j : Text) (e : Entry) (m : Assoc Entry) → lookup k m ≡ none → lookup j m ≡ some e → k ≡ j → ⊥
none_there k j e m q p same = cc (ap (λ x. lookup x m) same)

module _ (j : Text) (e : Entry) (named : is_empty e.hash ≡ false)
    (dated : is_zero e.created_at ≡ false) where
  upserted-Continues :
      (size : ℕ) (at : Time) (info : TaskInfo) → Continues e (upserted j size at info e)
  unfolding upserted
  upserted-Continues size at info = ground arith

  hit-Continues : (at : Time) → Continues e (hit j at e)
  unfolding hit
  hit-Continues at = ground arith

  read-Continues :
      (m : Assoc Entry) (f : Entry → Entry)
      → lookup j m ≡ some e
      → Continues e (f e)
      → Continues e (f (entry_or_zero (lookup j m)))
  read-Continues m f p c = rw p c

  ensure_known-Kept :
      (k : Text) (size : ℕ) (at : Time) (known : Option Entry) (o : Catalog)
      → lookup k o.entries ≡ known
      → lookup j o.entries ≡ some e
      → Kept e (lookup j (ensure_known k size at known o).entries)
  unfolding ensure_known
  ensure_known-Kept k size at none o q p =
      insert-Kept k j _ e o.entries p (λ same. absurd (none_there k j e o.entries q p same))
  ensure_known-Kept k size at (some d) o q p = elim (Bool-cases (d.size == 0 && ltb 0 size)) [
    | inl fill ↦ rw fill (
        insert-Kept k j _ e o.entries p (λ same.
          rw (same_entry k j d e o.entries q p same)
            (record { created = refl; hits = omega arith; hash = refl })))
    | inr leave ↦ rw leave (Kept-refl e _ p)
  ]

  update_known-Kept :
      (k : Text) (info : TaskInfo) (known : Option Entry) (o : Catalog)
      → lookup k o.entries ≡ known
      → lookup j o.entries ≡ some e
      → Kept e (lookup j (update_known k info known o).entries)
  unfolding update_known
  update_known-Kept k info none o q p = Kept-refl e _ p
  update_known-Kept k info (some d) o q p = insert-Kept k j _ e o.entries p (λ same.
      rw (same_entry k j d e o.entries q p same)
        (record { created = refl; hits = omega arith; hash = refl }))

  -- An entry with a hash and a time of creation stays under its key through every operation but
  -- a deletion of that key or a write of a whole entry: it keeps that time, and no hit is lost.
  pub perform-Kept :
      (op : Operation) (o : Catalog)
      → lookup j o.entries ≡ some e
      → replaces j op ≡ false
      → Kept e (lookup j (perform op o).entries)
  unfolding perform upsert_entry record_hit record_miss delete ensure_entry update_task_info seed
  perform-Kept (upsert k size at info) o p r = insert-Kept k j _ e o.entries p (λ same.
      rw same
        (read-Continues o.entries (upserted j size at info) p (upserted-Continues size at info)))
  perform-Kept (hit_at k at) o p r =
      insert-Kept k j _ e o.entries p
        (λ same. rw same (read-Continues o.entries (hit j at) p (hit-Continues at)))
  perform-Kept (miss_at at) o p r = Kept-refl e _ p
  perform-Kept (delete_all []) o p r = Kept-refl e _ p
  perform-Kept (delete_all (k ∷ ks)) o p r =
      Kept-refl e _ (ground (arith, lookup-remove_all (k ∷ ks) j o.entries))
  perform-Kept (ensure k size at) o p r = ensure_known-Kept k size at _ o refl p
  perform-Kept (update k info) o p r = update_known-Kept k info _ o refl p
  perform-Kept (put_back d) o p r =
      Kept-refl e _ (ground (arith, lookup-insert d.hash j d o.entries))

-- No operation of a list replaces the key.
abbrev pub none_replaces : Text → List Operation → Bool
none_replaces j [] = true
none_replaces j (op ∷ ops) = not (replaces j op) && none_replaces j ops

Kept-trans : (e d : Entry) (after : Option Entry) → Continues e d → Kept d after → Kept e after
Kept-trans e d after c k = record {
  now = k.now;
  there = k.there;
  same = record {
    created = k.same.created ∙ c.created;
    hits = omega (arith, c.hits, k.same.hits);
    hash = k.same.hash ∙ c.hash;
  };
}

-- An entry with a hash and a time of creation stays under its key through every run of operations
-- in which none deletes that key and none puts a whole entry back under it: it keeps its time of
-- creation and its hash, and its hits do not fall.
pub run-Kept :
    (ops : List Operation) (o : Catalog) (j : Text) (e : Entry)
    → is_empty e.hash ≡ false
    → is_zero e.created_at ≡ false
    → lookup j o.entries ≡ some e
    → none_replaces j ops ≡ true
    → Kept e (lookup j (run ops o).entries)
unfolding run
run-Kept [] o j e named dated p r = Kept-refl e _ p
run-Kept (op ∷ ops) o j e named dated p r =
    let k = perform-Kept j e named dated op o p (ground arith) in
    Kept-trans e k.now _ k.same (
      run-Kept ops (perform op o) j k.now (rw k.same.hash named) (rw k.same.created dated) k.there
        (ground arith))
