-- ===== src/Storage/S3/Complete.antt =====
-- internal/storage/s3.go: `List` over all pages.
use nx_cache.Common.{
  ℕ, suc, zero, ◌≡◌, ◌<◌, refl, sym, ap, ◌∙◌, inl, inr, Bool, true, not, ◌&&◌, ◌||◌, Option, none,
  some, List, [], ◌∷◌, ◌++◌, append_assoc, arith, Bool-cases, Option-cases, any, All, Text, text_eq,
  text_eq_iff, has_prefix, strip_prefix?, trim_prefix, Time,
}
use nx_cache.Storage.Types.{ok_injective, modified_when, Object, Result, ok}
use nx_cache.Storage.S3.Sdk.{Client, Reply, reply, refused, Entry, Page}
use nx_cache.Storage.S3.{S3, key}
use nx_cache.Storage.S3.Listing.{
  or_zero, item, is_skipped, keyed_item, page_objects, next_page, after_list, list_from, list,
}
use nx_cache.Storage.S3.Laws.{is_key, is_under, ClientLaws}
use nx_cache.Storage.S3.Objects.{text_eq-append, view}

keyed_item-append :
    (prefix : Text) (e : Entry) (k : Option Text) (xs ys : List Object)
    → keyed_item prefix e k (xs ++ ys) ≡ keyed_item prefix e k xs ++ ys
unfolding keyed_item
keyed_item-append prefix e none xs ys = refl
keyed_item-append prefix e (some k) xs ys = elim (Bool-cases (is_skipped (trim_prefix k prefix))) [
  | inl h ↦ rw h refl
  | inr h ↦ rw h refl
]

page_objects-append :
    (prefix : Text) (es fs : List Entry)
    → page_objects prefix (es ++ fs) ≡ page_objects prefix es ++ page_objects prefix fs
unfolding page_objects
page_objects-append prefix [] fs = refl
page_objects-append prefix (e ∷ es) fs =
    ap (keyed_item prefix e e.key) (page_objects-append prefix es fs)
    ∙ keyed_item-append prefix e e.key (page_objects prefix es) (page_objects prefix fs)

strip_prefix?-some :
    (k p : Text) → has_prefix k p ≡ true → (r : Text) × (strip_prefix? k p ≡ some r) × (p ++ r ≡ k)
unfolding has_prefix strip_prefix?
strip_prefix?-some k [] h = (k, refl, refl)
strip_prefix?-some [] (d ∷ p) h = ground arith
strip_prefix?-some (c ∷ k) (d ∷ p) h =
    let (r, there, whole) = strip_prefix?-some k p (ground arith) in (r, ground arith, ground arith)

append_strip : (k p : Text) → has_prefix k p ≡ true → p ++ trim_prefix k p ≡ k
unfolding trim_prefix
append_strip k p h =
    let (r, there, whole) = strip_prefix?-some k p h in rw (trim_prefix, there) whole

has_prefix-append : (p k : Text) → has_prefix (p ++ k) p ≡ true
unfolding has_prefix
has_prefix-append [] [] = refl
has_prefix-append [] (c ∷ k) = refl
has_prefix-append (c ∷ p) k = ground (arith, has_prefix-append p k)

any-keyed_item :
    (prefix k : Text) (p : Time → Bool) (e : Entry) (key : Option Text) (xs : List Object)
    (later : Bool)
    → is_under prefix key ≡ true
    → any (λ o. text_eq o.hash k && p o.last_modified) xs ≡ (not (is_skipped k) && later)
    → any (λ o. text_eq o.hash k && p o.last_modified) (keyed_item prefix e key xs)
      ≡ (not (is_skipped k) && (is_key (prefix ++ k) key && p (or_zero e.last_modified) || later))
unfolding keyed_item item
any-keyed_item prefix k p e none xs later u h = h
any-keyed_item prefix k p e (some k') xs later u h =
    let same : text_eq (trim_prefix k' prefix) k ≡ text_eq k' (prefix ++ k) =
      sym (text_eq-append prefix (trim_prefix k' prefix) k)
      ∙ ap (λ x. text_eq x (prefix ++ k)) (append_strip k' prefix u) in
    ground (arith, text_eq_iff (trim_prefix k' prefix) k)

any-page_objects :
    (prefix k : Text) (p : Time → Bool) (es : List Entry)
    → All (λ e. is_under prefix e.key ≡ true) es
    → any (λ o. text_eq o.hash k && p o.last_modified) (page_objects prefix es) ≡ (
        not (is_skipped k)
        && any (λ e. is_key (prefix ++ k) e.key && p (or_zero e.last_modified)) es)
unfolding page_objects
any-page_objects prefix k p [] a = ground arith
any-page_objects prefix k p (e ∷ es) a =
    any-keyed_item prefix k p e e.key (page_objects prefix es) _ a.0
      (any-page_objects prefix k p es a.1)

module _ {c : Client} (s : S3) (l : ClientLaws c s.bucket) (st : c.State) where
  -- What `List` makes of the pages from a token on.
  from : Option Text → List Object
  from token = page_objects s.prefix (l.listing st s.prefix token)

  -- The tokens that the service has issued to a listing: none for its first request, and what a page
  -- names as the next one.
  pub data Issued : Option Text → Type 0 where
    first_request : Issued none
    next_request :
        {token : Option Text} {p : Page} {t : Text}
        → Issued token
        → c.list_objects st s.bucket s.prefix token ≡ reply p
        → next_page p ≡ some t
        → Issued (some t)

  -- Every request of the listing is answered with a page.
  abbrev pub Answers : Type 0
  Answers =
      (token : Option Text)
      → Issued token
      → (p : Page) × (c.list_objects st s.bucket s.prefix token ≡ reply p)

  after_list-ok :
      (more : Option Text → List Object → Result (List Object)) (token : Option Text)
      (out os : List Object) (a : Reply Page)
      → c.list_objects st s.bucket s.prefix token ≡ a
      → ((t : Text) (o : List Object) → more (some t) o ≡ ok os → os ≡ o ++ from (some t))
      → after_list c s more out a ≡ ok os
      → os ≡ out ++ from token
  unfolding after_list from
  after_list-ok more token out os (refused e) q go = λ h. ground arith
  after_list-ok more token out os (reply p) q go = elim (Option-cases (next_page p)) [
    | inl last ↦
        rw (after_list, last)
          (λ h.
            sym (ok_injective _ os h)
            ∙ ap (λ x. out ++ page_objects s.prefix x)
                (sym (l.page_last st s.prefix token p q last)))
    | inr (t, next) ↦
        rw (after_list, next)
          (λ h.
            go t _ h
            ∙ append_assoc out (page_objects s.prefix p.contents) (from (some t))
            ∙ ap (◌++◌ out) (
                sym (page_objects-append s.prefix p.contents (l.listing st s.prefix (some t)))
                ∙ ap (page_objects s.prefix) (sym (l.page_more st s.prefix token p t q next).0)))
  ]

  list_from-ok :
      (n : ℕ) (token : Option Text) (out os : List Object)
      → list_from c s st n token out ≡ ok os
      → os ≡ out ++ from token
  unfolding list_from
  list_from-ok zero token out os h = ground arith
  list_from-ok (suc n) token out os h =
      after_list-ok (list_from c s st n) token out os _ refl
        (λ t o h'. list_from-ok n (some t) o os h') h

  after_list-done :
      (more : Option Text → List Object → Result (List Object)) (token : Option Text)
      (out : List Object) (p : Page)
      → c.list_objects st s.bucket s.prefix token ≡ reply p
      → Issued token
      → ((t : Text) (o : List Object)
          → Issued (some t)
          → l.rank st s.prefix (some t) < l.rank st s.prefix token
          → (os : List Object) × (more (some t) o ≡ ok os))
      → (os : List Object) × (after_list c s more out (reply p) ≡ ok os)
  unfolding after_list
  after_list-done more token out p q issued go = elim (Option-cases (next_page p)) [
    | inl last ↦ rw (after_list, last) (_, refl)
    | inr (t, next) ↦
        rw (after_list, next)
          (go t _ (next_request issued q next) (l.page_more st s.prefix token p t q next).1)
  ]

  list_from-done :
      (n : ℕ) (token : Option Text) (out : List Object)
      → Answers
      → Issued token
      → l.rank st s.prefix token < n
      → (os : List Object) × (list_from c s st n token out ≡ ok os)
  unfolding list_from
  list_from-done zero token out all issued lt = absurd (omega arith)
  list_from-done (suc n) token out all issued lt =
      let (p, q) = all token issued in
      rw q (
        after_list-done (list_from c s st n) token out p q issued
          (λ t o issued' less. list_from-done n (some t) o all issued' (omega arith)))

  -- A listing ends with a list of objects if its requests, the first one and one for each token that
  -- a page of it names, are all answered, if it has time for more of them than there are pages, and
  -- if the service keeps its laws.
  pub list-done :
      (requests : ℕ)
      → Answers
      → l.rank st s.prefix none < requests
      → (os : List Object) × (list c s requests st ≡ ok os)
  unfolding list
  list-done requests all lt = list_from-done requests none [] all first_request lt

  -- A listing that reports no error has, over all its pages, an object of a hash whose time passes a
  -- test exactly if the bucket holds such an artifact and its name is not skipped, if the service
  -- keeps its laws.
  pub list-ok :
      (requests : ℕ) (os : List Object) (k : Text) (p : Time → Bool)
      → list c s requests st ≡ ok os
      → any (λ o. text_eq o.hash k && p o.last_modified) os
        ≡ (not (is_skipped k) && modified_when p (view s l st k))
  unfolding list
  list-ok requests os k p h =
      ap (any (λ o. text_eq o.hash k && p o.last_modified)) (list_from-ok requests none [] os h)
      ∙ unfold from in
        any-page_objects s.prefix k p (l.listing st s.prefix none) (l.listed_under st s.prefix)
        ∙ ap (λ x. not (is_skipped k) && x)
            (l.listed st s.prefix (s.prefix ++ k) p
              ∙ unfold key in rw (has_prefix-append s.prefix k) refl)
