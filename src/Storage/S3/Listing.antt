-- ===== src/Storage/S3/Listing.antt =====
-- internal/storage/s3.go: `List`.
use nx_cache.Common.{
  ℕ, suc, zero, Bool, ◌||◌, Option, none, some, List, [], ◌∷◌, ◌++◌, if◌then◌else◌, Text, is_empty,
  has_byte, trim_prefix,
}
use nx_cache.Storage.Types.{Result, Object, failure, ok, err}
use nx_cache.Storage.S3.Sdk.{Client, Reply, reply, refused, Entry, Page}
use nx_cache.Storage.S3.{S3}

abbrev pub or_zero : Option ℕ → ℕ
or_zero none = 0
or_zero (some n) = n

unfoldable pub item : Text → Entry → Object
item hash obj = record {
  hash = hash;
  size = or_zero obj.size;
  last_modified = or_zero obj.last_modified;
}

-- Whether the loop goes on to the next entry with this name.
unfoldable pub is_skipped : Text → Bool
is_skipped hash = is_empty hash || has_byte b'/' hash

-- One pass of the loop over the entries of a page, before what is gathered from the others.
unfoldable pub keyed_item : Text → Entry → Option Text → List Object → List Object
unfolding item is_skipped
keyed_item prefix obj none rest = rest
keyed_item prefix obj (some k) rest =
    if is_skipped (trim_prefix k prefix) then rest else item (trim_prefix k prefix) obj ∷ rest

unfoldable pub page_objects : Text → List Entry → List Object
unfolding keyed_item
page_objects prefix [] = []
page_objects prefix (obj ∷ contents) = keyed_item prefix obj obj.key (page_objects prefix contents)

-- The token of the next page, if the answer is cut off.
unfoldable pub next_page : Page → Option Text
next_page p = elim p.is_truncated [ none ↦ none | some t ↦ if t then p.next_token else none ]

module _ (c : Client) where
  unfoldable pub after_list :
      S3
      → (Option Text → List Object → Result (List Object))
      → List Object
      → Reply Page
      → Result (List Object)
  unfolding page_objects next_page
  after_list s more out (refused e) = err failure
  after_list s more out (reply p) = elim (next_page p) [
    | none ↦ ok (out ++ page_objects s.prefix p.contents)
    | some token ↦ more (some token) (out ++ page_objects s.prefix p.contents)
  ]

  -- The loop over the pages, with the number of requests that the context leaves time for: behind
  -- them the client answers the context's error.
  unfoldable pub list_from : S3 → c.State → ℕ → Option Text → List Object → Result (List Object)
  unfolding after_list
  list_from s st zero token out = err failure
  list_from s st (suc n) token out =
      after_list s (list_from s st n) out (c.list_objects st s.bucket s.prefix token)

  unfoldable pub list : S3 → ℕ → c.State → Result (List Object)
  unfolding list_from
  list s requests st = list_from s st requests none []
