-- ===== src/Storage/S3/Laws.antt =====
-- internal/storage/s3.go: what the service behind the client promises, over the objects of a bucket.
use nx_cache.Common.{
  ℕ, ◌≡◌, ◌≤◌, ◌<◌, Bool, true, false, ◌&&◌, Option, none, some, List, ◌++◌, length, take, any,
  sum_by, All, Text, codes, text_eq, has_prefix, mem, Time,
}
use nx_cache.Storage.Types.{Stored, is_some, modified_when}
use nx_cache.Storage.S3.Sdk.{Client, ClientError, reply, refused, Content, Entry, Page, PutInput}
use nx_cache.Storage.S3.{is_not_found}
use nx_cache.Storage.S3.Listing.{or_zero, next_page}

-- Whether an entry of a listing is that of a key.
abbrev pub is_key : Text → Option Text → Bool
is_key k none = false
is_key k (some k') = text_eq k' k

abbrev pub is_under : Text → Option Text → Bool
is_under prefix none = true
is_under prefix (some k) = has_prefix k prefix

abbrev pub only_if_new : Option Text
only_if_new = some (codes "*")

pub record ClientLaws (c : Client) (bucket : Text) : Type 1 where
  pub view : c.State → Text → Option Stored
  pub stamp : c.State → Time
  pub head_found :
      (st : c.State) (k : Text) → c.head_object st bucket k ≡ none → is_some (view st k) ≡ true
  pub head_missing :
      (st : c.State) (k : Text) (e : ClientError)
      → c.head_object st bucket k ≡ some e
      → is_not_found e ≡ true
      → view st k ≡ none
  -- The reads of a body answer its bytes, and a request that succeeds has stored what was read if
  -- that was as much as the request announced.
  pub put_reads :
      (st : c.State) (i : PutInput)
      → sum_by (λ n. n) (c.put_object st i).0.reads ≤ length i.body.bytes
  -- A body of the announced length is read to its end before a request succeeds.
  pub put_all :
      (st : c.State) (i : PutInput)
      → length i.body.bytes ≡ i.content_length
      → i.body.broken ≡ false
      → (c.put_object st i).0.error ≡ none
      → sum_by (λ n. n) (c.put_object st i).0.reads ≡ i.content_length
  pub put_stored :
      (st : c.State) (i : PutInput)
      → i.bucket ≡ bucket
      → (c.put_object st i).0.error ≡ none
      → sum_by (λ n. n) (c.put_object st i).0.reads ≡ i.content_length
      → view (c.put_object st i).1 i.key
        ≡ some (record { content = take i.content_length i.body.bytes; modified = stamp st })
  pub put_other :
      (st : c.State) (i : PutInput) (j : Text)
      → text_eq i.key j ≡ false
      → view (c.put_object st i).1 j ≡ view st j
  -- `If-None-Match: *`: a request that meets an object fails and leaves it as it is.
  pub put_new :
      (st : c.State) (i : PutInput)
      → i.bucket ≡ bucket
      → i.if_none_match ≡ only_if_new
      → (c.put_object st i).0.error ≡ none
      → view st i.key ≡ none
  pub put_refused :
      (st : c.State) (i : PutInput) (o : Stored)
      → i.if_none_match ≡ only_if_new
      → view st i.key ≡ some o
      → view (c.put_object st i).1 i.key ≡ some o
  pub get_found :
      (st : c.State) (k : Text) (out : Content)
      → c.get_object st bucket k ≡ reply out
      → (o : Stored) × (view st k ≡ some o)
        × (o.content ≡ out.bytes)
        × (out.content_length ≡ some (length out.bytes))
  pub get_missing :
      (st : c.State) (k : Text) (e : ClientError)
      → c.get_object st bucket k ≡ refused e
      → is_not_found e ≡ true
      → view st k ≡ none
  -- Without an error every key is gone that the answer has no error for; and such a key, like every
  -- other one, is as before.
  pub delete_gone :
      (st : c.State) (ks : List Text) (j : Text)
      → (c.delete_objects st bucket ks).0 ≡ none
      → mem j ks ≡ true
      → mem j (c.delete_objects st bucket ks).1 ≡ false
      → view (c.delete_objects st bucket ks).2 j ≡ none
  pub delete_refused :
      (st : c.State) (ks : List Text) (j : Text)
      → mem j (c.delete_objects st bucket ks).1 ≡ true
      → view (c.delete_objects st bucket ks).2 j ≡ view st j
  pub delete_other :
      (st : c.State) (ks : List Text) (j : Text)
      → mem j ks ≡ false
      → view (c.delete_objects st bucket ks).2 j ≡ view st j
  -- What the pages from a token on list, and how many there may be.
  pub listing : c.State → Text → Option Text → List Entry
  pub rank : c.State → Text → Option Text → ℕ
  pub page_last :
      (st : c.State) (prefix : Text) (token : Option Text) (p : Page)
      → c.list_objects st bucket prefix token ≡ reply p
      → next_page p ≡ none
      → listing st prefix token ≡ p.contents
  pub page_more :
      (st : c.State) (prefix : Text) (token : Option Text) (p : Page) (t : Text)
      → c.list_objects st bucket prefix token ≡ reply p
      → next_page p ≡ some t
      → (listing st prefix token ≡ p.contents ++ listing st prefix (some t))
        × (rank st prefix (some t) < rank st prefix token)
  pub listed_under :
      (st : c.State) (prefix : Text)
      → All (λ e. is_under prefix e.key ≡ true) (listing st prefix none)
  pub listed :
      (st : c.State) (prefix k : Text) (p : Time → Bool)
      → any (λ e. is_key k e.key && p (or_zero e.last_modified)) (listing st prefix none)
        ≡ (has_prefix k prefix && modified_when p (view st k))
