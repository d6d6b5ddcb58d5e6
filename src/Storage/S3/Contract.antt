-- ===== src/Storage/S3/Contract.antt =====
-- internal/storage/s3.go: `S3` keeps the contract of a backend, where no answer to DeleteObjects
-- without an error has errors for single keys.
use nx_cache.Common.{ℕ, not}
use nx_cache.Storage.Types.{Backend, BackendLaws}
use nx_cache.Storage.S3.Sdk.{Client}
use nx_cache.Storage.S3.{S3, key, exists, put, get, delete}
use nx_cache.Storage.S3.Listing.{is_skipped, list}
use nx_cache.Storage.S3.Laws.{ClientLaws}
use nx_cache.Storage.S3.Delete.{RefusesNone}
use nx_cache.Storage.S3.Objects.{
  view, put-takes, put-Keeps, get-ok, get-not_found, exists-ok, delete-removes, delete-keeps,
}
use nx_cache.Storage.S3.Complete.{list-ok}

-- `requests` is how many requests for pages the context of a listing leaves time for.
abbrev pub s3_backend : Client → S3 → ℕ → Backend
s3_backend c s requests = record {
  State = c.State;
  exists = exists c s;
  put = put c s;
  get = get c s;
  delete = delete c s;
  list = list c s requests;
}

module _ {c : Client} (s : S3) (l : ClientLaws c s.bucket) (requests : ℕ) where
  abbrev pub s3_laws : RefusesNone s l (key s) → BackendLaws (s3_backend c s requests)
  s3_laws all = record {
    view = view s l;
    stamp = l.stamp;
    exists_ok = exists-ok s l;
    put_ok = put-takes s l;
    put_err = λ st k body n e h j o p. put-Keeps s l st k body n j o p;
    get_ok = get-ok s l;
    get_not_found = get-not_found s l;
    delete_ok = λ st ks h j. delete-removes s l st ks j all h;
    delete_keeps = delete-keeps s l;
    IsSound = λ st. Unit;
    put_IsSound = λ st k body n h. tt;
    delete_IsSound = λ st ks h. tt;
    is_listed = λ k. not (is_skipped k);
    list_ok = λ st os k p h q. list-ok s l st requests os k p q;
  }
