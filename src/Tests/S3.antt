-- ===== src/Tests/S3.antt =====
-- internal/storage/s3.go: the backend over a small service.
use nx_cache.Common.{
  ◌≡◌, refl, ◌⊎◌, Bool, true, false, not, ◌&&◌, none, some, List, [], ◌∷◌, arith, if◌then◌else◌,
  ltb, length, any, ◌≤◌, Text, codes, text_eq, mem, lookup, filter, has_byte, Time, has_prefix,
  trim_prefix,
}
use nx_cache.Storage.Types.{Body, Stored, Object, modified_when, failure, ok, err}
use nx_cache.Storage.S3.{S3, key, keys_of, put, delete, delete_batches}
use nx_cache.Storage.S3.Listing.{is_skipped, list}
use nx_cache.Storage.S3.Objects.{view, put-takes, delete-removes, delete-refused}
use nx_cache.Storage.S3.Complete.{Answers, list-done, list-ok}
use nx_cache.Storage.S3.Delete.{RefusesNone}
use nx_cache.Storage.S3.Meta.{put_meta, get_meta, get_meta-put_meta}
use nx_cache.Tests.Bucket.{
  Bucket, bucket_client, bucket_laws, none_locked, entries_under, put_error,
}

abbrev s3 : S3
s3 = record { bucket = codes "b"; prefix = codes "nx/" }

abbrev old : Stored
old = record { content = codes "old"; modified = 3 }

one_key : mem (codes "nx/a1") [] ≡ false
unfolding mem
one_key = refl

abbrev holding : Bucket
holding = record { held = (codes "nx/a1", old) ∷ []; distinct = (one_key, tt) }

abbrev body : Body
body = record { bytes = codes "xyz"; broken = false }

put_done : (put (bucket_client []) s3 holding (codes "b2") body 3).0 ≡ none
unfolding put put_error text_eq lookup
put_done = refl

put-takes_example :
    (view s3 (bucket_laws [] (codes "b")) holding (codes "b2") ≡ none)
    × (3 ≤ length (codes "xyz"))
    × ((j : Text)
        → view s3
            (bucket_laws [] (codes "b"))
            (put (bucket_client []) s3 holding (codes "b2") body 3).1
            j
          ≡ (if text_eq (codes "b2") j
              then some (record { content = codes "xyz"; modified = 5 })
              else view s3 (bucket_laws [] (codes "b")) holding j))
put-takes_example = put-takes s3 (bucket_laws [] (codes "b")) holding (codes "b2") body 3 put_done

refuses_none : RefusesNone s3 (bucket_laws [] (codes "b")) (key s3)
refuses_none st ks h = none_locked ks

delete_done : (delete (bucket_client []) s3 holding (codes "a1" ∷ [])).0 ≡ none
unfolding delete delete_batches
delete_done = refl

delete-removes_example :
    view s3
      (bucket_laws [] (codes "b"))
      (delete (bucket_client []) s3 holding (codes "a1" ∷ [])).1
      (codes "a1")
    ≡ none
unfolding mem text_eq
delete-removes_example =
    delete-removes s3 (bucket_laws [] (codes "b")) holding (codes "a1" ∷ []) (codes "a1")
      refuses_none delete_done

locked_key :
    mem (codes "nx/a1") (filter (λ k. mem k (codes "nx/a1" ∷ [])) (codes "nx/a1" ∷ [])) ≡ true
unfolding mem text_eq
locked_key = refl

delete-refused_example :
    ((delete (bucket_client (codes "nx/a1" ∷ [])) s3 holding (codes "a1" ∷ [])).0 ≡ none)
    × (view s3
          (bucket_laws (codes "nx/a1" ∷ []) (codes "b"))
          (delete (bucket_client (codes "nx/a1" ∷ [])) s3 holding (codes "a1" ∷ [])).1
          (codes "a1")
        ≡ view s3 (bucket_laws (codes "nx/a1" ∷ []) (codes "b")) holding (codes "a1"))
unfolding key keys_of mem
delete-refused_example =
    delete-refused s3 (bucket_laws (codes "nx/a1" ∷ []) (codes "b")) holding (codes "a1") []
      (codes "a1") (omega arith) refl locked_key

answers : Answers s3 (bucket_laws [] (codes "b")) holding
answers token issued = (_, refl)

list-done_example : (os : List Object) × (list (bucket_client []) s3 2 holding ≡ ok os)
list-done_example = list-done s3 (bucket_laws [] (codes "b")) holding 2 answers (omega arith)

abbrev found : List Object
found = record { hash = codes "a1"; size = 3; last_modified = 3 } ∷ []

list_found : list (bucket_client []) s3 2 holding ≡ ok found
unfolding list entries_under has_prefix trim_prefix has_byte
list_found = refl

abbrev early : Time → Bool
early t = ltb t 4

list-ok_example : any (λ o. text_eq o.hash (codes "a1") && early o.last_modified) found ≡ (
    not (is_skipped (codes "a1"))
    && modified_when early (view s3 (bucket_laws [] (codes "b")) holding (codes "a1")))
list-ok_example =
    list-ok s3 (bucket_laws [] (codes "b")) holding 2 found (codes "a1") early list_found

meta_written : (put_meta (bucket_client []) s3 holding (codes "stats") (codes "{}")).0 ≡ none
unfolding put_meta put_error
meta_written = refl

get_meta-put_meta_example :
    (get_meta
        (bucket_client [])
        s3
        (put_meta (bucket_client []) s3 holding (codes "stats") (codes "{}")).1
        (codes "stats")
      ≡ ok (codes "{}"))
    ⊎ (get_meta
          (bucket_client [])
          s3
          (put_meta (bucket_client []) s3 holding (codes "stats") (codes "{}")).1
          (codes "stats")
        ≡ err failure)
get_meta-put_meta_example =
    get_meta-put_meta s3 (bucket_laws [] (codes "b")) holding (codes "stats") (codes "{}")
      meta_written
