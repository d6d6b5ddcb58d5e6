-- ===== src/Tests/Uploads.antt =====
-- internal/cacheapi/handler.go and internal/storage/storage.go: uploads into the backend and the
-- catalog in memory.
use nx_cache.Common.{
  ◌≡◌, arith, refl, Text, none, some, [], codes, natural, true, false, text_eq, parse_int, lookup,
  insert,
}
use nx_cache.Storage.Types.{Stored}
use nx_cache.Storage.Memory.{new_memory}
use nx_cache.Storage.Memory.Laws.{memory_backend, memory_laws, memory_view, put-stores}
use nx_cache.Storage.Memory
use nx_cache.Store.Types.{TaskInfo, no_info}
use nx_cache.Store.Object.{new_object}
use nx_cache.Store.Interface.{object_store}
use nx_cache.NxArtifact.Kind.{TaskHeaders}
use nx_cache.Cleanup.{Cleaner}
use nx_cache.Store.Object
use nx_cache.CacheApi.{valid_hash, put, get, Config, Moments, PutRequest, World}
use nx_cache.CacheApi.Preserves.{put-keeps}
use nx_cache.Tests.Alphabet.{ascii}
use nx_cache.CacheApi.Uploads.{Accepted, IsLimited, put-Accepted, get-put}

abbrev pub no_headers : TaskHeaders
no_headers = record {
  x_project = [];
  project = [];
  x_target = [];
  target = [];
  x_configuration = [];
  configuration = [];
}

abbrev pub cleaner : Cleaner
cleaner = record { ttl = 100; last_run = 0; min_gap = 10 }

abbrev pub config : Config
config = record { cleanup_on_save = true; max_upload = natural 8; has_cleaner = true }

abbrev pub moments : Moments
moments = record { now = 7; elapsed = natural 2; notified = 8; since = 9; launched = 9 }

abbrev upload : PutRequest
upload = record {
  hash = codes "a1";
  content_length = codes "3";
  headers = no_headers;
  body = record { bytes = codes "xyz"; broken = false };
}

abbrev pub empty_world : World memory_backend (object_store ascii)
empty_world = record {
  backend = new_memory 5;
  store = new_object;
  metrics = none;
  hub = none;
  cleaner = cleaner;
  runs = 0;
}

abbrev pub inspect : Text → TaskInfo
inspect content = no_info

abbrev after_upload : World memory_backend (object_store ascii)
after_upload = (put inspect config moments upload empty_world).1

accepted : (put inspect config moments upload empty_world).0.status ≡ 200
unfolding put valid_hash parse_int Memory.exists lookup new_memory Memory.put Object.upsert_entry
accepted = refl

limited : IsLimited memory_laws upload empty_world
limited n q t = omega (arith, (put-stores empty_world.backend (codes "a1") upload.body n t).1)

put-Accepted_example :
    Accepted memory_laws upload empty_world (put inspect config moments upload empty_world).1
put-Accepted_example =
    put-Accepted memory_laws inspect config moments upload empty_world limited accepted

abbrev pub kept : Stored
kept = record { content = codes "old"; modified = 4 }

abbrev pub full_world : World memory_backend (object_store ascii)
full_world = record empty_world {
  backend =
      (Memory.put (new_memory 4) (codes "b2") (record { bytes = codes "old"; broken = false }) 3).1;
}

put-keeps_example :
    memory_view (put inspect config moments upload full_world).1.backend (codes "b2") ≡ some kept
unfolding lookup Memory.put new_memory insert text_eq
put-keeps_example =
    put-keeps memory_laws inspect config moments upload full_world (codes "b2") kept refl

served : (get moments (codes "a1") after_upload).0.status ≡ 200
unfolding put get valid_hash parse_int Memory.exists lookup new_memory Memory.put Memory.get insert
    text_eq Object.upsert_entry
served = refl

get-put_example : (get moments (codes "a1") after_upload).0.body ≡ codes "xyz"
get-put_example =
    get-put memory_laws inspect config moments moments upload empty_world limited accepted served
