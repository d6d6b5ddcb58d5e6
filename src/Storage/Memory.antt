-- ===== src/Storage/Memory.antt =====
-- internal/storage/storage.go: `Memory`, the backend that keeps everything in the process.
pub mod Laws
use nx_cache.Common.{
  ℕ, ◌-◌, ◌+◌, ◌/◌, Bool, not, ◌&&◌, Option, none, some, List, [], ◌∷◌, ltb, ◌==◌, if◌then◌else◌,
  length, take, All, Text, Assoc, lookup, insert, remove, remove_all, mem, keys, Time,
}
use nx_cache.Storage.Types.{
  is_some, Fault, Result, Object, Body, not_found, already_exists, incomplete, failure, ok, err,
}

pub record MemObj : Type 0 where
  pub content : Text
  pub modified : Time

-- `now` is the reading of the clock that `m.now()` returns.
pub record Memory : Type 0 where
  pub objects : Assoc MemObj
  pub metadata : Assoc Text
  pub now : Time

unfoldable pub new_memory : Time → Memory
new_memory t = record { objects = []; metadata = []; now = t }

unfoldable pub exists : Memory → Text → Result Bool
exists m hash = ok (is_some (lookup hash m.objects))

-- io.ReadAll(io.LimitReader(r, n)): the error of the reader is met if the limit is not.
unfoldable pub read_limited : Body → ℕ → Result Text
read_limited r n = if r.broken && ltb (length r.bytes) n then err failure else ok (take n r.bytes)

unfoldable pub store_read : Memory → Text → ℕ → Result Text → Option Fault × Memory
store_read m hash size (err e) = (some e, m)
store_read m hash size (ok content) =
    if not (length content == size)
    then (some incomplete, m)
    else if is_some (lookup hash m.objects)
    then (some already_exists, m)
    else (
      none,
      record m { objects = insert hash (record { content = content; modified = m.now }) m.objects },
    )

unfoldable pub put : Memory → Text → Body → ℕ → Option Fault × Memory
unfolding store_read read_limited
put m hash r size = store_read m hash size (read_limited r (size + 1))

unfoldable pub read_object : Option MemObj → Result (Text × ℕ)
read_object none = err not_found
read_object (some o) = ok (o.content, length o.content)

unfoldable pub get : Memory → Text → Result (Text × ℕ)
unfolding read_object
get m hash = read_object (lookup hash m.objects)

unfoldable pub delete : Memory → List Text → Option Fault × Memory
delete m hashes = (none, record m { objects = remove_all hashes m.objects })

unfoldable pub list_objects : Assoc MemObj → List Object
list_objects [] = []
list_objects ((hash, o) ∷ rest) =
    record { hash = hash; size = length o.content; last_modified = o.modified } ∷ list_objects rest

unfoldable pub list : Memory → Result (List Object)
list m = ok (list_objects m.objects)

unfoldable pub put_meta : Memory → Text → Text → Option Fault × Memory
put_meta m key content = (none, record m { metadata = insert key content m.metadata })

unfoldable pub read_meta : Option Text → Result Text
read_meta none = err not_found
read_meta (some content) = ok content

unfoldable pub get_meta : Memory → Text → Result Text
unfolding read_meta
get_meta m key = read_meta (lookup key m.metadata)

unfoldable pub delete_meta : Memory → List Text → Option Fault × Memory
delete_meta m keys = (none, record m { metadata = remove_all keys m.metadata })

unfoldable pub set_time : Memory → Time → Memory
set_time m t = record m { now = t }
