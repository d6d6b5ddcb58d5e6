-- ===== src/Store/Notifying/Laws.antt =====
-- internal/store/notifying.go: one notification for each change that succeeds, and no other effect.
use nx_cache.Common.{
  ◌≡◌, refl, ap, ◌∙◌, arith, Text, is_empty, lookup, lookup-insert, text_eq_refl, Bool, true, false,
  not, ◌&&◌, Option, none, some, [], ◌∷◌, if◌then◌else◌,
}
use nx_cache.Storage.Types.{Fault}
use nx_cache.Store.Types.{is_empty_info, fill_info, Letters, TaskInfo, Entry}
use nx_cache.Store.Object.Run.{
  Operation, upsert, hit_at, miss_at, delete_all, ensure, update, put_back,
}
use nx_cache.Store.Interface.{call, Store, object_store}
use nx_cache.Store.Object.{Catalog}
use nx_cache.Store.Object
use nx_cache.Store.Notifying.{
  announce, upsert_entry, record_hit, record_miss, delete, ensure_entry, update_task_info, seed,
  notifying,
}

-- An update that has a configuration and no other text.
abbrev pub only_config : TaskInfo → Bool
only_config info =
    is_empty info.project
    && is_empty info.target
    && is_empty info.kind
    && not (is_empty info.config)

-- The calls that ask for no change: a deletion of nothing, and an update without a text.
abbrev pub is_void : Operation → Bool
is_void (delete_all []) = true
is_void (update hash info) =
    is_empty info.project && is_empty info.target && is_empty info.config && is_empty info.kind
is_void _ = false

abbrev pub sets_only_config : Operation → Bool
sets_only_config (update hash info) = only_config info
sets_only_config _ = false

abbrev pub is_announced : Operation → Bool
is_announced op = not (is_void op) && not (sets_only_config op)

is_announced-update :
    (hash : Text) (info : TaskInfo) → not (is_empty_info info) ≡ is_announced (update hash info)
unfolding is_empty_info
is_announced-update hash info = ground arith

abbrev pub is_nil : Option Fault → Bool
is_nil none = true
is_nil (some e) = false

module _ (inner : Store) {N : Type 0} (f : N → N) where
  announce_lem :
      (announced : Bool) (r : Option Fault × inner.State) (n : N)
      → announce inner (some f) announced r n
        ≡ (r.0, (r.1, if is_nil r.0 && announced then f n else n))
  unfolding announce
  announce_lem announced (none, s) n = refl
  announce_lem announced (some e, s) n = refl

  -- A call through the wrapper returns what the call of the store inside returns and leaves the
  -- state that it leaves; the notifier is told once if it succeeded, and else not. It is not told of
  -- a call that asks for no change, nor of an update that has only a configuration, although that one
  -- may change the store.
  pub call-notifying :
      (op : Operation) (s : inner.State) (n : N)
      → call (notifying inner (some f)) op (s, n) ≡ (
        (call inner op s).0,
        ((call inner op s).1, if is_nil (call inner op s).0 && is_announced op then f n else n),
      )
  unfolding call upsert_entry record_hit record_miss delete ensure_entry update_task_info seed
  call-notifying (upsert hash size at info) s n =
      announce_lem true (inner.upsert_entry hash size at info s) n
  call-notifying (hit_at hash at) s n = announce_lem true (inner.record_hit hash at s) n
  call-notifying (miss_at at) s n = announce_lem true (inner.record_miss at s) n
  call-notifying (delete_all []) s n = announce_lem false (inner.delete [] s) n
  call-notifying (delete_all (h ∷ hs)) s n = announce_lem true (inner.delete (h ∷ hs) s) n
  call-notifying (ensure hash size at) s n = announce_lem true (inner.ensure_entry hash size at s) n
  call-notifying (update hash info) s n =
      announce_lem (not (is_empty_info info)) (inner.update_task_info hash info s) n
      ∙ ap
          (λ told. (
            (inner.update_task_info hash info s).0,
            (
              (inner.update_task_info hash info s).1,
              if is_nil (inner.update_task_info hash info s).0 && told then f n else n,
            ),
          ))
          (is_announced-update hash info)
  call-notifying (put_back e) s n = announce_lem true (inner.seed e s) n

fill_info-only_config :
    (old info : TaskInfo)
    → only_config info ≡ true
    → fill_info old info ≡ record old { config = info.config }
unfolding fill_info
fill_info-only_config old info h = ground arith

is_empty_info-only_config : (info : TaskInfo) → only_config info ≡ true → is_empty_info info ≡ true
unfolding is_empty_info
is_empty_info-only_config info h = ground arith

-- The catalog in memory takes over a configuration that comes alone, and its wrapper tells no one.
config_unseen :
    {N : Type 0}
    → (u : Letters) (f : N → N) (hash : Text) (info : TaskInfo) (e : Entry) (o : Catalog) (n : N)
    → lookup hash o.entries ≡ some e
    → only_config info ≡ true
    → (lookup hash
          (call (notifying (object_store u) (some f)) (update hash info) (o, n)).1.0.entries
        ≡ some (record e { info = record e.info { config = info.config } }))
      × ((call (notifying (object_store u) (some f)) (update hash info) (o, n)).1.1 ≡ n)
unfolding call announce update_task_info Object.update_task_info
config_unseen u f hash info e o n there alone =
    rw (there, is_empty_info-only_config info alone)
      (
        lookup-insert hash hash (record e { info = fill_info e.info info }) o.entries
            ∙ rw (text_eq_refl hash, fill_info-only_config e.info info alone) refl,
        refl,
      )
