-- ===== src/Tests/Reports.antt =====
-- internal/metrics/metrics.go, internal/nxartifact/inspect.go and internal/store/notifying.go: one
-- run of each.
use nx_cache.Common.{
  ℕ, ◌≡◌, refl, ◌≤◌, has_byte, [], ◌∷◌, codes, length, sum_by, Int64, natural, negative, List, some,
  suc, ◌&&◌, if◌then◌else◌,
}
use nx_cache.Metrics.{no_operations, sample_limit, OperationLog}
use nx_cache.Metrics.Window.{observe_all, observe_all-latest, latest, durations, positive_bytes}
use nx_cache.Store.Types.{TaskInfo, label}
use nx_cache.NxArtifact.Token.{parse_task_token}
use nx_cache.NxArtifact.Token.RoundTrip.{parse_task_token-label}
use nx_cache.Store.Object.{new_object}
use nx_cache.Store.Object.Run.{hit_at}
use nx_cache.Store.Interface.{call, object_store}
use nx_cache.Store.Notifying.{notifying}
use nx_cache.Tests.Alphabet.{ascii}
use nx_cache.Store.Notifying.Laws.{call-notifying, is_nil, is_announced}

abbrev observations : List (Int64 × Int64)
observations = (natural 5, natural 3) ∷ (negative 1, natural 4) ∷ (natural 2, negative 9) ∷ []

observe_all-latest_example :
    ((observe_all no_operations observations).samples
      ≡ latest sample_limit (durations observations))
    × ((observe_all no_operations observations).count ≡ length observations)
    × ((observe_all no_operations observations).bytes ≡ sum_by positive_bytes observations)
    × (length (observe_all no_operations observations).samples ≤ sample_limit)
observe_all-latest_example = observe_all-latest observations

abbrev log : OperationLog
log = record { count = 3; bytes = 7; samples = 5 ∷ 0 ∷ 2 ∷ [] }

abbrev IsSmall : ℕ → Type 0
IsSmall n = n ≤ 5

abbrev task : TaskInfo
task = record { project = codes "web"; target = codes "build"; config = codes "a:b"; kind = [] }

parse_task_token-label_example :
    parse_task_token (label task) ≡ some (codes "web", codes "build", codes "a:b")
unfolding has_byte
parse_task_token-label_example = parse_task_token-label task refl refl refl refl

call-notifying_example :
    call (notifying (object_store ascii) (some suc)) (hit_at (codes "a1") 3) (new_object, 0) ≡ (
      (call (object_store ascii) (hit_at (codes "a1") 3) new_object).0,
      (
        (call (object_store ascii) (hit_at (codes "a1") 3) new_object).1,
        if is_nil (call (object_store ascii) (hit_at (codes "a1") 3) new_object).0
              && is_announced (hit_at (codes "a1") 3)
            then suc 0
            else 0,
      ),
    )
call-notifying_example =
    call-notifying (object_store ascii) suc (hit_at (codes "a1") 3) new_object 0
