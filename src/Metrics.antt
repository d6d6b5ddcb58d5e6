-- ===== src/Metrics.antt =====
-- internal/metrics/metrics.go: counts and a bounded window of latencies. A duration is an int64 of
-- nanoseconds; `count` and `bytes` are int64 in the source, and only grow.
pub mod Window
use nx_cache.Common.{
  ℕ, ◌-◌, ◌+◌, ◌/◌, ◌*◌, ◌<◌, ap, Bool, List, [], ◌∷◌, ◌++◌, ltb, ◌==◌, if◌then◌else◌, length,
  get_or, drop, cut, Int64, natural, negative, second, sort_slice,
}

abbrev pub sample_limit : ℕ
sample_limit = 512

pub record OperationLog : Type 0 where
  pub count : ℕ
  pub bytes : ℕ
  pub samples : List ℕ

pub record Collector : Type 0 where
  pub reads : OperationLog
  pub writes : OperationLog

abbrev pub no_operations : OperationLog
no_operations = record { count = 0; bytes = 0; samples = [] }

abbrev pub new_collector : Collector
new_collector = record { reads = no_operations; writes = no_operations }

-- if duration < 0 { duration = 0 }
abbrev pub clamp_duration : Int64 → ℕ
clamp_duration (natural n) = n
clamp_duration (negative n) = 0

-- if bytes > 0 { op.bytes += bytes }
abbrev pub add_bytes : Int64 → ℕ → ℕ
add_bytes (natural n) total = total + n
add_bytes (negative n) total = total

-- The window: `copy` moves a full one down by one place, and the last place is cut off.
unfoldable pub push_sample : ℕ → List ℕ → List ℕ
push_sample d samples =
    (if length samples == sample_limit then drop 1 samples else samples) ++ d ∷ []

unfoldable pub observe : OperationLog → Int64 → Int64 → OperationLog
unfolding push_sample
observe op duration bytes = record {
  count = op.count + 1;
  bytes = add_bytes bytes op.bytes;
  samples = push_sample (clamp_duration duration) op.samples;
}

unfoldable pub observe_read : Int64 → Int64 → Collector → Collector
unfolding observe
observe_read duration bytes c = record c { reads = observe c.reads duration bytes }

unfoldable pub observe_write : Int64 → Int64 → Collector → Collector
unfolding observe
observe_write duration bytes c = record c { writes = observe c.writes duration bytes }

pub record OperationStats : Type 0 where
  pub count : ℕ
  pub bytes : ℕ
  pub samples : ℕ
  pub p50 : ℕ
  pub p95 : ℕ

unfoldable pub percentile : List ℕ → ℕ → ℕ
percentile [] p = 0
percentile (x ∷ xs) p = get_or (x ∷ xs) ((length (x ∷ xs) - 1) * p / 100) 0

abbrev pub shorter : ℕ → ℕ → Bool
shorter a b = ltb a b

unfoldable pub summarize : OperationLog → OperationStats
unfolding percentile
summarize op =
    let samples = sort_slice shorter op.samples in
    record {
      count = op.count;
      bytes = op.bytes;
      samples = length samples;
      p50 = percentile samples 50;
      p95 = percentile samples 95;
    }

pub record MetricsSnapshot : Type 0 where
  pub reads : OperationStats
  pub writes : OperationStats

unfoldable pub snapshot : Collector → MetricsSnapshot
unfolding summarize
snapshot c = record { reads = summarize c.reads; writes = summarize c.writes }
