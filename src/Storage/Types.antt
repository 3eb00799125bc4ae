-- ===== src/Storage/Types.antt =====
-- pkg/storage/types.go: metric points, and the resource usage between two of them.
pub mod Usage
use metrics_server.Prelude.{ℕ, ◌-◌, ◌/◌, ◌^◌, [], ◌∷◌, GoString, ltb, if◌then◌else◌}
use metrics_server.Prelude.Int.{ℤ, pos, negsuc, to_int64, ◌+ℤ◌}
use metrics_server.Prelude.Dict.{Dict}
use metrics_server.Go.Time.{Time, Duration, before, sub}
use metrics_server.Go.Float.{Floats}
use metrics_server.Go.Result.{Result, ok, err}
use metrics_server.Kube.{
  NamespacedName, Quantities, Format, decimal_si, binary_si, ResourceList, resource_cpu,
  resource_memory,
}

-- Times of the zero time stand for a field that no sample has set. The two counters are uint64.
pub record MetricsPoint : Type 0 where
  pub start_time : Time
  pub timestamp : Time
  pub cumulative_cpu_used : ℕ
  pub memory_usage : ℕ

-- `MetricsPoint{}`, which is also what a read of a missing key of a map of points gives
abbrev pub zero_point : MetricsPoint
zero_point = record { start_time = 0; timestamp = 0; cumulative_cpu_used = 0; memory_usage = 0 }

pub record PodMetricsPoint : Type 0 where
  pub containers : Dict GoString MetricsPoint

pub record MetricsBatch : Type 0 where
  pub nodes : Dict GoString MetricsPoint
  pub pods : Dict NamespacedName PodMetricsPoint

-- api.TimeInfo
pub record TimeInfo : Type 0 where
  pub timestamp : Time
  pub window : Duration

pub data UsageError : Type 0 where
  start_time_decrease cpu_decrease : UsageError

abbrev pub max_int64 : ℕ
max_int64 = 2 ^ 63 - 1

module _ {Q : Type 0} (qs : Quantities Q) where
  open qs use {new_scaled_quantity, with_format}

  -- The scale is an int32; the program's scales are -9 and 0.
  unfoldable pub uint64_quantity : ℕ → Format → ℤ → Q
  uint64_quantity val format scale =
      let q = new_scaled_quantity (to_int64 val) scale in
      let lossy = new_scaled_quantity (to_int64 (val / 10)) (pos 1 +ℤ scale) in
      with_format (if ltb max_int64 val then lossy else q) format

module _ {F Q : Type 0} (fl : Floats F) (qs : Quantities Q) where
  open fl use {of_uint64, seconds, div, to_uint64}

  unfoldable pub cpu_usage : MetricsPoint → MetricsPoint → ℕ
  cpu_usage last prev =
      let window = sub last.timestamp prev.timestamp in
      to_uint64
        (div (of_uint64 (last.cumulative_cpu_used - prev.cumulative_cpu_used)) (seconds window))

  unfoldable pub resource_usage :
      MetricsPoint → MetricsPoint → Result UsageError (ResourceList Q × TimeInfo)
  unfolding cpu_usage
  resource_usage last prev =
      if before last.start_time prev.start_time
      then err start_time_decrease
      else if ltb last.cumulative_cpu_used prev.cumulative_cpu_used
      then err cpu_decrease
      else ok (
        (resource_cpu, uint64_quantity qs (cpu_usage last prev) decimal_si (negsuc 8))
            ∷ (resource_memory, uint64_quantity qs last.memory_usage binary_si (pos 0))
            ∷ [],
        record { timestamp = last.timestamp; window = sub last.timestamp prev.timestamp },
      )
