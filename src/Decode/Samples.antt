-- ===== src/Decode/Samples.antt =====
-- Which samples a decoded batch comes from, and when decoding yields a batch
-- (pkg/scraper/client/resource/decode.go).
use mathlib.Core.Path.{subst}
use metrics_server.Prelude.{
  ◌≡◌, refl, none, List, [], ◌∷◌, ◌||◌, eqb, ◌⊎◌, arith, GoString, Option-cases, Bool-cases, inl,
  inr,
}
use metrics_server.Prelude.Int.{ℤ}
use metrics_server.Prelude.Dict.{insert}
use metrics_server.Go.Time.{is_zero}
use metrics_server.Go.Float.{Floats}
use metrics_server.Go.Result.{ok}
use metrics_server.Storage.Types.{MetricsPoint, MetricsBatch}
use metrics_server.Decode.Tracked.{last_value, last_time, value_or_zero, decode_entries-Tracks}
use metrics_server.Decode.Sampled.{IsSampled, decode_entries-IsValid, start-IsValid}
use metrics_server.Decode.Complete.{IsComplete, finished}
use metrics_server.Series.{node_cpu_usage_metric_name, node_mem_usage_metric_name}
use metrics_server.Decode.{
  Entry, Response, start, nanos, decode_entries, complete_node, finish, decode_batch,
}

abbrev pub HasZero : MetricsPoint → Type 0
HasZero point = (point.cumulative_cpu_used ≡ 0) ⊎ (point.memory_usage ≡ 0)

complete_node_shape :
    (node_name : GoString) (node : MetricsPoint)
    → IsSampled node
    → ((complete_node node_name node ≡ []) × HasZero node)
      ⊎ ((complete_node node_name node ≡ (node_name, node) ∷ []) × IsComplete node)
unfolding complete_node insert
complete_node_shape node_name node h =
    elim (Bool-cases
      (is_zero node.timestamp || eqb node.cumulative_cpu_used 0 || eqb node.memory_usage 0)) [
        | inl e ↦ inl (rw e refl, ground arith)
        | inr e ↦ inr (rw e refl, finished node h (ground arith))
      ]

module _ {F : Type 0} (fl : Floats F) where
  -- The counters are those of the last sample of either node metric, and 0 without a sample; the time
  -- is that of the last sample of the two, where a sample without a timestamp has the default one.
  pub record IsNodeOf (default_timestamp : ℤ) (entries : List (Entry F)) (point : MetricsPoint)
      : Type 0 where
    pub cpu_last :
        point.cumulative_cpu_used
        ≡ value_or_zero
            (λ v. fl.to_uint64 (nanos fl v))
            (last_value node_cpu_usage_metric_name entries none)
    pub memory_last :
        point.memory_usage
        ≡ value_or_zero fl.to_uint64 (last_value node_mem_usage_metric_name entries none)
    pub timed_last : point.timestamp ≡ last_time default_timestamp entries 0

  abbrev pub NodesOf : ℤ → Response F → GoString → MetricsBatch → Type 0
  NodesOf default_timestamp response node_name batch =
      (point : MetricsPoint) × IsNodeOf default_timestamp response.entries point
      × (((batch.nodes ≡ []) × HasZero point)
          ⊎ ((batch.nodes ≡ (node_name, point) ∷ []) × IsComplete point))

  -- A decoded batch has one node at most, the one that was asked, with the counters of the last
  -- samples of the two node metrics and the time of the last of these, where a sample without a
  -- timestamp has the time of the request; it has no node exactly where one of the counters is zero,
  -- and thus also has one whose samples have no timestamp, or the timestamp 0.
  pub decode_batch-node :
      (response : Response F) (default_timestamp : ℤ) (node_name : GoString) (batch : MetricsBatch)
      → decode_batch fl response default_timestamp node_name ≡ ok batch
      → NodesOf default_timestamp response node_name batch
  unfolding decode_batch finish
  decode_batch-node response u node_name batch e =
      elim (Option-cases (decode_entries fl u response.entries start)) [
        | inl stopped ↦ absurd (ground arith)
        | inr (d, done) ↦
            let t =
              decode_entries-Tracks fl u response.entries start d none none 0
                (record { cpu_used = refl; memory_used = refl; timed = refl }) done in
            let v = decode_entries-IsValid fl u response.entries start d start-IsValid done in
            let same : finish node_name d ≡ batch = ground arith in
            subst (NodesOf u response node_name) same (
              d.node,
              record { cpu_last = t.cpu_used; memory_last = t.memory_used; timed_last = t.timed },
              complete_node_shape node_name d.node v.node,
            )
      ]
