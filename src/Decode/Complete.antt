-- ===== src/Decode/Complete.antt =====
-- The points of a decoded batch are complete (pkg/scraper/client/resource/decode.go).
use mathlib.Core.Option.{some-injective}
use mathlib.Core.Path.{subst}
use metrics_server.Prelude.{
  ◌<◌, ◌≡◌, some, [], ◌∷◌, false, arith, GoString, gostring_eq, ◌||◌, eqb, length, Option-cases,
  inl, inr, Bool-cases,
}
use metrics_server.Prelude.Int.{ℤ}
use metrics_server.Prelude.Dict.{insert}
use metrics_server.Go.Time.{is_zero}
use metrics_server.Go.Float.{Floats}
use metrics_server.Go.Result.{ok}
use metrics_server.Kube.{namespaced_name_eq}
use metrics_server.Storage.Types.{MetricsPoint, MetricsBatch}
use metrics_server.Storage.Pod.{Points, Pods}
use metrics_server.Decode.Kept.{AllPoints, AllPods, insert-AllPoints, insert-AllPods}
use metrics_server.Decode.{
  Response, start, check_containers, check_container_metrics, complete_pods, complete_node,
  is_empty, is_incomplete, decode_entries, finish, decode_batch,
}
use metrics_server.Decode.Sampled.{IsSampled, start-IsValid, decode_entries-IsValid}

-- Both counters have been sampled, at a time.
pub record IsComplete (point : MetricsPoint) : Type 0 where
  pub sampled : IsSampled point
  pub cpu_used : 0 < point.cumulative_cpu_used
  pub memory_used : 0 < point.memory_usage
  pub timed : 0 < point.timestamp

pub finished :
    (point : MetricsPoint) → IsSampled point → is_incomplete point ≡ false → IsComplete point
finished point h e = ground arith

complete_node-All :
    (node_name : GoString) (node : MetricsPoint)
    → IsSampled node
    → AllPoints IsComplete (complete_node node_name node)
unfolding complete_node insert
complete_node-All node_name node h =
    elim (Bool-cases
      (is_zero node.timestamp || eqb node.cumulative_cpu_used 0 || eqb node.memory_usage 0)) [
        | inl e ↦ rw e tt
        | inr e ↦ rw e (finished node h (ground arith), tt)
      ]

check_containers-All :
    (points metrics result : Points)
    → AllPoints IsSampled points
    → AllPoints IsComplete metrics
    → check_containers points metrics ≡ some result
    → AllPoints IsComplete result
unfolding check_containers
check_containers-All [] metrics result p h e =
    subst (AllPoints IsComplete) (some-injective metrics result e) h
check_containers-All ((name, point) ∷ points) metrics result p h e =
    elim (Bool-cases (is_empty point)) [
      | inl empty ↦ check_containers-All points metrics result p.1 h (ground arith)
      | inr used ↦ elim (Bool-cases (is_incomplete point)) [
        | inl lacking ↦ absurd (ground arith)
        | inr full ↦
            check_containers-All points (insert name point metrics) result p.1
              (insert-AllPoints IsComplete name point metrics (finished point p.0 full) h)
              (ground arith)
      ]
    ]

complete_pods-All :
    (pods res : Pods)
    → AllPods IsSampled pods
    → AllPods IsComplete res
    → AllPods IsComplete (complete_pods pods res)
unfolding complete_pods
complete_pods-All [] res p h = h
complete_pods-All ((ref, pod) ∷ pods) res p h = elim (Bool-cases (eqb (length pod.containers) 0)) [
  | inl e ↦ rw (e, complete_pods) (complete_pods-All pods res p.1 h)
  | inr e ↦ elim (Option-cases (check_container_metrics pod)) [
    | inl nil ↦ rw (e, nil, complete_pods) (complete_pods-All pods res p.1 h)
    | inr (points, full) ↦
        rw (e, full, complete_pods)
          (complete_pods-All pods _ p.1 (
            insert-AllPods IsComplete ref points res
              (unfold check_container_metrics in
                check_containers-All pod.containers [] points p.0 tt full)
              h))
  ]
]

module _ {F : Type 0} (fl : Floats F) where
  -- A batch that is decoded from a response, whatever the response holds, has only points whose CPU
  -- counter and memory size are not zero, fit a uint64, and carry a timestamp.
  pub decode_batch-AllComplete :
      (response : Response F) (default_timestamp : ℤ) (node_name : GoString) (batch : MetricsBatch)
      → decode_batch fl response default_timestamp node_name ≡ ok batch
      → AllPoints IsComplete batch.nodes × AllPods IsComplete batch.pods
  unfolding decode_batch
  decode_batch-AllComplete response t node_name batch e =
      elim (Option-cases (decode_entries fl t response.entries start)) [
        | inl stopped ↦ absurd (ground arith)
        | inr (d, done) ↦
            let v = decode_entries-IsValid fl t response.entries start d start-IsValid done in
            let same : finish node_name d ≡ batch = ground arith in
            subst (λ b. AllPoints IsComplete b.nodes × AllPods IsComplete b.pods) same
              (complete_node-All node_name d.node v.node, complete_pods-All d.pods [] v.pods tt)
      ]
