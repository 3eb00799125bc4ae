-- ===== src/Tests/Viewed.antt =====
-- Two scrapes of two nodes, whose maps a run of the program has in either order.
use mathlib.Core.Quot
use metrics_server.Prelude.{◌*◌, ◌≡◌, refl, [], ◌∷◌, map, gostring_eq, str, arith}
use metrics_server.Prelude.Dict.{lookup}
use metrics_server.Go.Time.{second}
use metrics_server.Go.Float.{fractions}
use metrics_server.Storage.Types.{MetricsBatch, MetricsPoint}
use metrics_server.Storage.Pod.Reports.{item_ref}
use metrics_server.Storage.{Storage, new_storage, get_node_metrics, get_pod_metrics}
use metrics_server.Storage.Served.{run}
use metrics_server.Storage.Same.{SameBatch, SamePoints}
use metrics_server.Storage.Same.View.{View, put_all, node_answers, pod_answers, answers-put_all}
use metrics_server.Tests.Data.{
  Scaled, scaled, clock, minute, node_a, node_b, pod_x, point, first_batch, second_batch,
}

-- The second node beside the first, after it and before it.
abbrev after_a : MetricsBatch → MetricsPoint → MetricsBatch
after_a batch p = record batch { nodes = (str "a", p) ∷ (str "b", p) ∷ [] }

abbrev before_a : MetricsBatch → MetricsPoint → MetricsBatch
before_a batch p = record batch { nodes = (str "b", p) ∷ (str "a", p) ∷ [] }

either_order :
    (p : MetricsPoint)
    → SamePoints ((str "a", p) ∷ (str "b", p) ∷ []) ((str "b", p) ∷ (str "a", p) ∷ [])
unfolding lookup
either_order p name = ground arith

abbrev early : MetricsPoint
early = point 0 (100 * second) (5 * second)

abbrev late : MetricsPoint
late = point 0 (160 * second) (35 * second)

abbrev view : View
view =
    put_all (after_a first_batch early ∷ after_a second_batch late ∷ [])
      (Quot.mk (new_storage minute))

abbrev stored : Storage
stored = run (new_storage minute) (before_a first_batch early ∷ before_a second_batch late ∷ [])

in_either_order : (b : MetricsBatch) (p : MetricsPoint) → SameBatch (after_a b p) (before_a b p)
in_either_order b p = record {
  nodes = either_order p;
  pods = record { has = λ ref. refl; at = λ ref name. refl };
}

Scaled-set : IsSet Scaled
Scaled-set = hlevel

answers-put_all_example :
    (node_answers fractions scaled clock Scaled-set (node_a ∷ node_b ∷ []) view
      ≡ get_node_metrics fractions scaled stored clock (node_a ∷ node_b ∷ []))
    × (pod_answers fractions scaled clock (pod_x ∷ []) view
        ≡ map item_ref (get_pod_metrics fractions scaled stored clock (pod_x ∷ [])))
answers-put_all_example =
    answers-put_all fractions scaled clock Scaled-set minute
      (after_a first_batch early ∷ after_a second_batch late ∷ [])
      (before_a first_batch early ∷ before_a second_batch late ∷ [])
      (in_either_order first_batch early, (in_either_order second_batch late, tt))
      (node_a ∷ node_b ∷ []) (pod_x ∷ [])
