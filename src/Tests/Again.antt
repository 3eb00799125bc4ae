-- ===== src/Tests/Again.antt =====
-- A kubelet that serves the samples of the last scrape again, of a pod with a new container.
use metrics_server.Prelude.{
  ◌*◌, ◌<◌, ◌≡◌, refl, none, some, [], ◌∷◌, str, GoString, gostring_eq, ◌==◌, Bool-cases, inl, inr,
  arith,
}
use metrics_server.Prelude.Dict.{lookup}
use metrics_server.Go.Time.{second, sub}
use metrics_server.Go.Float.{fractions}
use metrics_server.Kube.{namespaced_name_eq, NamespacedName-discrete}
use metrics_server.Storage.Types.{MetricsPoint, MetricsBatch}
use metrics_server.Storage.Pod.{PodStorage, is_fresh, store}
use metrics_server.Storage.Pod.Containers.{find}
use metrics_server.Storage.Pod.Lookups.{find-store_prev}
use metrics_server.Storage.Pod.Again.{IsServedAgain, store_again-IsServedAgain}
use metrics_server.Tests.Data.{scaled, clock, minute, pod_x, ref_x, point}

abbrev side_before : MetricsPoint
side_before = point (10 * second) (40 * second) 2

-- The pod had the container "side" in the last scrape.
abbrev only_side : PodStorage
only_side = record {
  last = (ref_x, record { containers = (str "side", side_before) ∷ [] }) ∷ [];
  prev = [];
  metric_resolution = minute;
  points_stored = 0;
}

abbrev main : MetricsPoint
main = point (10 * second) (100 * second) 5

abbrev side : MetricsPoint
side = point (10 * second) (100 * second) 7

-- The container "main" has joined.
abbrev both : MetricsBatch
both = record {
  nodes = [];
  pods = (ref_x, record { containers = (str "side", side) ∷ (str "main", main) ∷ [] }) ∷ [];
}

main-unpaired : find ref_x (str "main") (store only_side both).prev ≡ none
unfolding lookup gostring_eq namespaced_name_eq NamespacedName-discrete is_fresh sub
main-unpaired = find-store_prev only_side both ref_x (str "main")

side-paired : find ref_x (str "side") (store only_side both).prev ≡ some side_before
unfolding lookup gostring_eq namespaced_name_eq NamespacedName-discrete is_fresh sub
side-paired = find-store_prev only_side both ref_x (str "side")

main-scraped : find ref_x (str "main") both.pods ≡ some main
unfolding lookup gostring_eq namespaced_name_eq NamespacedName-discrete
main-scraped = refl

started :
    (name : GoString) (q : MetricsPoint)
    → find ref_x name both.pods ≡ some q
    → q.start_time < q.timestamp
unfolding lookup namespaced_name_eq NamespacedName-discrete
started name q e = elim (Bool-cases (name == str "side")) [
  | inl is_side ↦ ground arith
  | inr other ↦ elim (Bool-cases (name == str "main")) [
    | inl is_main ↦ ground arith
    | inr no_other ↦ absurd (ground arith)
  ]
]

store_again-IsServedAgain_example :
    IsServedAgain fractions scaled clock only_side both pod_x (str "main")
store_again-IsServedAgain_example =
    store_again-IsServedAgain fractions scaled clock only_side both pod_x (str "main") (str "side")
      main side_before main-scraped started main-unpaired side-paired
