-- ===== src/Tests/Stored.antt =====
-- The storage after two scrapes, and with a container that started late.
use metrics_server.Prelude.{
  ℕ, ◌*◌, ◌+◌, ◌-◌, ◌^◌, ◌≤◌, ◌<◌, ◌≡◌, ◌↔◌, refl, [], ◌∷◌, map, keep, All, str, true, some, arith,
  ◌>>=?◌, gostring_eq,
}
use metrics_server.Prelude.Int.{pos, ◌+ℤ◌}
use metrics_server.Prelude.Dict.{lookup}
use metrics_server.Go.Time.{second, sub}
use metrics_server.Go.Float.{fractions}
use metrics_server.Kube.{namespaced_name_eq, NamespacedName-discrete, binary_si}
use metrics_server.Storage.{Storage, new_storage, get_node_metrics, get_pod_metrics}
use metrics_server.Storage.Types.{MetricsPoint, MetricsBatch, uint64_quantity, max_int64}
use metrics_server.Storage.Types.Usage.{uint64_quantity_fits}
use metrics_server.Storage.Served.{run, served-Reports}
use metrics_server.Storage.Node
use metrics_server.Storage.Node.Lookups.{chosen, store-prev}
use metrics_server.Storage.Node.Ordered.{store_again}
use metrics_server.Storage.Node.Reports as NodeReports
use metrics_server.Storage.Pod
use metrics_server.Storage.Pod.{PodStorage, is_fresh, pod_ref}
use metrics_server.Storage.Pod.Containers.{find, next_prev}
use metrics_server.Storage.Pod.Lookups.{find-store_prev}
use metrics_server.Storage.Pod.Origin.{fresh-prev, store_again-prev}
use metrics_server.Storage.Pod.Reports as PodReports
use metrics_server.Tests.Data.{
  scaled, clock, minute, node_a, node_b, pod_x, ref_x, point, batch_at, first_batch, second_batch,
}

abbrev filled : Storage
filled = run (new_storage minute) (first_batch ∷ second_batch ∷ [])

served-Reports_example :
    All
      (NodeReports.Reports fractions scaled filled.nodes)
      (get_node_metrics fractions scaled filled clock (node_b ∷ node_a ∷ []))
    × All
        (PodReports.Reports fractions scaled filled.pods)
        (get_pod_metrics fractions scaled filled clock (pod_x ∷ []))
served-Reports_example =
    served-Reports fractions scaled clock minute (first_batch ∷ second_batch ∷ [])
      (node_b ∷ node_a ∷ []) (pod_x ∷ [])

get_metrics-names_example :
    map (λ m. m.name) (Node.get_metrics fractions scaled filled.nodes clock (node_b ∷ node_a ∷ []))
    ≡ map (λ n. n.name) (keep (NodeReports.reportable filled.nodes) (node_b ∷ node_a ∷ []))
get_metrics-names_example =
    NodeReports.get_metrics-names fractions scaled filled.nodes clock (node_b ∷ node_a ∷ [])

get_metrics-refs_example :
    map PodReports.item_ref (Pod.get_metrics fractions scaled filled.pods clock (pod_x ∷ []))
    ≡ map pod_ref (keep (PodReports.reportable filled.pods) (pod_x ∷ []))
get_metrics-refs_example =
    PodReports.get_metrics-refs fractions scaled filled.pods clock (pod_x ∷ [])

store-prev_example :
    lookup (str "a") (Node.store filled.nodes (batch_at (220 * second) (50 * second))).prev
    ≡ chosen
        (lookup (str "a") filled.nodes.last)
        (lookup (str "a") filled.nodes.prev)
        (some (point 0 (220 * second) (50 * second)))
unfolding lookup run gostring_eq
store-prev_example = store-prev filled.nodes (batch_at (220 * second) (50 * second)) (str "a")

store_again_example :
    (lookup (str "a") (Node.store (Node.store filled.nodes second_batch) second_batch).last
      ≡ lookup (str "a") (Node.store filled.nodes second_batch).last)
    × (lookup (str "a") (Node.store (Node.store filled.nodes second_batch) second_batch).prev
        ≡ lookup (str "a") (Node.store filled.nodes second_batch).prev)
store_again_example = store_again filled.nodes second_batch (str "a")

find-store_prev_example :
    find ref_x (str "main") (Pod.store filled.pods second_batch).prev
    ≡ (find ref_x (str "main") second_batch.pods >>=? next_prev filled.pods ref_x (str "main"))
find-store_prev_example = find-store_prev filled.pods second_batch ref_x (str "main")

-- A container that started at second 100 and is scraped at second 120.
abbrev young : MetricsPoint
young = point (100 * second) (120 * second) (3 * second)

abbrev young_batch : MetricsBatch
young_batch = record {
  nodes = [];
  pods = (ref_x, record { containers = (str "main", young) ∷ [] }) ∷ [];
}

young-scraped : find ref_x (str "main") young_batch.pods ≡ some young
unfolding lookup gostring_eq namespaced_name_eq NamespacedName-discrete
young-scraped = refl

young-is_fresh : is_fresh minute young ≡ true
unfolding is_fresh sub
young-is_fresh = refl

fresh_paired :
    find ref_x (str "main") (Pod.store (Pod.empty minute) young_batch).prev
    ≡ some (point (100 * second) (100 * second) 0)
fresh_paired =
    fresh-prev (Pod.empty minute) young_batch ref_x (str "main") young young-scraped young-is_fresh

store_again-prev_example :
    find ref_x (str "main") (Pod.store (Pod.store (Pod.empty minute) young_batch) young_batch).prev
    ≡ some (point (100 * second) (100 * second) 0)
store_again-prev_example =
    store_again-prev (Pod.empty minute) young_batch ref_x (str "main") young young-scraped
      (point (100 * second) (100 * second) 0) (omega arith) fresh_paired

-- The greatest uint64 loses its last digit.
uint64_quantity_fits_example :
    (mantissa digits : ℕ) × (uint64_quantity scaled (2 ^ 64 - 1) binary_si (pos 0)
      ≡ scaled.with_format
          (scaled.new_scaled_quantity (pos mantissa) (pos digits +ℤ pos 0))
          binary_si)
    × (mantissa ≤ max_int64)
    × (mantissa * 10 ^ digits ≤ 2 ^ 64 - 1)
    × (2 ^ 64 - 1 < (mantissa + 1) * 10 ^ digits)
    × (digits ≤ 1)
    × ((2 ^ 64 - 1 ≤ max_int64) ↔ (digits ≡ 0))
uint64_quantity_fits_example =
    uint64_quantity_fits scaled (2 ^ 64 - 1) binary_si (pos 0) (omega arith)

abbrev earlier : MetricsPoint
earlier = point 0 (100 * second) (5 * second)

abbrev later : MetricsPoint
later = point 0 (160 * second) (35 * second)
