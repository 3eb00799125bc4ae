-- ===== src/Storage/Pod/Ordered.antt =====
-- The order of the two stored points of a container, and where the previous point comes from
-- (pkg/storage/pod.go).
use metrics_server.Prelude.{Option, none, some, GoString, gostring_eq, arith, ◌>>=?◌}
use metrics_server.Prelude.Dict.{lookup}
use metrics_server.Kube.{NamespacedName, namespaced_name_eq}
use metrics_server.Storage.Types.{MetricsPoint, PodMetricsPoint, MetricsBatch}
use metrics_server.Storage.Node.Ordered.{Ordered}
use metrics_server.Storage.Pod.{PodStorage, is_fresh, store}
use metrics_server.Storage.Pod.Containers.{find, kept_point, next_prev}
use metrics_server.Storage.Pod.Lookups.{find-store_last, find-store_prev}

pub record IsOrdered (s : PodStorage) : Type 0 where
  pub at :
      (ref : NamespacedName) (name : GoString)
      → Ordered (find ref name s.last) (find ref name s.prev)

kept_point-Ordered :
    (name : GoString) (last : Option MetricsPoint) (prev : Option PodMetricsPoint)
    (new : MetricsPoint)
    → Ordered (some new) (kept_point name last prev new)
kept_point-Ordered name none prev new = tt
kept_point-Ordered name (some l) none new = ground arith
kept_point-Ordered name (some l) (some pod) new = ground arith

next_prev-Ordered :
    (s : PodStorage) (ref : NamespacedName) (name : GoString) (new : MetricsPoint)
    → Ordered (some new) (next_prev s ref name new)
unfolding is_fresh
next_prev-Ordered s ref name new =
    ground (arith, kept_point-Ordered name (find ref name s.last) (lookup ref s.prev) new)

found-Ordered :
    (s : PodStorage) (ref : NamespacedName) (name : GoString) (new : Option MetricsPoint)
    → Ordered new (new >>=? next_prev s ref name)
found-Ordered s ref name none = tt
found-Ordered s ref name (some new) = next_prev-Ordered s ref name new

-- Whatever was stored before, after Store each previous point is older than the last point of its
-- container, which is there.
pub pod_store-IsOrdered : (s : PodStorage) (batch : MetricsBatch) → IsOrdered (store s batch)
pod_store-IsOrdered s batch = record {
  at = λ ref name.
      rw (find-store_last s batch ref name, find-store_prev s batch ref name)
        (found-Ordered s ref name (find ref name batch.pods));
}
