-- ===== src/Tests/Tabled.antt =====
-- Tables of two nodes, and of a pod with two containers.
use metrics_server.Prelude.{◌≡◌, List, [], ◌∷◌, GoString, gostring_eq, str, length, arith, ltb}
use metrics_server.Prelude.Int.{pos}
use metrics_server.Prelude.Dict.{keys, contains}
use metrics_server.Go.Time.{Duration}
use metrics_server.Go.Sort.{string_lt, sort_slice}
use metrics_server.Kube.{
  NodeMetrics, PodMetrics, ContainerMetrics, ResourceList, resource_cpu, resource_memory,
  decimal_si,
}
use metrics_server.Api.Table.{empty_table, pod_total, add_pod_metrics_to_table}
use metrics_server.Api.Table.Summed.{
  IsSummedTable, values_of, add_pod_metrics_to_table-IsSummedTable,
}
use metrics_server.Tests.Data.{Scaled, scaled, minute}

abbrev in_seconds : Duration → GoString
in_seconds d = str "1m0s"

abbrev used : ResourceList Scaled
used =
    (resource_memory, ((pos 4096, pos 0), decimal_si) ∷ [])
    ∷ (resource_cpu, ((pos 5, pos 0), decimal_si) ∷ [])
    ∷ []

abbrev node_metrics : GoString → NodeMetrics Scaled
node_metrics name = record {
  name = name;
  labels = [];
  creation_timestamp = 1;
  timestamp = 1;
  window = minute;
  usage = used;
}

abbrev containers : List (ContainerMetrics Scaled)
containers =
    record { name = str "main"; usage = used } ∷ record { name = str "side"; usage = used } ∷ []

abbrev pod_metrics : PodMetrics Scaled
pod_metrics = record {
  name = str "x";
  namespace = str "default";
  labels = [];
  creation_timestamp = 1;
  timestamp = 1;
  window = minute;
  containers = containers;
}

add_pod_metrics_to_table-IsSummedTable_example :
    IsSummedTable scaled in_seconds
      (sort_slice string_lt (keys (pod_total scaled in_seconds containers [])))
      (pod_metrics ∷ [])
      (add_pod_metrics_to_table scaled in_seconds empty_table (pod_metrics ∷ []))
    × ((k : GoString)
        → contains k (pod_total scaled in_seconds containers [])
          ≡ ltb 0 (length (values_of k containers)))
unfolding gostring_eq
add_pod_metrics_to_table-IsSummedTable_example =
    add_pod_metrics_to_table-IsSummedTable scaled in_seconds pod_metrics [] resource_cpu
      (omega arith)
