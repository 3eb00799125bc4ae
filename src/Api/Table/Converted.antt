-- ===== src/Api/Table/Converted.antt =====
-- ConvertToTable of pkg/api/node.go and pod.go: the table of what a request has answered.
use metrics_server.Prelude.{List, [], ◌∷◌, GoString}
use metrics_server.Go.Time.{Duration}
use metrics_server.Kube.{Quantities, NodeMetrics, PodMetrics}
use metrics_server.Api.Table.{
  Table, empty_table, add_node_metrics_to_table, add_pod_metrics_to_table,
}

-- metav1.ListMeta, with the fields that are copied; a single object has the first two.
pub record Meta : Type 0 where
  pub resource_version : GoString
  pub self_link : GoString
  pub continue_token : GoString

abbrev pub empty_meta : Meta
empty_meta = record { resource_version = []; self_link = []; continue_token = [] }

-- The cases of the type switch
pub data Object (M : Type 0) : Type 0 where
  single : GoString → GoString → M → Object M
  listed : Meta → List M → Object M
  other : Object M

-- metav1beta1.Table
pub record MetaTable (M : Type 0) : Type 0 where
  pub meta : Meta
  pub table : Table M

module _ {Q : Type 0} (qs : Quantities Q) (duration_string : Duration → GoString) where
  unfoldable pub convert_nodes : Object (NodeMetrics Q) → MetaTable (NodeMetrics Q)
  convert_nodes (single version link t) = record {
    meta = record empty_meta { resource_version = version; self_link = link };
    table = add_node_metrics_to_table qs duration_string empty_table (t ∷ []);
  }
  convert_nodes (listed meta items) = record {
    meta = meta;
    table = add_node_metrics_to_table qs duration_string empty_table items;
  }
  convert_nodes other = record { meta = empty_meta; table = empty_table }

  unfoldable pub convert_pods : Object (PodMetrics Q) → MetaTable (PodMetrics Q)
  convert_pods (single version link t) = record {
    meta = record empty_meta { resource_version = version; self_link = link };
    table = add_pod_metrics_to_table qs duration_string empty_table (t ∷ []);
  }
  convert_pods (listed meta items) = record {
    meta = meta;
    table = add_pod_metrics_to_table qs duration_string empty_table items;
  }
  convert_pods other = record { meta = empty_meta; table = empty_table }
