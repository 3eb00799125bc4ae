-- ===== src/Api/Table/Printed.antt =====
-- The tables that list requests are printed as (pkg/api/node.go, pod.go), from a storage.
use mathlib.Core.Path.{subst}
use metrics_server.Prelude.{
  ℕ, ◌≡◌, refl, ap, ◌∙◌, ◌<◌, Option, List, [], ◌∷◌, All, length, gostring_eq, arith, GoString,
}
use metrics_server.Go.Time.{Time, Duration}
use metrics_server.Go.Float.{Floats}
use metrics_server.Go.Result.{ok}
use metrics_server.Go.Sort.{string_lt, sort_slice}
use metrics_server.Kube.{Node as KubeNode, NodeMetrics, Quantities, resource_cpu, resource_memory}
use metrics_server.Storage.Types.{MetricsBatch}
use metrics_server.Storage.Types.Usage.{resource_usage-keys}
use metrics_server.Storage.{new_storage}
use metrics_server.Storage.Served.{run}
use metrics_server.Storage.Node.Reports as NodeReports
use metrics_server.Api.{Lister, ListOptions, Selectors}
use metrics_server.Api.Node as NodeApi
use metrics_server.Api.Install.{new_node_metrics}
use metrics_server.Api.Stored.{stored_nodes, list_nodes-Reports}
use metrics_server.Api.Table.{Table, empty_table, node_item, add_node_metrics_to_table}
use metrics_server.Api.Table.Filled.{IsTableOf, length-keys, add_node_metrics_to_table-IsTableOf}
use metrics_server.Api.Table.Converted.{Meta, listed, convert_nodes}

abbrev pub cpu_and_memory : List GoString
cpu_and_memory = resource_cpu ∷ resource_memory ∷ []

in_order : sort_slice string_lt cpu_and_memory ≡ cpu_and_memory
unfolding sort_slice string_lt
in_order = refl

module _ {F Q : Type 0} (fl : Floats F) (qs : Quantities Q)
    (duration_string : Duration → GoString) where
  -- No columns for no items; otherwise the columns CPU and memory, and a row for each item.
  abbrev pub IsPrinted : List (NodeMetrics Q) → Table (NodeMetrics Q) → Type 0
  IsPrinted [] table = table ≡ empty_table
  IsPrinted (m ∷ ms) table =
      IsTableOf qs duration_string (node_item qs duration_string) cpu_and_memory (m ∷ ms) table

  IsPrinted-of_Reports :
      (s : _) (items : List (NodeMetrics Q))
      → All (NodeReports.Reports fl qs s) items
      → IsPrinted items (add_node_metrics_to_table qs duration_string empty_table items)
  unfolding add_node_metrics_to_table
  IsPrinted-of_Reports s [] h = refl
  IsPrinted-of_Reports s (m ∷ ms) h =
      let two = resource_usage-keys fl qs h.0.last h.0.prev m.usage _ h.0.usage_ok in
      let names = ap (sort_slice string_lt) two ∙ in_order in
      let some_name : 0 < length m.usage = omega (arith, length-keys m.usage, ap length two) in
      subst
        (λ names.
          IsTableOf qs duration_string (node_item qs duration_string) names (m ∷ ms)
            (add_node_metrics_to_table qs duration_string empty_table (m ∷ ms)))
        names (add_node_metrics_to_table-IsTableOf qs duration_string m ms some_name)

  -- A list request for nodes, from a storage after any batches, is printed with the metadata of the
  -- answer and, unless it is empty, with the columns name, CPU, memory and window, and a row for
  -- each item in the order of the answer with a cell for each column.
  pub list_nodes-IsPrinted :
      {E S R T : Type 0} (now : ℕ → Time) (resolution : Duration) (batches : List MetricsBatch)
      (lister : Lister E S KubeNode) (selectors : Selectors S R T KubeNode)
      (node_selector : Option (List R)) (options : Option (ListOptions S T)) (meta : Meta)
      (items : List (NodeMetrics Q))
      → NodeApi.list
          (new_node_metrics selectors
            (stored_nodes fl qs now (run (new_storage resolution) batches))
            lister
            node_selector)
          options
        ≡ ok items
      → ((convert_nodes qs duration_string (listed meta items)).meta ≡ meta)
        × IsPrinted items (convert_nodes qs duration_string (listed meta items)).table
  unfolding convert_nodes
  list_nodes-IsPrinted now resolution batches lister selectors node_selector options meta items e =
      (
        refl,
        IsPrinted-of_Reports _ items (
            list_nodes-Reports fl qs now resolution batches lister selectors node_selector options
              items e),
      )
