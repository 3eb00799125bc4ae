-- ===== src/Tests/Asked.antt =====
-- Requests to the API over a storage that two scrapes have filled.
use metrics_server.Prelude.{
  ◌≡◌, refl, List, [], ◌∷◌, All, GoString, gostring_eq, str, true, Option, none, some, ◌==◌, keep,
}
use metrics_server.Go.Float.{fractions}
use metrics_server.Go.Result.{ok, err}
use metrics_server.Go.Sort.{sort_slice}
use metrics_server.Kube.{NodeMetrics, PodMetrics}
use metrics_server.Storage.{Storage, new_storage, get_node_metrics, get_pod_metrics}
use metrics_server.Storage.Served.{run}
use metrics_server.Storage.Node.Reports as NodeReports
use metrics_server.Storage.Pod.Reports as PodReports
use metrics_server.Api.{Selectors, Lister, label_selector_of, filter_listed}
use metrics_server.Api.Node.{NodeMetricsApi, node_less}
use metrics_server.Api.Node as NodeApi
use metrics_server.Api.Node.Answers as NodeAnswers
use metrics_server.Api.Pod.{PodMetricsApi, pod_less}
use metrics_server.Api.Pod as PodApi
use metrics_server.Api.Pod.Answers as PodAnswers
use metrics_server.Api.Stored.{stored_nodes, stored_pods, list_nodes-Reports, list_pods-Reports}
use metrics_server.Api.Table.Converted.{Meta, listed, convert_nodes}
use metrics_server.Api.Table.Printed.{IsPrinted, list_nodes-IsPrinted}
use metrics_server.Tests.Data.{
  Scaled, scaled, clock, minute, node_a, node_b, pod_x, first_batch, second_batch,
}

abbrev filled : Storage
filled = run (new_storage minute) (first_batch ∷ second_batch ∷ [])

-- A selector of labels or of fields, here the name to select.
abbrev pub by_name : {O : Type 0} → (O → GoString) → Selectors (Option GoString) GoString GoString O
by_name name = record {
  everything = none;
  add = λ s requirements. s;
  matches = λ selected object. name object == selected;
}

abbrev pub lister_of : {O : Type 0} → (O → GoString) → List O → Lister GoString (Option GoString) O
lister_of name objects = record {
  list = λ s. ok objects;
  get = λ wanted. elim (keep (λ o. name o == wanted) objects) [
    | [] ↦ err wanted
    | object ∷ rest ↦ ok (some object)
  ];
  is_not_found = λ e. true;
}

abbrev nodes_api : NodeMetricsApi GoString (Option GoString) GoString GoString Scaled
nodes_api = record {
  metrics = stored_nodes fractions scaled clock filled;
  node_lister = lister_of (λ n. n.name) (node_b ∷ node_a ∷ []);
  selectors = by_name (λ n. n.name);
  node_selector = none;
}

abbrev pods_api : PodMetricsApi GoString (Option GoString) GoString GoString Scaled
pods_api = record {
  metrics = stored_pods fractions scaled clock filled;
  by_namespace = λ namespace. lister_of (λ p. p.name) (pod_x ∷ []);
  selectors = by_name (λ p. p.name);
}

list_nodes-IsListing_example : NodeAnswers.IsListing nodes_api none (NodeApi.list nodes_api none)
list_nodes-IsListing_example = NodeAnswers.list_nodes-IsListing nodes_api none

list_pods-IsListing_example :
    PodAnswers.IsListing pods_api (str "default") none (PodApi.list pods_api (str "default") none)
list_pods-IsListing_example = PodAnswers.list_pods-IsListing pods_api (str "default") none

abbrev node_items : List (NodeMetrics Scaled)
node_items =
    sort_slice node_less (get_node_metrics fractions scaled filled clock (node_b ∷ node_a ∷ []))

nodes-listed : NodeApi.list nodes_api none ≡ ok node_items
unfolding NodeApi.list NodeApi.nodes NodeApi.get_metrics stored_nodes label_selector_of
    filter_listed
nodes-listed = refl

list_nodes-Reports_example : All (NodeReports.Reports fractions scaled filled.nodes) node_items
list_nodes-Reports_example =
    list_nodes-Reports fractions scaled clock minute (first_batch ∷ second_batch ∷ [])
      nodes_api.node_lister nodes_api.selectors none none node_items nodes-listed

abbrev pod_items : List (PodMetrics Scaled)
pod_items = sort_slice pod_less (get_pod_metrics fractions scaled filled clock (pod_x ∷ []))

pods-listed : PodApi.list pods_api (str "default") none ≡ ok pod_items
unfolding PodApi.list PodApi.pods PodApi.get_metrics stored_pods label_selector_of filter_listed
pods-listed = refl

list_pods-Reports_example : All (PodReports.Reports fractions scaled filled.pods) pod_items
list_pods-Reports_example =
    list_pods-Reports fractions scaled clock minute (first_batch ∷ second_batch ∷ [])
      pods_api.by_namespace pods_api.selectors (str "default") none pod_items pods-listed

abbrev version_7 : Meta
version_7 = record { resource_version = str "7"; self_link = []; continue_token = [] }

list_nodes-IsPrinted_example :
    ((convert_nodes scaled (λ d. str "1m0s") (listed version_7 node_items)).meta ≡ version_7)
    × IsPrinted fractions scaled
        (λ d. str "1m0s")
        node_items
        (convert_nodes scaled (λ d. str "1m0s") (listed version_7 node_items)).table
list_nodes-IsPrinted_example =
    list_nodes-IsPrinted fractions scaled (λ d. str "1m0s") clock minute
      (first_batch ∷ second_batch ∷ []) (lister_of (λ n. n.name) (node_b ∷ node_a ∷ []))
      (by_name (λ n. n.name)) none none version_7 node_items nodes-listed
