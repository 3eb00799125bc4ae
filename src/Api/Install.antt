-- ===== src/Api/Install.antt =====
-- pkg/api/install.go: the API group metrics.k8s.io. The API server is a parameter; its method
-- InstallAPIGroup is given the resources.
use metrics_server.Prelude.{Bool, true, false, Option, List, [], ◌∷◌, GoString, gostring_eq, str}
use metrics_server.Prelude.Dict.{Dict, insert}
use metrics_server.Go.Result.{Result}
use metrics_server.Kube.{Node as KubeNode, PartialObjectMetadata}
use metrics_server.Api.{Lister, Selectors}
use metrics_server.Api.Node.{NodeMetricsApi, NodeMetricsGetter}
use metrics_server.Api.Pod.{PodMetricsApi, PodMetricsGetter}

-- The two kinds of rest.Storage that the program has.
pub data RestStorage (E S R T Q : Type 0) : Type 0 where
  node_metrics : NodeMetricsApi E S R T Q → RestStorage E S R T Q
  pod_metrics : PodMetricsApi E S R T Q → RestStorage E S R T Q

-- genericapiserver.APIGroupInfo, with the fields that the program fills.
pub record ApiGroupInfo (E S R T Q : Type 0) : Type 0 where
  pub group_name : GoString
  pub versioned_resources_storage_map : Dict GoString (Dict GoString (RestStorage E S R T Q))

-- Kind, NamespaceScoped and GetSingularName of a resource.
pub record ResourceNames : Type 0 where
  pub kind : GoString
  pub namespace_scoped : Bool
  pub singular_name : GoString

abbrev pub resource_names : {E S R T Q : Type 0} → RestStorage E S R T Q → ResourceNames
resource_names (node_metrics m) = record {
  kind = str "NodeMetrics";
  namespace_scoped = false;
  singular_name = str "node";
}
resource_names (pod_metrics m) = record {
  kind = str "PodMetrics";
  namespace_scoped = true;
  singular_name = str "pod";
}

module _ {E S R T Q : Type 0} where
  abbrev pub new_node_metrics :
      Selectors S R T KubeNode
      → NodeMetricsGetter E Q
      → Lister E S KubeNode
      → Option (List R)
      → NodeMetricsApi E S R T Q
  new_node_metrics selectors metrics node_lister node_selector = record {
    metrics = metrics;
    node_lister = node_lister;
    selectors = selectors;
    node_selector = node_selector;
  }

  abbrev pub new_pod_metrics :
      Selectors S R T PartialObjectMetadata
      → PodMetricsGetter E Q
      → (GoString → Lister E S PartialObjectMetadata)
      → PodMetricsApi E S R T Q
  new_pod_metrics selectors metrics by_namespace = record {
    metrics = metrics;
    by_namespace = by_namespace;
    selectors = selectors;
  }

  unfoldable pub build : RestStorage E S R T Q → RestStorage E S R T Q → ApiGroupInfo E S R T Q
  build pod node = record {
    group_name = str "metrics.k8s.io";
    versioned_resources_storage_map =
        insert (str "v1beta1") ((str "nodes", node) ∷ (str "pods", pod) ∷ []) [];
  }

  -- The getters read the store `V` behind their pointer as it is at the time of a request.
  unfoldable pub install :
      {X G V : Type 0}
      → (G → (V → ApiGroupInfo E S R T Q) → Result X G)
      → Selectors S R T KubeNode
      → Selectors S R T PartialObjectMetadata
      → (V → NodeMetricsGetter E Q)
      → (V → PodMetricsGetter E Q)
      → (GoString → Lister E S PartialObjectMetadata)
      → Lister E S KubeNode
      → G
      → Option (List R)
      → Result X G
  unfolding build
  install install_api_group node_selectors pod_selectors nodes pods pod_lister node_lister server
        node_selector =
      install_api_group server (λ v.
        build (pod_metrics (new_pod_metrics pod_selectors (pods v) pod_lister))
          (node_metrics (new_node_metrics node_selectors (nodes v) node_lister node_selector)))
