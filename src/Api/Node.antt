-- ===== src/Api/Node.antt =====
-- pkg/api/node.go
pub mod Answers
use metrics_server.Prelude.{◌≡◌, Option, none, some, List, [], ◌∷◌, Bool, GoString, if◌then◌else◌}
use metrics_server.Go.Result.{Result, ok, err, ◌>>=◌, map_err}
use metrics_server.Go.Sort.{string_lt, sort_slice}
use metrics_server.Kube.{Node as KubeNode, NodeMetrics}
use metrics_server.Api.{
  MetricsGetter, Selectors, Lister, ListOptions, ApiError, listing_failed, getting_failed,
  reading_failed, not_found, unknown, label_selector_of, filter_listed,
}

abbrev pub node_key : KubeNode → GoString
node_key node = node.name

abbrev pub NodeMetricsGetter : Type 0 → Type 0 → Type 0
NodeMetricsGetter E Q = MetricsGetter E KubeNode (NodeMetrics Q) GoString node_key (λ m. m.name)

abbrev pub node_less : {Q : Type 0} → NodeMetrics Q → NodeMetrics Q → Bool
node_less a b = string_lt a.name b.name

-- `nodeMetrics`; `node_selector` is `none` where it is nil.
pub record NodeMetricsApi (E S R T Q : Type 0) : Type 0 where
  pub metrics : NodeMetricsGetter E Q
  pub node_lister : Lister E S KubeNode
  pub selectors : Selectors S R T KubeNode
  pub node_selector : Option (List R)

module _ {E S R T Q : Type 0} (m : NodeMetricsApi E S R T Q) where
  abbrev with_node_selector : Option (List R) → S → S
  with_node_selector none selector = selector
  with_node_selector (some requirements) selector = m.selectors.add selector requirements

  unfoldable pub nodes : Option (ListOptions S T) → Result (ApiError E) (List KubeNode)
  nodes options = do
    found ← map_err listing_failed (
        m.node_lister.list
          (with_node_selector m.node_selector (label_selector_of m.selectors options)))
    ok (filter_listed m.selectors options found)

  unfoldable pub get_metrics : List KubeNode → Result E (List (NodeMetrics Q))
  get_metrics found = do ms ← m.metrics.get found; ok (sort_slice node_less ms)

  unfoldable pub list : Option (ListOptions S T) → Result (ApiError E) (List (NodeMetrics Q))
  unfolding nodes get_metrics
  list options = do found ← nodes options; map_err reading_failed (get_metrics found)

  first_or_not_found : GoString → List (NodeMetrics Q) → Result (ApiError E) (NodeMetrics Q)
  first_or_not_found name [] = err (not_found name)
  first_or_not_found name (item ∷ items) = ok item

  unfoldable pub get : GoString → Result (ApiError E) (NodeMetrics Q)
  unfolding first_or_not_found get_metrics
  get name = elim (m.node_lister.get name) [
    | err e ↦ if m.node_lister.is_not_found e then err (unknown e) else err (getting_failed e)
    | ok none ↦ err (not_found name)
    | ok (some node) ↦ map_err reading_failed (get_metrics (node ∷ [])) >>= first_or_not_found name
  ]
