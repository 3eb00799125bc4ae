-- ===== src/Api/Pod.antt =====
-- pkg/api/pod.go. The lister returns objects of the type to which getMetrics asserts them.
pub mod Answers
use metrics_server.Prelude.{
  ◌≡◌, Option, none, some, List, [], ◌∷◌, Bool, GoString, str, ◌++◌, if◌then◌else◌,
}
use metrics_server.Go.Result.{Result, ok, err, ◌>>=◌, map_err}
use metrics_server.Go.Sort.{sort_slice}
use metrics_server.Kube.{NamespacedName, PartialObjectMetadata, PodMetrics}
use metrics_server.Api.Sorted.{pair_lt}
use metrics_server.Storage.Pod.{pod_ref}
use metrics_server.Storage.Pod.Reports.{item_ref}
use metrics_server.Api.{
  MetricsGetter, Selectors, Lister, ListOptions, ApiError, listing_failed, getting_failed,
  reading_failed, not_found, unknown, label_selector_of, filter_listed,
}

abbrev pub PodMetricsGetter : Type 0 → Type 0 → Type 0
PodMetricsGetter E Q =
    MetricsGetter E PartialObjectMetadata (PodMetrics Q) NamespacedName pod_ref item_ref

abbrev pub pod_less : {Q : Type 0} → PodMetrics Q → PodMetrics Q → Bool
pod_less a b = pair_lt a.namespace a.name b.namespace b.name

-- `podMetrics`; the lister of a namespace is `podLister.ByNamespace(namespace)`.
pub record PodMetricsApi (E S R T Q : Type 0) : Type 0 where
  pub metrics : PodMetricsGetter E Q
  pub by_namespace : GoString → Lister E S PartialObjectMetadata
  pub selectors : Selectors S R T PartialObjectMetadata

-- `fmt.Sprintf("%s/%s", namespace, name)`
abbrev pub full_name : GoString → GoString → GoString
full_name namespace name = namespace ++ str "/" ++ name

-- `namespace` is what the request's context carries.
module _ {E S R T Q : Type 0} (m : PodMetricsApi E S R T Q) (namespace : GoString) where
  unfoldable pub pods : Option (ListOptions S T) → Result (ApiError E) (List PartialObjectMetadata)
  pods options = do
    found ←
        map_err listing_failed
          ((m.by_namespace namespace).list (label_selector_of m.selectors options))
    ok (filter_listed m.selectors options found)

  unfoldable pub get_metrics : List PartialObjectMetadata → Result E (List (PodMetrics Q))
  get_metrics found = do ms ← m.metrics.get found; ok (sort_slice pod_less ms)

  unfoldable pub list : Option (ListOptions S T) → Result (ApiError E) (List (PodMetrics Q))
  unfolding pods get_metrics
  list options = do found ← pods options; map_err reading_failed (get_metrics found)

  first_or_not_found : GoString → List (PodMetrics Q) → Result (ApiError E) (PodMetrics Q)
  first_or_not_found name [] = err (not_found (full_name namespace name))
  first_or_not_found name (item ∷ items) = ok item

  unfoldable pub get : GoString → Result (ApiError E) (PodMetrics Q)
  unfolding first_or_not_found get_metrics
  get name = elim ((m.by_namespace namespace).get name) [
    | err e ↦
        if (m.by_namespace namespace).is_not_found e
        then err (unknown e)
        else err (getting_failed e)
    | ok none ↦ err (not_found (full_name namespace name))
    | ok (some pod) ↦ map_err reading_failed (get_metrics (pod ∷ [])) >>= first_or_not_found name
  ]
