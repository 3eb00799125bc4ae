-- ===== src/Api/Pod/Answers.antt =====
-- What list and get requests for pods answer (pkg/api/pod.go).
use mathlib.Core.Path.{subst}
use metrics_server.Prelude.{
  ◌≡◌, refl, Option, some, List, [], ◌∷◌, GoString, true, false, arith, inl, inr, All,
}
use metrics_server.Go.Result.{Result, ok, err, Result-cases, ok_inj}
use metrics_server.Go.Sort.Laws.{sort_slice-nil, sort_slice-single, sort_slice-All}
use metrics_server.Kube.{PartialObjectMetadata, PodMetrics}
use metrics_server.Storage.Pod.{pod_ref}
use metrics_server.Storage.Pod.Reports.{item_ref}
use metrics_server.Api.{ApiError, ListOptions, reading_failed, not_found}
use metrics_server.Api.Sorted.{IsReading, sorted-IsReading, read_one, by_keys-IsStrictOrder}
use metrics_server.Api.Pod.{
  PodMetricsApi, full_name, pod_less, pods, get_metrics, list, first_or_not_found, get,
}

module _ {E S R T Q : Type 0} (api : PodMetricsApi E S R T Q) (namespace : GoString) where
  -- The three ends of a list request.
  pub data IsListing (options : Option (ListOptions S T))
      : Result (ApiError E) (List (PodMetrics Q)) → Type 0 where
    not_listed : (e : ApiError E) → pods api namespace options ≡ err e → IsListing options (err e)
    not_read :
        (objects : List PartialObjectMetadata) (e : E)
        → pods api namespace options ≡ ok objects
        → api.metrics.get objects ≡ err e
        → IsListing options (err (reading_failed e))
    listed :
        (objects : List PartialObjectMetadata) (items : List (PodMetrics Q))
        → pods api namespace options ≡ ok objects
        → IsReading api.metrics pod_less objects items
        → IsListing options (ok items)

  -- A list request fails if the pods cannot be listed or read, and otherwise answers one item for
  -- each listed pod that is served, in the order of namespaces and names.
  pub list_pods-IsListing :
      (options : Option (ListOptions S T)) → IsListing options (list api namespace options)
  unfolding list get_metrics
  list_pods-IsListing options = elim (Result-cases (pods api namespace options)) [
    | inl (e, failed) ↦ rw failed (not_listed e failed)
    | inr (objects, found) ↦ elim (Result-cases (api.metrics.get objects)) [
      | inl (e, failed) ↦ rw (found, failed) (not_read objects e found failed)
      | inr (ms, read) ↦
          rw (found, read)
            (listed objects _ found (
              sorted-IsReading api.metrics pod_less
                (by_keys-IsStrictOrder (λ (m : PodMetrics Q). m.namespace) (λ m. m.name)) objects ms
                read))
    ]
  ]

  -- The ends of a get request whose object the lister finds.
  pub data IsGot (name : GoString) (object : PartialObjectMetadata)
      : Result (ApiError E) (PodMetrics Q) → Type 0 where
    no_reading :
        (e : E) → api.metrics.get (object ∷ []) ≡ err e → IsGot name object (err (reading_failed e))
    not_served :
        api.metrics.serves object ≡ false
        → IsGot name object (err (not_found (full_name namespace name)))
    got :
        (item : PodMetrics Q)
        → api.metrics.serves object ≡ true
        → item_ref item ≡ pod_ref object
        → IsGot name object (ok item)

  -- A get request for a pod that the lister finds answers its item if it is served, not-found if it
  -- is not, and fails where it cannot be read.
  pub get_pod-IsGot :
      (name : GoString) (object : PartialObjectMetadata)
      → (api.by_namespace namespace).get name ≡ ok (some object)
      → IsGot name object (get api namespace name)
  unfolding get get_metrics first_or_not_found
  get_pod-IsGot name object found = elim (Result-cases (api.metrics.get (object ∷ []))) [
    | inl (e, failed) ↦ rw (found, failed, get, get_metrics) (no_reading e failed)
    | inr (ms, read) ↦ elim (read_one api.metrics object ms read) [
      | inl (missing, e) ↦
          rw
            (
              found,
              read,
              e,
              sort_slice-nil (pod_less {Q = Q}),
              get,
              get_metrics,
              first_or_not_found,
            )
            (not_served missing)
      | inr (item, served, same, e) ↦
          rw
            (
              found,
              read,
              e,
              sort_slice-single (pod_less {Q = Q}) item,
              get,
              get_metrics,
              first_or_not_found,
            )
            (got item served same)
    ]
  ]

  pub get-read_one :
      (name : GoString) (object : PartialObjectMetadata) (item : PodMetrics Q)
      → (api.by_namespace namespace).get name ≡ ok (some object)
      → api.metrics.get (object ∷ []) ≡ ok (item ∷ [])
      → get api namespace name ≡ ok item
  unfolding get get_metrics first_or_not_found
  get-read_one name object item found read =
      rw
        (
          found,
          read,
          sort_slice-single (pod_less {Q = Q}) item,
          get,
          get_metrics,
          first_or_not_found,
        )
        refl

  -- What holds of all that is read holds of all that is listed.
  pub list-All :
      (P : PodMetrics Q → Type 0)
      → ((objects : List _) (ms : List (PodMetrics Q)) → api.metrics.get objects ≡ ok ms → All P ms)
      → (options : Option (ListOptions S T)) (items : List (PodMetrics Q))
      → list api namespace options ≡ ok items
      → All P items
  unfolding list get_metrics
  list-All P holds options items e = elim (Result-cases (pods api namespace options)) [
    | inl (x, failed) ↦ absurd (ground arith)
    | inr (objects, found) ↦ elim (Result-cases (api.metrics.get objects)) [
      | inl (x, failed) ↦ absurd (ground arith)
      | inr (ms, read) ↦
          subst (All P) (ok_inj (rw (found, read) at e))
            (sort_slice-All pod_less P ms (holds objects ms read))
    ]
  ]
