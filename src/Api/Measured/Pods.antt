-- ===== src/Api/Measured/Pods.antt =====
-- From the kubelets to the API for a pod: two scrapes of pkg/scraper/scraper.go, stored by
-- pkg/storage, and a get request of pkg/api/pod.go.
use mathlib.Core.List.{Perm}
use mathlib.Core.Path.{subst}
use metrics_server.Prelude.{
  ℕ, ◌≡◌, refl, ap, ◌∙◌, All, [], ◌∷◌, some, List, GoString, gostring_eq, map,
}
use metrics_server.Prelude.Dict.{lookup}
use metrics_server.Go.Time.{Time}
use metrics_server.Go.Float.{Floats}
use metrics_server.Go.Result.{ok}
use metrics_server.Kube.{
  NamespacedName, namespaced_name_eq, PartialObjectMetadata, PodMetrics, Quantities,
  Node as KubeNode,
}
use metrics_server.Client.{KubeletClient}
use metrics_server.Scraper.Goroutines.Finished.{closed-scrape}
use metrics_server.Scraper.Traced.{ask, IsReceived, scrape-IsReceived}
use metrics_server.Storage.Types.{MetricsPoint, PodMetricsPoint}
use metrics_server.Storage.Pod
use metrics_server.Storage.Pod.{pod_ref, Pods}
use metrics_server.Storage.Pod.Containers.{find, pod_of_find}
use metrics_server.Storage.Pod.Live.{HasPrevious}
use metrics_server.Storage.Pod.Lookups.{find-store_last}
use metrics_server.Storage.Pod.Reports.{item_ref, Reports, get_metrics-Reports, store-IsWellFormed}
use metrics_server.Storage.{Storage, store, get_pod_metrics}
use metrics_server.Storage.Live.{two_scrapes-serve_pod}
use metrics_server.Api.{Lister, Selectors}
use metrics_server.Api.Pod.{PodMetricsApi}
use metrics_server.Api.Pod as PodApi
use metrics_server.Api.Pod.Answers as PodAnswers
use metrics_server.Api.Stored.{stored_pods}
use metrics_server.Api.Measured.{Round}

single_item :
    {Q : Type 0} (ref : NamespacedName) (ms : List (PodMetrics Q))
    → map item_ref ms ≡ ref ∷ []
    → (m : PodMetrics Q) × (ms ≡ m ∷ []) × (item_ref m ≡ ref)
single_item ref [] e = absurd (cc)
single_item ref (m ∷ []) e = (m, refl, cc)
single_item ref (m ∷ n ∷ ms) e = absurd (cc)

module _ (G : Type 0) {F : Type 0} (fl : Floats F) (kc : KubeletClient) where
  -- The containers of the pod are from the answer of one kubelet.
  abbrev pub IsReceivedIn : Round G fl kc → NamespacedName → PodMetricsPoint → Type 0
  IsReceivedIn r ref point =
      (arrivals : List KubeNode) × Perm arrivals r.nodes
      × IsReceived r.http fl kc r.time arrivals ref point

  found-IsReceivedIn :
      (r : Round G fl kc) (ref : NamespacedName) (point : PodMetricsPoint)
      → lookup ref r.after.res.pods ≡ some point
      → IsReceivedIn r ref point
  found-IsReceivedIn r ref point found =
      let (arrivals, same, e) =
        closed-scrape (ask r.http fl kc r.time) r.nodes r.before r.after r.ran r.ended in
      (
        arrivals,
        same,
        scrape-IsReceived r.http fl kc r.time arrivals r.before ref point
            (ap (λ (batch, total). lookup ref batch.pods) e ∙ found),
      )

module _ {E F S R T Q : Type 0} (fl : Floats F) (qs : Quantities Q) (now : ℕ → Time)
    (by_namespace : GoString → Lister E S PartialObjectMetadata)
    (selectors : Selectors S R T PartialObjectMetadata) where
  abbrev pub pods_api_of : Storage → PodMetricsApi E S R T Q
  pods_api_of s = record {
    metrics = stored_pods fl qs now s;
    by_namespace = by_namespace;
    selectors = selectors;
  }

  module _ {G : Type 0} (kc : KubeletClient) where
    -- The answer `m` to a request for the pod after two scrapes.
    pub record IsPodMeasured (s : Storage) (earlier later : Round G fl kc)
        (pod : PartialObjectMetadata) (m : PodMetrics Q) : Type 0 where
      pub answered :
          PodApi.get
            (pods_api_of (store (store s earlier.after.res) later.after.res))
            pod.namespace
            pod.name
          ≡ ok m
      pub same_pod : item_ref m ≡ pod_ref pod
      pub reported : Reports fl qs (store (store s earlier.after.res) later.after.res).pods m
      -- The last points are those of the later scrape.
      pub last_points :
          (name : GoString)
          → find (pod_ref pod) name (store (store s earlier.after.res) later.after.res).pods.last
            ≡ find (pod_ref pod) name later.after.res.pods
      pub point : PodMetricsPoint
      pub scraped : lookup (pod_ref pod) later.after.res.pods ≡ some point
      pub received : IsReceivedIn G fl kc later (pod_ref pod) point

    -- Two scrapes in a row find a pod, under any schedule of their goroutines, the second with a
    -- container of it, and each container of the second is fresh or has an older sample, since its
    -- start, in the first. Then, whatever was stored before, a get request for the pod is answered
    -- with the usage of its measurable containers between their two stored points; the later points
    -- are those of the second scrape, from the answer of one kubelet, and complete.
    pub get_pod-IsPodMeasured :
        (s : Storage) (earlier later : Round G fl kc) (pod : PartialObjectMetadata)
        (name : GoString) (q : MetricsPoint)
        → (by_namespace pod.namespace).get pod.name ≡ ok (some pod)
        → find (pod_ref pod) name later.after.res.pods ≡ some q
        → ((name : GoString) (q : MetricsPoint)
            → find (pod_ref pod) name later.after.res.pods ≡ some q
            → HasPrevious s.pods earlier.after.res (pod_ref pod) name q)
        → (m : PodMetrics Q) × IsPodMeasured s earlier later pod m
    unfolding stored_pods store get_pod_metrics
    get_pod-IsPodMeasured s earlier later pod name q listed here each =
        let first = earlier.after.res in
        let second = later.after.res in
        let pods = Pod.store (Pod.store s.pods first) second in
        let served = two_scrapes-serve_pod fl qs now s first second pod name q here each in
        let (m, one, same) = single_item (pod_ref pod) _ served in
        let (point, scraped) = pod_of_find (pod_ref pod) name second.pods q here in
        let reports =
          get_metrics-Reports fl qs pods (store-IsWellFormed (Pod.store s.pods first) second) now
            (pod ∷ []) in
        (
          m,
          record {
            answered = PodAnswers.get-read_one _ pod.namespace pod.name pod m listed (ap ok one);
            same_pod = same;
            reported = (subst (All (Reports fl qs pods)) one reports).0;
            last_points = find-store_last (Pod.store s.pods first) second (pod_ref pod);
            point = point;
            scraped = scraped;
            received = found-IsReceivedIn G fl kc later (pod_ref pod) point scraped;
          },
        )
