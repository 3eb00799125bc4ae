-- ===== src/Storage/Pod/Live.antt =====
-- Two samples of a pod in a row, and when GetMetrics of pkg/storage/pod.go serves it.
use metrics_server.Prelude.{
  ◌≡◌, ◌<◌, refl, sym, ◌∙◌, [], ◌∷◌, some, Option-cases, inl, inr, ◌⊎◌, arith, GoString,
  gostring_eq, Bool-cases, Bool, true, false, every, All,
}
use metrics_server.Prelude.Dict.{lookup, contains}
use metrics_server.Kube.{NamespacedName, namespaced_name_eq, PartialObjectMetadata}
use metrics_server.Storage.Types.{MetricsPoint, PodMetricsPoint, MetricsBatch}
use metrics_server.Storage.Pod.{PodStorage, Points, is_fresh, at_start, pod_ref, store}
use metrics_server.Storage.Pod.Containers.{find}
use metrics_server.Storage.Pod.Lookups.{find-store_last, find-store_prev}
use metrics_server.Storage.Pod.Origin.{metric_resolution-store}
use metrics_server.Storage.Pod.Reports.{store-IsWellFormed, reportable, All-of_lookups}

every-of_All :
    (test : GoString × MetricsPoint → Bool) (points : Points)
    → All (λ x. test x ≡ true) points
    → every test points ≡ true
every-of_All test [] h = refl
every-of_All test (x ∷ points) h = ground (arith, every-of_All test points h.1)

-- Why a container of the later of two batches in a row has a previous point: it is fresh, or the
-- earlier batch has an older sample of it since its start.
abbrev pub HasPrevious :
    PodStorage → MetricsBatch → NamespacedName → GoString → MetricsPoint → Type 0
HasPrevious s earlier ref name q =
    (is_fresh s.metric_resolution q ≡ true)
    ⊎ ((p : MetricsPoint) × (find ref name earlier.pods ≡ some p)
        × (q.start_time < p.timestamp)
        × (p.timestamp < q.timestamp))

module _ (s : PodStorage) (batch : MetricsBatch) (ref : NamespacedName) where
  pair-all_present :
      (last prev : PodMetricsPoint)
      → lookup ref (store s batch).last ≡ some last
      → lookup ref (store s batch).prev ≡ some prev
      → ((name : GoString) (q : MetricsPoint)
          → find ref name batch.pods ≡ some q
          → (p : MetricsPoint) × (find ref name (store s batch).prev ≡ some p))
      → every (λ (name, _). contains name prev.containers) last.containers ≡ true
  unfolding contains
  pair-all_present last prev e e' each =
      every-of_All (λ (name, _). contains name prev.containers) last.containers
        (All-of_lookups (λ name p. contains name prev.containers ≡ true) last.containers
          (rw e at ((store-IsWellFormed s batch).distinct ref))
          (λ name p f.
            let here : find ref name batch.pods ≡ some p =
              sym (find-store_last s batch ref name) ∙ rw e f in
            let (r, g) = each name p here in ground (arith, e')))

  -- If the batch has a container of the pod, and each that it has of the pod is paired.
  pub paired-reportable :
      (pod : PartialObjectMetadata) (name : GoString) (q : MetricsPoint)
      → pod_ref pod ≡ ref
      → find ref name batch.pods ≡ some q
      → ((name : GoString) (q : MetricsPoint)
          → find ref name batch.pods ≡ some q
          → (p : MetricsPoint) × (find ref name (store s batch).prev ≡ some p))
      → reportable (store s batch) pod ≡ true
  paired-reportable pod name q same here each =
      let (r, g) = each name q here in
      let l = find-store_last s batch ref name ∙ here in
      elim (Option-cases (lookup ref (store s batch).last)) [
        | inl none_last ↦ absurd (ground arith)
        | inr (last, e) ↦ elim (Option-cases (lookup ref (store s batch).prev)) [
          | inl none_prev ↦ absurd (ground arith)
          | inr (prev, e') ↦ rw (same, e, e') (pair-all_present last prev e e' each)
        ]
      ]

module _ (s : PodStorage) (earlier later : MetricsBatch) (ref : NamespacedName) where
  found_fresh :
      (name : GoString) (q : MetricsPoint)
      → find ref name later.pods ≡ some q
      → is_fresh s.metric_resolution q ≡ true
      → find ref name (store (store s earlier) later).prev ≡ some (at_start q)
  found_fresh name q here fresh =
      ground
        (arith, find-store_prev (store s earlier) later ref name, metric_resolution-store s earlier)

  found_older :
      (name : GoString) (p q : MetricsPoint)
      → find ref name later.pods ≡ some q
      → is_fresh s.metric_resolution q ≡ false
      → find ref name earlier.pods ≡ some p
      → q.start_time < p.timestamp
      → p.timestamp < q.timestamp
      → find ref name (store (store s earlier) later).prev ≡ some p
  found_older name p q here stale before started newer = ground (
    arith,
    find-store_prev (store s earlier) later ref name,
    find-store_last s earlier ref name,
    metric_resolution-store s earlier,
  )

  found_previous :
      (name : GoString) (q : MetricsPoint)
      → find ref name later.pods ≡ some q
      → HasPrevious s earlier ref name q
      → (p : MetricsPoint) × (find ref name (store (store s earlier) later).prev ≡ some p)
  found_previous name q here (inl fresh) = (at_start q, found_fresh name q here fresh)
  found_previous name q here (inr (p, before, started, newer)) =
      elim (Bool-cases (is_fresh s.metric_resolution q)) [
        | inl fresh ↦ (at_start q, found_fresh name q here fresh)
        | inr stale ↦ (p, found_older name p q here stale before started newer)
      ]

  -- If the later batch has a container of the pod, and each that it has of the pod is paired.
  pub two_batches-reportable :
      (pod : PartialObjectMetadata) (name : GoString) (q : MetricsPoint)
      → pod_ref pod ≡ ref
      → find ref name later.pods ≡ some q
      → ((name : GoString) (q : MetricsPoint)
          → find ref name later.pods ≡ some q
          → HasPrevious s earlier ref name q)
      → reportable (store (store s earlier) later) pod ≡ true
  two_batches-reportable pod name q same here each =
      paired-reportable (store s earlier) later ref pod name q same here
        (λ name q f. found_previous name q f (each name q f))
