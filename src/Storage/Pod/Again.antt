-- ===== src/Storage/Pod/Again.antt =====
-- A batch that is stored a second time, and what GetMetrics of pkg/storage/pod.go then reports.
use mathlib.Core.Option.{some-injective}
use metrics_server.Prelude.{
  ℕ, ◌≡◌, ◌<◌, refl, sym, ◌∙◌, none, some, List, [], ◌∷◌, map, Option-cases, inl, inr, arith,
  GoString, gostring_eq, Bool, true, false, every, keep, Bool-cases, ==_iff, ◌==◌,
}
use metrics_server.Prelude.Dict.{lookup, lookup-nil, lookup-cons, contains}
use metrics_server.Go.Time.{Time}
use metrics_server.Go.Float.{Floats}
use metrics_server.Kube.{
  NamespacedName, namespaced_name_eq, PartialObjectMetadata, PodMetrics, Quantities,
}
use metrics_server.Storage.Types.{MetricsPoint, PodMetricsPoint, MetricsBatch, zero_point}
use metrics_server.Storage.Pod.{PodStorage, Points, is_fresh, pod_ref, store, get_metrics}
use metrics_server.Storage.Pod.Containers.{find, pod_of_find}
use metrics_server.Storage.Pod.Lookups.{find-store_last}
use metrics_server.Storage.Pod.Origin.{
  metric_resolution-store, fresh-prev, stale-prev_zero, store_again-prev,
}
use metrics_server.Storage.Pod.Live.{paired-reportable}
use metrics_server.Storage.Pod.Reports.{item_ref, reportable, get_metrics-refs}

every-lookup :
    (test : GoString × MetricsPoint → Bool) (name : GoString) (p : MetricsPoint) (points : Points)
    → every test points ≡ true
    → lookup name points ≡ some p
    → test (name, p) ≡ true
every-lookup test name p [] h e = absurd (ground (arith, lookup-nil {V = MetricsPoint} name))
every-lookup test name p ((k, q) ∷ points) h e = elim (Bool-cases (name == k)) [
  | inl own ↦
      let found : q ≡ p = some-injective q p (ground (arith, lookup-cons name k q points)) in
      rw ((==_iff name k).0 own, sym found) (ground arith)
  | inr apart ↦
      every-lookup test name p points (ground arith) (ground (arith, lookup-cons name k q points))
]

no_item : {Q : Type 0} (ms : List (PodMetrics Q)) → map item_ref ms ≡ [] → ms ≡ []
no_item [] e = refl
no_item (m ∷ ms) e = absurd (cc)

lacks_one :
    (name : GoString) (p : MetricsPoint) (last prev : PodMetricsPoint)
    → lookup name last.containers ≡ some p
    → lookup name prev.containers ≡ none
    → every (λ (name, _). contains name prev.containers) last.containers ≡ false
unfolding contains
lacks_one name p last prev found lacking =
    elim (Bool-cases (every (λ (name, _). contains name prev.containers) last.containers)) [
      | inl all ↦ absurd (
          let one =
            every-lookup (λ (name, _). contains name prev.containers) name p last.containers all
              found in
          ground arith)
      | inr some_lacks ↦ some_lacks
    ]

module _ (s : PodStorage) (batch : MetricsBatch) (ref : NamespacedName) (prev_pod : PodMetricsPoint)
    (some_paired : lookup ref (store s batch).prev ≡ some prev_pod) where
  -- A container that the first Store has not paired.
  zero-paired :
      (name : GoString) (p : MetricsPoint)
      → find ref name batch.pods ≡ some p
      → p.start_time < p.timestamp
      → find ref name (store s batch).prev ≡ none
      → find ref name (store (store s batch) batch).prev ≡ some zero_point
  zero-paired name p here started unpaired = elim (Bool-cases (is_fresh s.metric_resolution p)) [
    | inl fresh ↦ absurd (let e = fresh-prev s batch ref name p here fresh in ground arith)
    | inr old ↦
        stale-prev_zero (store s batch) batch ref name p here p prev_pod
          (rw (metric_resolution-store s batch) old) (find-store_last s batch ref name ∙ here)
          started (omega arith) (omega arith) some_paired (rw some_paired at unpaired)
  ]

  paired_again :
      (name : GoString) (p : MetricsPoint)
      → find ref name batch.pods ≡ some p
      → p.start_time < p.timestamp
      → (q : MetricsPoint) × (find ref name (store (store s batch) batch).prev ≡ some q)
  paired_again name p here started = elim (Option-cases (find ref name (store s batch).prev)) [
    | inl unpaired ↦ (zero_point, zero-paired name p here started unpaired)
    | inr (q, paired) ↦ (q, store_again-prev s batch ref name p here q started paired)
  ]

  unpaired-reportable :
      (pod : PartialObjectMetadata) (name : GoString) (p : MetricsPoint)
      → pod_ref pod ≡ ref
      → find ref name batch.pods ≡ some p
      → find ref name (store s batch).prev ≡ none
      → reportable (store s batch) pod ≡ false
  unpaired-reportable pod name p same here unpaired =
      let l = find-store_last s batch ref name ∙ here in
      let lacking : lookup name prev_pod.containers ≡ none = rw some_paired at unpaired in
      elim (Option-cases (lookup ref (store s batch).last)) [
        | inl none_last ↦ absurd (ground arith)
        | inr (last, e) ↦
            rw (same, e, some_paired) (lacks_one name p last prev_pod (rw e at l) lacking)
      ]

module _ {F Q : Type 0} (fl : Floats F) (qs : Quantities Q) (now : ℕ → Time) where
  -- The pod is not served after the first Store, and is after the second.
  pub record IsServedAgain (s : PodStorage) (batch : MetricsBatch) (pod : PartialObjectMetadata)
      (name : GoString) : Type 0 where
    pub not_at_first : get_metrics fl qs (store s batch) now (pod ∷ []) ≡ []
    pub from_zero : find (pod_ref pod) name (store (store s batch) batch).prev ≡ some zero_point
    pub then_served :
        map item_ref (get_metrics fl qs (store (store s batch) batch) now (pod ∷ []))
        ≡ pod_ref pod ∷ []

  -- A batch has containers of a pod that started before their samples. If after Store one of them has
  -- no previous point, but another has, then GetMetrics does not report the pod; and once the same
  -- batch is stored a second time, it reports it, with the zero point as the previous point of this
  -- container.
  pub store_again-IsServedAgain :
      (s : PodStorage) (batch : MetricsBatch) (pod : PartialObjectMetadata) (name : GoString)
      (other : GoString) (p q : MetricsPoint)
      → find (pod_ref pod) name batch.pods ≡ some p
      → ((k : GoString) (q : MetricsPoint)
          → find (pod_ref pod) k batch.pods ≡ some q
          → q.start_time < q.timestamp)
      → find (pod_ref pod) name (store s batch).prev ≡ none
      → find (pod_ref pod) other (store s batch).prev ≡ some q
      → IsServedAgain s batch pod name
  store_again-IsServedAgain s batch pod name other p q here started unpaired other_paired =
      let ref = pod_ref pod in
      let (prev_pod, some_paired) = pod_of_find ref other (store s batch).prev q other_paired in
      let first =
        unpaired-reportable s batch ref prev_pod some_paired pod name p refl here unpaired in
      let second =
        paired-reportable (store s batch) batch ref pod name p refl here
          (λ k q f. paired_again s batch ref prev_pod some_paired k q f (started k q f)) in
      record {
        not_at_first =
            no_item _
              (get_metrics-refs fl qs (store s batch) now (pod ∷ []) ∙ rw (first, keep) refl);
        from_zero =
            zero-paired s batch ref prev_pod some_paired name p here (started name p here) unpaired;
        then_served =
            get_metrics-refs fl qs (store (store s batch) batch) now (pod ∷ [])
            ∙ rw (second, keep) refl;
      }
