-- ===== src/Storage/Pod/Reports.antt =====
-- Which pods GetMetrics of pkg/storage/pod.go reports, and with what.
use metrics_server.Prelude.{
  ℕ, suc, ◌≡◌, refl, ap, Option, none, some, List, [], ◌∷◌, map, Bool, false, GoString, gostring_eq,
  arith, Option-cases, inl, inr, every, keep, is_some, All,
}
use metrics_server.Prelude.Dict.{lookup, lookup-nil, lookup-cons, contains, keys, NodupKeys}
use metrics_server.Go.Time.{Time}
use metrics_server.Go.Float.{Floats}
use metrics_server.Go.Result.{ok}
use metrics_server.Kube.{
  NamespacedName, namespaced_name_eq, PartialObjectMetadata, PodMetrics, ContainerMetrics,
  Quantities,
}
use metrics_server.Storage.Types.{
  MetricsPoint, PodMetricsPoint, MetricsBatch, TimeInfo, resource_usage,
}
use metrics_server.Storage.Types.Usage.{measured_usage, resource_usage_exact}
use metrics_server.Storage.Node.Ordered.{Ordered}
use metrics_server.Storage.Pod.{
  PodStorage, Points, Pods, pod_ref, no_time, pod_usage, container_usages, collect, get_metrics,
  store,
}
use metrics_server.Storage.Pod.Ordered.{IsOrdered, pod_store-IsOrdered}
use metrics_server.Storage.Pod.Distinct.{AreDistinct, store-AreDistinct}
use metrics_server.Storage.Pod.Usages.{
  measurable, IsPositive, NotBefore, IsPaired, container_usages_complete, container_usages-names,
  container_usages-All, container_usages-earliest,
}

pub record IsWellFormed (s : PodStorage) : Type 0 where
  pub ordered : IsOrdered s
  pub distinct : (ref : NamespacedName) → AreDistinct (lookup ref s.last)

pub store-IsWellFormed : (s : PodStorage) (batch : MetricsBatch) → IsWellFormed (store s batch)
store-IsWellFormed s batch = record {
  ordered = pod_store-IsOrdered s batch;
  distinct = λ ref. store-AreDistinct s ref batch;
}

abbrev pub item_ref : {Q : Type 0} → PodMetrics Q → NamespacedName
item_ref m = record { namespace = m.namespace; name = m.name }

abbrev pub all_present : Option PodMetricsPoint → Option PodMetricsPoint → Bool
all_present none prev = false
all_present (some last) none = false
all_present (some last) (some prev) =
    every (λ (name, _). contains name prev.containers) last.containers

-- The store holds the pod twice, and each container of the later point in the earlier.
abbrev pub reportable : PodStorage → PartialObjectMetadata → Bool
reportable s pod = all_present (lookup (pod_ref pod) s.last) (lookup (pod_ref pod) s.prev)

-- A property of what a lookup gives, of each entry.
pub All-of_lookups :
    (P : GoString → MetricsPoint → Type 0) (points : Points)
    → NodupKeys points
    → ((name : GoString) (p : MetricsPoint) → lookup name points ≡ some p → P name p)
    → All (λ (name, p). P name p) points
All-of_lookups P [] d h = tt
All-of_lookups P ((k, p) ∷ points) d h = (
  h k p (ground (arith, lookup-cons k k p points)),
  All-of_lookups P points d.1 (λ name q e. h name q (ground (arith, lookup-cons name k p points))),
)

module _ {F Q : Type 0} (fl : Floats F) (qs : Quantities Q) (s : PodStorage) where
  -- The usage of a container between its points in the later and in the earlier pod point.
  pub record IsMeasured (lasts prevs : Points) (c : ContainerMetrics Q) : Type 0 where
    pub last : MetricsPoint
    pub prev : MetricsPoint
    pub info : TimeInfo
    pub has_last : lookup c.name lasts ≡ some last
    pub has_prev : lookup c.name prevs ≡ some prev
    pub usage_ok : resource_usage fl qs last prev ≡ ok (c.usage, info)
    -- the difference of the counters over the seconds between the points, and the later memory
    pub usage_exact : c.usage ≡ measured_usage fl qs prev last

  -- What a reported item says of the two stored points of its pod.
  pub record Reports (m : PodMetrics Q) : Type 0 where
    pub last : PodMetricsPoint
    pub prev : PodMetricsPoint
    pub has_last : lookup (item_ref m) s.last ≡ some last
    pub has_prev : lookup (item_ref m) s.prev ≡ some prev
    -- The containers that can be measured, and no other.
    pub names_exact :
        map (λ c. c.name) m.containers ≡ keys (keep (measurable prev.containers) last.containers)
    pub measured : All (IsMeasured last.containers prev.containers) m.containers
    -- Without a measured container the timestamp is the zero time.
    pub window_pos : IsPositive (record { timestamp = m.timestamp; window = m.window })
    pub not_before :
        All
          (NotBefore prev.containers (record { timestamp = m.timestamp; window = m.window }))
          last.containers

  pod_usage_inv :
      (ref : NamespacedName) (r : List (ContainerMetrics Q) × TimeInfo)
      → pod_usage fl qs s ref ≡ some r
      → (last prev : PodMetricsPoint) × (lookup ref s.last ≡ some last)
        × (lookup ref s.prev ≡ some prev)
        × (container_usages fl qs last.containers prev.containers [] no_time ≡ some r)
  unfolding pod_usage
  pod_usage_inv ref r h = elim (Option-cases (lookup ref s.last)) [
    | inl e ↦ absurd (ground arith)
    | inr (last, e) ↦ elim (Option-cases (lookup ref s.prev)) [
      | inl e' ↦ absurd (ground arith)
      | inr (prev, e') ↦ (last, prev, e, e', ground arith)
    ]
  ]

  pairs-IsPaired :
      IsWellFormed s
      → (ref : NamespacedName) (last prev : PodMetricsPoint) → lookup ref s.last ≡ some last
      → lookup ref s.prev ≡ some prev
      → All (IsPaired prev.containers) last.containers
  pairs-IsPaired inv ref last prev e e' =
      All-of_lookups (λ name p. Ordered (some p) (lookup name prev.containers)) last.containers
        (rw e at (inv.distinct ref)) (λ name p f. rw (e, e', f) at (inv.ordered.at ref name))

  usages-IsMeasured :
      IsWellFormed s
      → (ref : NamespacedName) (last prev : PodMetricsPoint) → lookup ref s.last ≡ some last
      → (r : List (ContainerMetrics Q) × TimeInfo)
      → container_usages fl qs last.containers prev.containers [] no_time ≡ some r
      → All (IsMeasured last.containers prev.containers) r.0
  usages-IsMeasured inv ref last prev e r h =
      container_usages-All fl qs prev.containers (IsMeasured last.containers prev.containers)
        last.containers [] no_time r
        (All-of_lookups _ last.containers (rw e at (inv.distinct ref)) (λ name p f q usage info g u.
          record {
            last = p;
            prev = q;
            info = info;
            has_last = f;
            has_prev = g;
            usage_ok = u;
            usage_exact = resource_usage_exact fl qs p q usage info u;
          }))
        tt h

  item-Reports :
      IsWellFormed s
      → (m : PodMetrics Q)
      → pod_usage fl qs s (item_ref m)
        ≡ some (m.containers, record { timestamp = m.timestamp; window = m.window })
      → Reports m
  item-Reports inv m h =
      let (last, prev, e, e', r) = pod_usage_inv _ _ h in
      let paired = pairs-IsPaired inv _ last prev e e' in
      let (good, _, bounds) =
        container_usages-earliest fl qs prev.containers last.containers [] no_time _ paired
          (inl refl) r in
      record {
        last = last;
        prev = prev;
        has_last = e;
        has_prev = e';
        names_exact = container_usages-names fl qs prev.containers last.containers [] no_time _ r;
        measured = usages-IsMeasured inv _ last prev e _ r;
        window_pos = good;
        not_before = bounds;
      }

  collect-Reports :
      IsWellFormed s
      → (now : ℕ → Time) (i : ℕ) (pods : List PartialObjectMetadata)
      → All Reports (collect fl qs s now i pods)
  unfolding collect
  collect-Reports inv now i [] = tt
  collect-Reports inv now i (pod ∷ pods) = elim (Option-cases (pod_usage fl qs s (pod_ref pod))) [
    | inl e ↦ rw (e, collect) (collect-Reports inv now i pods)
    | inr (u, e) ↦ rw (e, collect) (item-Reports inv _ e, collect-Reports inv now (suc i) pods)
  ]

  pod_usage-reportable :
      (pod : PartialObjectMetadata) → is_some (pod_usage fl qs s (pod_ref pod)) ≡ reportable s pod
  unfolding pod_usage
  pod_usage-reportable pod = elim (Option-cases (lookup (pod_ref pod) s.last)) [
    | inl e ↦ rw e refl
    | inr (last, e) ↦ elim (Option-cases (lookup (pod_ref pod) s.prev)) [
      | inl e' ↦ rw (e, e') refl
      | inr (prev, e') ↦
          rw (e, e') (container_usages_complete fl qs prev.containers last.containers [] no_time)
    ]
  ]

  collect-refs :
      (now : ℕ → Time) (i : ℕ) (pods : List PartialObjectMetadata)
      → map item_ref (collect fl qs s now i pods) ≡ map pod_ref (keep (reportable s) pods)
  unfolding collect
  collect-refs now i [] = refl
  collect-refs now i (pod ∷ pods) =
      ground
        (arith, collect-refs now i pods, collect-refs now (suc i) pods, pod_usage-reportable pod)

  -- GetMetrics reports the pods, in the order of the request, that the store holds twice with each
  -- container of the later point in the earlier, and no other pod.
  pub get_metrics-refs :
      (now : ℕ → Time) (pods : List PartialObjectMetadata)
      → map item_ref (get_metrics fl qs s now pods) ≡ map pod_ref (keep (reportable s) pods)
  unfolding get_metrics
  get_metrics-refs now pods = collect-refs now 0 pods

  pub get_metrics-Reports :
      IsWellFormed s
      → (now : ℕ → Time) (pods : List PartialObjectMetadata)
      → All Reports (get_metrics fl qs s now pods)
  unfolding get_metrics
  get_metrics-Reports inv now pods = collect-Reports inv now 0 pods

  collect-no_prev :
      s.prev ≡ []
      → (now : ℕ → Time) (i : ℕ) (pods : List PartialObjectMetadata)
      → collect fl qs s now i pods ≡ []
  unfolding collect pod_usage
  collect-no_prev h now i [] = refl
  collect-no_prev h now i (pod ∷ pods) = ground (
    arith,
    collect-no_prev h now i pods,
    ap (λ (d : Pods). lookup (pod_ref pod) d) h,
    lookup-nil {V = PodMetricsPoint} (pod_ref pod),
  )

  -- Without a previous point nothing is reported.
  pub get_metrics-no_prev :
      s.prev ≡ []
      → (now : ℕ → Time) (pods : List PartialObjectMetadata) → get_metrics fl qs s now pods ≡ []
  unfolding get_metrics
  get_metrics-no_prev h now pods = collect-no_prev h now 0 pods
