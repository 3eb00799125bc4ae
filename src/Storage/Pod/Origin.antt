-- ===== src/Storage/Pod/Origin.antt =====
-- Where the previous point of a container comes from after Store (pkg/storage/pod.go).
use metrics_server.Prelude.{
  ◌<◌, ◌≤◌, ◌≡◌, ◌⊎◌, refl, sym, ◌∙◌, Option, none, some, true, false, GoString, gostring_eq, arith,
  ◌>>=?◌,
}
use metrics_server.Prelude.Dict.{lookup}
use metrics_server.Kube.{NamespacedName, namespaced_name_eq}
use metrics_server.Storage.Types.{MetricsPoint, PodMetricsPoint, MetricsBatch, zero_point}
use metrics_server.Storage.Pod.{PodStorage, is_fresh, at_start, store}
use metrics_server.Storage.Pod.Containers.{find, kept_point, next_prev}
use metrics_server.Storage.Node.Ordered.{Ordered}
use metrics_server.Storage.Pod.Ordered.{pod_store-IsOrdered}
use metrics_server.Storage.Pod.Lookups.{find-store_last, find-store_prev}

-- The previous point of a pair is kept when the newer one is met again.
kept_again :
    (name : GoString) (prev : Option PodMetricsPoint) (new q : MetricsPoint)
    → new.start_time < new.timestamp
    → (prev >>=? λ pod. lookup name pod.containers) ≡ some q
    → q.timestamp < new.timestamp
    → kept_point name (some new) prev new ≡ some q
kept_again name none new q h e older = cc
kept_again name (some pod) new q h e older = ground arith

pub metric_resolution-store :
    (s : PodStorage) (batch : MetricsBatch)
    → (store s batch).metric_resolution ≡ s.metric_resolution
unfolding store
metric_resolution-store s batch = refl

module _ (s : PodStorage) (batch : MetricsBatch) (ref : NamespacedName) (name : GoString)
    (new : MetricsPoint) (scraped : find ref name batch.pods ≡ some new) where
  prev-next_prev : find ref name (store s batch).prev ≡ next_prev s ref name new
  prev-next_prev = rw (find-store_prev s batch ref name, scraped)

  -- A container that started at least ten seconds and less than one resolution before its sample
  -- is measured from its start, whatever was stored before.
  pub fresh-prev :
      is_fresh s.metric_resolution new ≡ true
      → find ref name (store s batch).prev ≡ some (at_start new)
  fresh-prev h = rw (prev-next_prev, h)

  -- The previous point of a container that is not fresh is one of the two stored points, or else
  -- the zero point; the latter only where the stored previous points of the pod lack the container.
  pub prev-origin :
      (q : MetricsPoint)
      → is_fresh s.metric_resolution new ≡ false
      → find ref name (store s batch).prev ≡ some q
      → (find ref name s.last ≡ some q)
        ⊎ (find ref name s.prev ≡ some q)
        ⊎ ((q ≡ zero_point) × (find ref name s.prev ≡ none))
  prev-origin q h e = let e' = sym prev-next_prev ∙ e in ground arith

  -- A sample that is not newer than the last point, of a container that is not fresh, has not
  -- restarted, and is lacking in the stored previous point of its pod, is paired with the zero
  -- point.
  pub stale-prev_zero :
      (last : MetricsPoint) (prev_pod : PodMetricsPoint)
      → is_fresh s.metric_resolution new ≡ false
      → find ref name s.last ≡ some last
      → new.start_time < last.timestamp
      → new.timestamp ≤ last.timestamp
      → 0 < new.timestamp
      → lookup ref s.prev ≡ some prev_pod
      → lookup name prev_pod.containers ≡ none
      → find ref name (store s batch).prev ≡ some zero_point
  stale-prev_zero last prev_pod h l started stale t p absent = ground (arith, prev-next_prev)

  next_prev-again :
      (q : MetricsPoint)
      → new.start_time < new.timestamp
      → find ref name (store s batch).prev ≡ some q
      → q.timestamp < new.timestamp
      → next_prev (store s batch) ref name new ≡ some q
  next_prev-again q h e older = ground (
    arith,
    prev-next_prev,
    metric_resolution-store s batch,
    sym (find-store_last s batch ref name),
    scraped,
    kept_again name (lookup ref (store s batch).prev) new q,
  )

  -- A batch that is stored a second time keeps the previous point, if there is one, of a container
  -- of the batch that started before its sample.
  pub store_again-prev :
      (q : MetricsPoint)
      → new.start_time < new.timestamp
      → find ref name (store s batch).prev ≡ some q
      → find ref name (store (store s batch) batch).prev ≡ some q
  store_again-prev q h e =
      let older : Ordered (some new) (some q) =
        rw (find-store_last s batch ref name, scraped, e) at
          ((pod_store-IsOrdered s batch).at ref name) in
      rw (find-store_prev (store s batch) batch ref name, scraped) (next_prev-again q h e older)
