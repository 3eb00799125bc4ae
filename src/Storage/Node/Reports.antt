-- ===== src/Storage/Node/Reports.antt =====
-- Which nodes GetMetrics of pkg/storage/node.go reports, and with what.
use metrics_server.Prelude.{
  ℕ, suc, ◌≡◌, refl, ap, Option, none, some, List, [], ◌∷◌, map, Bool, false, not, ◌&&◌, GoString,
  gostring_eq, arith, Option-cases, inl, inr, ltb, keep, All,
}
use metrics_server.Prelude.Int.{pos, ◌<ℤ◌}
use metrics_server.Prelude.Dict.{Dict, lookup, lookup-nil}
use metrics_server.Go.Time.{Time, sub, sub_pos}
use metrics_server.Go.Float.{Floats}
use metrics_server.Go.Result.{ok}
use metrics_server.Kube.{Node, NodeMetrics, Quantities, ResourceList}
use metrics_server.Storage.Types.{MetricsPoint, TimeInfo, resource_usage}
use metrics_server.Storage.Types.Usage.{measured_usage, resource_usage-ok, resource_usage_exact}
use metrics_server.Storage.Node.{NodeStorage, node_usage, collect, get_metrics}
use metrics_server.Storage.Node.Ordered.{IsOrdered}

-- Neither the start time nor the counter has decreased between the two points.
abbrev pub comparable : MetricsPoint → MetricsPoint → Bool
comparable last prev =
    not (ltb last.start_time prev.start_time)
    && not (ltb last.cumulative_cpu_used prev.cumulative_cpu_used)

abbrev pub both : Option MetricsPoint → Option MetricsPoint → Bool
both none prev = false
both (some last) none = false
both (some last) (some prev) = comparable last prev

-- The store holds two comparable points of the node.
abbrev pub reportable : NodeStorage → Node → Bool
reportable s node = both (lookup node.name s.last) (lookup node.name s.prev)

module _ {F Q : Type 0} (fl : Floats F) (qs : Quantities Q) (s : NodeStorage) where
  -- What a reported item says of two stored points, over a positive window.
  pub record Reports (m : NodeMetrics Q) : Type 0 where
    pub last : MetricsPoint
    pub prev : MetricsPoint
    pub has_last : lookup m.name s.last ≡ some last
    pub has_prev : lookup m.name s.prev ≡ some prev
    pub usage_ok :
        resource_usage fl qs last prev
        ≡ ok (m.usage, record { timestamp = m.timestamp; window = m.window })
    -- the difference of the counters over the seconds of the window, and the memory of the later
    pub usage_exact : m.usage ≡ measured_usage fl qs prev last
    pub window_exact : m.window ≡ sub last.timestamp prev.timestamp
    pub window_pos : pos 0 <ℤ m.window

  node_usage_inv :
      (name : GoString) (r : ResourceList Q × TimeInfo)
      → node_usage fl qs s name ≡ some r
      → (last prev : MetricsPoint) × (lookup name s.last ≡ some last)
        × (lookup name s.prev ≡ some prev)
        × (resource_usage fl qs last prev ≡ ok r)
  unfolding node_usage
  node_usage_inv name r h = elim (Option-cases (lookup name s.last)) [
    | inl e ↦ absurd (ground arith)
    | inr (last, e) ↦ elim (Option-cases (lookup name s.prev)) [
      | inl e' ↦ absurd (ground arith)
      | inr (prev, e') ↦ (last, prev, e, e', ground arith)
    ]
  ]

  item-Reports :
      IsOrdered s
      → (m : NodeMetrics Q)
      → node_usage fl qs s m.name
        ≡ some (m.usage, record { timestamp = m.timestamp; window = m.window })
      → Reports m
  item-Reports inv m h =
      let (last, prev, e, e', r) = node_usage_inv m.name _ h in
      let w = (resource_usage-ok fl qs last prev _ _ r).3 in
      record {
        last = last;
        prev = prev;
        has_last = e;
        has_prev = e';
        usage_ok = r;
        usage_exact = resource_usage_exact fl qs last prev _ _ r;
        window_exact = w;
        window_pos = rw w (sub_pos last.timestamp prev.timestamp (ground (arith, inv.at m.name)));
      }

  collect-Reports :
      IsOrdered s
      → (now : ℕ → Time) (i : ℕ) (nodes : List Node) → All Reports (collect fl qs s now i nodes)
  unfolding collect
  collect-Reports inv now i [] = tt
  collect-Reports inv now i (node ∷ nodes) = elim (Option-cases (node_usage fl qs s node.name)) [
    | inl e ↦ rw (e, collect) (collect-Reports inv now i nodes)
    | inr (u, e) ↦ rw (e, collect) (item-Reports inv _ e, collect-Reports inv now (suc i) nodes)
  ]

  collect-names :
      (now : ℕ → Time) (i : ℕ) (nodes : List Node)
      → map (λ m. m.name) (collect fl qs s now i nodes)
        ≡ map (λ n. n.name) (keep (reportable s) nodes)
  unfolding collect node_usage resource_usage
  collect-names now i [] = refl
  collect-names now i (node ∷ nodes) =
      ground (arith, collect-names now i nodes, collect-names now (suc i) nodes)

  -- GetMetrics reports the nodes, in the order of the request, of which the store holds two
  -- points whose start time and counter have not decreased, and no other node.
  pub get_metrics-names :
      (now : ℕ → Time) (nodes : List Node)
      → map (λ m. m.name) (get_metrics fl qs s now nodes)
        ≡ map (λ n. n.name) (keep (reportable s) nodes)
  unfolding get_metrics
  get_metrics-names now nodes = collect-names now 0 nodes

  -- In an ordered store each reported item is the usage between the two stored points of its node,
  -- over a window that is positive and runs from the earlier point to the later.
  pub get_metrics-Reports :
      IsOrdered s
      → (now : ℕ → Time) (nodes : List Node) → All Reports (get_metrics fl qs s now nodes)
  unfolding get_metrics
  get_metrics-Reports inv now nodes = collect-Reports inv now 0 nodes

  collect-no_prev :
      s.prev ≡ [] → (now : ℕ → Time) (i : ℕ) (nodes : List Node) → collect fl qs s now i nodes ≡ []
  unfolding collect node_usage
  collect-no_prev h now i [] = refl
  collect-no_prev h now i (node ∷ nodes) = ground (
    arith,
    collect-no_prev h now i nodes,
    ap (λ (d : Dict GoString MetricsPoint). lookup node.name d) h,
    lookup-nil {V = MetricsPoint} node.name,
  )

  -- Without a previous point nothing is reported.
  pub get_metrics-no_prev :
      s.prev ≡ [] → (now : ℕ → Time) (nodes : List Node) → get_metrics fl qs s now nodes ≡ []
  unfolding get_metrics
  get_metrics-no_prev h now nodes = collect-no_prev h now 0 nodes
