-- ===== src/Tests/Received.antt =====
-- Two scrapes that find a container, and a request for its pod after them.
use metrics_server.Prelude.{
  ℕ, ◌*◌, ◌≡◌, refl, [], ◌∷◌, ◌++◌, GoString, gostring_eq, str, false, none, some, arith,
  Bool-cases, inl, inr, ◌==◌, ==_iff,
}
use metrics_server.Prelude.Int.{ℤ, pos, wrap_int64, ◌*ℤ◌}
use metrics_server.Prelude.Dict.{lookup, contains, insert}
use metrics_server.Go.Time.{second, unix, millis_to_nanos}
use metrics_server.Go.Float.{Fraction, fractions}
use metrics_server.Go.Result.{ok}
use metrics_server.Kube.{namespaced_name_eq, NamespacedName-discrete}
use metrics_server.Resolver.{node_address}
use metrics_server.Storage.Types.{MetricsPoint}
use metrics_server.Storage.Pod
use metrics_server.Storage.Pod.{Pods}
use metrics_server.Storage.Pod.Containers.{find}
use metrics_server.Storage.Pod.Live.{HasPrevious}
use metrics_server.Series.{
  container_cpu_usage_metric_name, container_mem_usage_metric_name, timeseries_matches_name,
  parse_container_labels,
}
use metrics_server.Decode.{series, decode_batch}
use metrics_server.Decode.Labels.{container_labels}
use metrics_server.Bytes.{has_prefix, index, index_byte}
use metrics_server.Client.{Http, get_metrics}
use metrics_server.Scraper.{collect_node, merge_batch}
use metrics_server.Scraper.Goroutines.{send}
use metrics_server.Storage.{new_storage}
use metrics_server.Kube.{PodMetrics}
use metrics_server.Api.Measured.{Round}
use metrics_server.Api.Measured.Pods.{IsPodMeasured, get_pod-IsPodMeasured}
use metrics_server.Tests.Data.{Scaled, scaled, clock, minute, pod_x, ref_x}
use metrics_server.Tests.Scraped.{kubelet, text}
use metrics_server.Tests.Measured.{round_of, point_at}
use metrics_server.Tests.Asked.{by_name, lister_of}

abbrev labels : GoString
labels = container_labels (str "main") (str "default") (str "x")

-- The container of the pod has used the CPU for these seconds, at this time in milliseconds.
abbrev used : ℕ → ℤ → Http GoString Fraction
used seconds millis = record {
  new_request = λ url. ok url;
  send = λ url. ok (record { status_code = 200; body = ok text });
  parse = λ body. record {
    entries =
        series (container_cpu_usage_metric_name ++ labels) none (record { num = seconds; den = 1 })
        ∷ series (container_mem_usage_metric_name ++ labels) none (record { num = 4096; den = 1 })
        ∷ [];
    malformed = false;
  };
  from_time = λ t. millis;
}

abbrev earlier : Round GoString fractions kubelet
earlier = round_of (used 5 (pos 100500))

abbrev later : Round GoString fractions kubelet
later = round_of (used 35 (pos 160500))

abbrev one_container : MetricsPoint → Pods
one_container p = (ref_x, record { containers = (str "main", p) ∷ [] }) ∷ []

abbrev earlier_point : MetricsPoint
earlier_point = point_at 62135596900500000000 (5 * second)

abbrev later_point : MetricsPoint
later_point = point_at 62135596960500000000 (35 * second)

earlier-pods : earlier.after.res.pods ≡ one_container earlier_point
unfolding send merge_batch get_metrics collect_node decode_batch node_address gostring_eq
    timeseries_matches_name has_prefix unix millis_to_nanos wrap_int64 ◌*ℤ◌ insert lookup contains
    parse_container_labels index index_byte namespaced_name_eq NamespacedName-discrete
earlier-pods = refl

later-pods : later.after.res.pods ≡ one_container later_point
unfolding send merge_batch get_metrics collect_node decode_batch node_address gostring_eq
    timeseries_matches_name has_prefix unix millis_to_nanos wrap_int64 ◌*ℤ◌ insert lookup contains
    parse_container_labels index index_byte namespaced_name_eq NamespacedName-discrete
later-pods = refl

found_in : (p : MetricsPoint) → find ref_x (str "main") (one_container p) ≡ some p
unfolding lookup gostring_eq namespaced_name_eq NamespacedName-discrete
found_in p = refl

only_main :
    (p q : MetricsPoint) (name : GoString)
    → find ref_x name (one_container p) ≡ some q
    → (name ≡ str "main") × (q ≡ p)
unfolding lookup namespaced_name_eq NamespacedName-discrete
only_main p q name e = elim (Bool-cases (name == str "main")) [
  | inl h ↦ ((==_iff name (str "main")).0 h, ground arith)
  | inr h ↦ absurd (ground arith)
]

has_previous :
    (name : GoString) (q : MetricsPoint)
    → find ref_x name later.after.res.pods ≡ some q
    → HasPrevious (Pod.empty minute) earlier.after.res ref_x name q
has_previous name q e =
    let (main, same) = only_main later_point q name (rw later-pods at e) in
    inr (
      earlier_point,
      rw (main, earlier-pods) (found_in earlier_point),
      rw same (omega arith),
      rw same (omega arith),
    )

get_pod-IsPodMeasured_example :
    (m : PodMetrics Scaled) × IsPodMeasured fractions scaled clock
      (λ namespace. lister_of (λ p. p.name) (pod_x ∷ []))
      (by_name (λ p. p.name))
      kubelet
      (new_storage minute)
      earlier
      later
      pod_x
      m
unfolding gostring_eq new_storage
get_pod-IsPodMeasured_example =
    get_pod-IsPodMeasured fractions scaled clock (λ namespace. lister_of (λ p. p.name) (pod_x ∷ []))
      (by_name (λ p. p.name)) kubelet (new_storage minute) earlier later pod_x (str "main")
      later_point refl (rw later-pods (found_in later_point)) has_previous
