-- ===== src/Monitoring.antt =====
-- The metrics that the program declares (pkg/server/server.go, pkg/scraper/scraper.go,
-- pkg/api/monitoring.go, pkg/storage/monitoring.go) and their registration (pkg/server/metrics.go).
-- The registry of the Prometheus client is a parameter.
pub mod Registered
use metrics_server.Prelude.{
  ◌≡◌, List, [], ◌∷◌, ◌++◌, All, Option, none, some, GoString, str, ◌≢◌, ℕ, Bool, true, false, ◌&&◌,
}
use metrics_server.Go.Time.{Duration}
use metrics_server.Go.Float.{Floats}
use metrics_server.Go.Result.{Result, ok, err, ◌>>=◌, map_err}
use metrics_server.Options.{is_set}
use metrics_server.Buckets.{buckets_for_scrape_duration}
use metrics_server.Buckets.Ordered.{Increasing}

-- The options of a metric; only a histogram has buckets.
pub record Metric (F : Type 0) : Type 0 where
  pub namespace : GoString
  pub subsystem : GoString
  pub name : GoString
  pub buckets : Option (List F)
  pub labels : List GoString

abbrev pub is_named : {F : Type 0} → Metric F → Bool
is_named m = is_set m.namespace && is_set m.subsystem && is_set m.name

-- A histogram whose buckets are not in increasing order is refused by a panic.
abbrev pub HasGoodBuckets : {F : Type 0} → Floats F → Metric F → Type 0
HasGoodBuckets fl m = elim m.buckets [ none ↦ Unit | some buckets ↦ Increasing fl buckets ]

-- metrics.KubeRegistry with its methods, metrics.DefBuckets and metrics.ExponentialBuckets, and
-- prometheus.BuildFQName. A registry takes every metric whose name it does not have.
pub record Registries (G E F : Type 0) (fl : Floats F) : Type 0 where
  pub def_buckets : List F
  pub exponential_buckets : F → F → ℕ → List F
  pub build_fq_name : GoString → GoString → GoString → GoString
  pub build_fq_name-join :
      (m : Metric F)
      → is_named m ≡ true
      → build_fq_name m.namespace m.subsystem m.name
        ≡ m.namespace ++ str "_" ++ m.subsystem ++ str "_" ++ m.name
  pub new_kube_registry : G
  pub register : G → Metric F → Result E G
  pub registered : G → List (Metric F)
  pub registered-new : registered new_kube_registry ≡ []
  pub registered-register :
      (g : G) (m : Metric F)
      → HasGoodBuckets fl m
      → All
          (λ n.
            build_fq_name n.namespace n.subsystem n.name
            ≢ build_fq_name m.namespace m.subsystem m.name)
          (registered g)
      → (g' : G) × (register g m ≡ ok g') × (registered g' ≡ registered g ++ m ∷ [])

pub data MetricsError (E : Type 0) : Type 0 where
  -- of BucketsForScrapeDuration: an index out of range
  panicked : MetricsError E
  server_metrics scraper_metrics api_metrics storage_metrics : E → MetricsError E

module _ {G E F : Type 0} (fl : Floats F) (registries : Registries G E F fl) where
  open registries use {def_buckets, exponential_buckets, new_kube_registry, register}
  open fl use {constant}

  abbrev pub request_duration : Metric F
  request_duration = record {
    namespace = str "metrics_server";
    subsystem = str "kubelet";
    name = str "request_duration_seconds";
    buckets = some def_buckets;
    labels = str "node" ∷ [];
  }

  abbrev pub request_total : Metric F
  request_total = record {
    namespace = str "metrics_server";
    subsystem = str "kubelet";
    name = str "request_total";
    buckets = none;
    labels = str "success" ∷ [];
  }

  abbrev pub last_request_time : Metric F
  last_request_time = record {
    namespace = str "metrics_server";
    subsystem = str "kubelet";
    name = str "last_request_time_seconds";
    buckets = none;
    labels = str "node" ∷ [];
  }

  abbrev pub metric_freshness : Metric F
  metric_freshness = record {
    namespace = str "metrics_server";
    subsystem = str "api";
    name = str "metric_freshness_seconds";
    buckets = some (exponential_buckets (constant 1 0) (constant 1364 3) 20);
    labels = [];
  }

  abbrev pub points_stored : Metric F
  points_stored = record {
    namespace = str "metrics_server";
    subsystem = str "storage";
    name = str "points";
    buckets = none;
    labels = str "type" ∷ [];
  }

  abbrev pub tick_duration : List F → Metric F
  tick_duration buckets = record {
    namespace = str "metrics_server";
    subsystem = str "manager";
    name = str "tick_duration_seconds";
    buckets = some buckets;
    labels = [];
  }

  -- The loop of RegisterScraperMetrics
  pub register_all : List (Metric F) → G → Result E G
  register_all [] g = ok g
  register_all (m ∷ ms) g = do g' ← register g m; register_all ms g'

  abbrev pub scraper_metrics_list : List (Metric F)
  scraper_metrics_list = request_duration ∷ request_total ∷ last_request_time ∷ []

  pub register_scraper_metrics : G → Result E G
  unfolding register_all
  register_scraper_metrics g = register_all scraper_metrics_list g

  pub register_api_metrics : G → Result E G
  register_api_metrics g = register g metric_freshness

  pub register_storage_metrics : G → Result E G
  register_storage_metrics g = register g points_stored

  pub register_server_metrics : Duration → G → Result (MetricsError E) G
  register_server_metrics resolution g =
      elim (buckets_for_scrape_duration fl def_buckets resolution) [
        | none ↦ err panicked
        | some buckets ↦ map_err server_metrics (register g (tick_duration buckets))
      ]

  unfoldable pub register_metrics : Duration → G → Result (MetricsError E) G
  unfolding register_server_metrics register_scraper_metrics register_api_metrics
      register_storage_metrics
  register_metrics resolution g = do
    g1 ← register_server_metrics resolution g
    g2 ← map_err scraper_metrics (register_scraper_metrics g1)
    g3 ← map_err api_metrics (register_api_metrics g2)
    map_err storage_metrics (register_storage_metrics g3)
