-- ===== src/Api/Measured.antt =====
-- From the kubelets to the API: two scrapes of pkg/scraper/scraper.go, stored by pkg/storage, and a
-- get request of pkg/api/node.go.
pub mod Pods
use mathlib.Core.List.{Perm}
use metrics_server.Prelude.{
  ℕ, ◌≡◌, ◌≤◌, ◌<◌, ap, ◌∙◌, [], ◌∷◌, Option, some, List, GoString, gostring_eq, true, arith,
}
use metrics_server.Prelude.Int.{pos, negsuc}
use metrics_server.Prelude.Dict.{lookup}
use metrics_server.Go.Time.{Time, sub}
use metrics_server.Go.Float.{Floats}
use metrics_server.Go.Result.{ok}
use metrics_server.Kube.{
  Node as KubeNode, NodeMetrics, Quantities, ResourceList, resource_cpu, resource_memory,
  decimal_si, binary_si,
}
use metrics_server.Client.{Http, KubeletClient}
use metrics_server.Scraper.{RequestTotal}
use metrics_server.Scraper.Goroutines.{Scrape, Reachable}
use metrics_server.Scraper.Goroutines.Finished.{closed-scrape}
use metrics_server.Scraper.Traced.{ask, IsOwnPoint, scrape-IsOwnPoint}
use metrics_server.Storage.Types.{MetricsPoint}
use metrics_server.Storage.Types.Usage.{measured_usage, resource_usage-measured}
use metrics_server.Storage.Node
use metrics_server.Storage.Node.Lookups.{store-last}
use metrics_server.Storage.Node.Live.{prev_of_both, node_item}
use metrics_server.Storage.{Storage, store, get_node_metrics}
use metrics_server.Api.{Lister, Selectors}
use metrics_server.Api.Node.{NodeMetricsApi}
use metrics_server.Api.Node as NodeApi
use metrics_server.Api.Node.Answers as NodeAnswers
use metrics_server.Api.Stored.{stored_nodes}

module _ (G : Type 0) {F : Type 0} (fl : Floats F) (kc : KubeletClient) where
  -- A scrape that has ended, whatever its schedule was, and what the kubelets answered in it.
  pub record Round : Type 0 where
    pub http : Http G F
    pub time : KubeNode → Time
    pub nodes : List KubeNode
    pub before : RequestTotal
    pub after : Scrape
    pub ran : Reachable (ask http fl kc time) nodes before after
    pub ended : after.closed ≡ true

  -- The point is from the samples of the node's own kubelet.
  abbrev pub IsSampled : Round → GoString → MetricsPoint → Type 0
  IsSampled r name p =
      (arrivals : List KubeNode) × Perm arrivals r.nodes
      × IsOwnPoint r.http fl kc r.time arrivals name p

  found-IsSampled :
      (r : Round) (name : GoString) (p : MetricsPoint)
      → lookup name r.after.res.nodes ≡ some p
      → IsSampled r name p
  found-IsSampled r name p found =
      let (arrivals, same, e) =
        closed-scrape (ask r.http fl kc r.time) r.nodes r.before r.after r.ran r.ended in
      (
        arrivals,
        same,
        scrape-IsOwnPoint r.http fl kc r.time arrivals r.before name p
            (ap (λ (batch, total). lookup name batch.nodes) e ∙ found),
      )

module _ {F Q : Type 0} (fl : Floats F) (qs : Quantities Q) where
  abbrev pub measured_item : (ℕ → Time) → KubeNode → MetricsPoint → MetricsPoint → NodeMetrics Q
  measured_item now node p q = record {
    name = node.name;
    labels = node.labels;
    creation_timestamp = now 0;
    timestamp = q.timestamp;
    window = sub q.timestamp p.timestamp;
    usage = measured_usage fl qs p q;
  }

module _ {E F S R T Q : Type 0} (fl : Floats F) (qs : Quantities Q) (now : ℕ → Time)
    (lister : Lister E S KubeNode) (selectors : Selectors S R T KubeNode)
    (node_selector : Option (List R)) where
  abbrev pub api_of : Storage → NodeMetricsApi E S R T Q
  api_of s = record {
    metrics = stored_nodes fl qs now s;
    node_lister = lister;
    selectors = selectors;
    node_selector = node_selector;
  }

  module _ {G : Type 0} (kc : KubeletClient) where
    -- Two scrapes in a row find a node, under any schedule of their goroutines, the second with a
    -- newer sample, and neither its start time nor its counter has decreased. Then, whatever was
    -- stored before, a get request for the node is answered with its usage between the two samples,
    -- and both samples are those of the node's own kubelet. The usage is the difference of the
    -- counters over the seconds between the samples, and the memory of the later.
    pub get_node-IsMeasured :
        (s : Storage) (earlier later : Round G fl kc) (node : KubeNode) (p q : MetricsPoint)
        → lister.get node.name ≡ ok (some node)
        → lookup node.name earlier.after.res.nodes ≡ some p
        → lookup node.name later.after.res.nodes ≡ some q
        → p.timestamp < q.timestamp
        → p.start_time ≤ q.start_time
        → p.cumulative_cpu_used ≤ q.cumulative_cpu_used
        → (NodeApi.get (api_of (store (store s earlier.after.res) later.after.res)) node.name
            ≡ ok (measured_item fl qs now node p q))
          × IsSampled G fl kc earlier node.name p
          × IsSampled G fl kc later node.name q
    unfolding stored_nodes store get_node_metrics
    get_node-IsMeasured s earlier later node p q listed scraped again newer start cpu =
        let first = earlier.after.res in
        let second = later.after.res in
        let item =
          node_item fl qs (Node.store (Node.store s.nodes first) second) now node p q _ _
            (store-last (Node.store s.nodes first) second node.name ∙ again)
            (prev_of_both s.nodes first second node.name p q scraped again newer)
            (resource_usage-measured fl qs p q start cpu) in
        (
          NodeAnswers.get-read_one _ node.name node _ listed (ap ok item),
          found-IsSampled G fl kc earlier node.name p scraped,
          found-IsSampled G fl kc later node.name q again,
        )
