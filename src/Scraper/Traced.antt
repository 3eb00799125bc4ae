-- ===== src/Scraper/Traced.antt =====
-- Where the points of a scrape come from: pkg/scraper/scraper.go with the client of
-- pkg/scraper/client/resource/client.go.
use metrics_server.Prelude.{
  In, ◌≡◌, refl, sym, ◌∙◌, inl, inr, Option, none, some, List, [], ◌∷◌, GoString, gostring_eq,
  arith, Bool-cases, ◌==◌, ==_iff,
}
use metrics_server.Prelude.Dict.{lookup, lookup-nil}
use metrics_server.Go.Time.{Time}
use metrics_server.Go.Float.{Floats}
use metrics_server.Go.Result.{Result, ok, Result-cases}
use metrics_server.Kube.{NamespacedName, namespaced_name_eq, Node}
use metrics_server.Storage.Types.{MetricsPoint, PodMetricsPoint, MetricsBatch}
use metrics_server.Storage.Pod.{Pods}
use metrics_server.Decode.Kept.{AllPoints, AllPods}
use metrics_server.Decode.Complete.{IsComplete}
use metrics_server.Decode.Sourced.{IsContainerOf, decode_batch-container}
use metrics_server.Decode.Samples.{IsNodeOf, decode_batch-node}
use metrics_server.Client.{Http, ClientError, KubeletClient, get_metrics}
use metrics_server.Client.Answers.{IsAnswer, get_metrics-IsAnswer}
use metrics_server.Scraper.{RequestTotal, scrape}
use metrics_server.Scraper.Merged.{node_of, pod_of, first}
use metrics_server.Scraper.Order.{answers, first_some, node-scrape, pod-scrape}

lookup-AllPods :
    (P : MetricsPoint → Type 0) (ref : NamespacedName) (pods : Pods) (pod : PodMetricsPoint)
    → AllPods P pods
    → lookup ref pods ≡ some pod
    → AllPoints P pod.containers
unfolding lookup
lookup-AllPods P ref [] pod h e = absurd (cc)
lookup-AllPods P ref ((k, q) ∷ pods) pod h e = elim (Bool-cases (ref == k)) [
  | inl same ↦ let it : q ≡ pod = ground arith in rw (sym it) h.0
  | inr other ↦ lookup-AllPods P ref pods pod h.1 (ground arith)
]

lookup_single :
    (name key : GoString) (p point : MetricsPoint)
    → lookup name ((key, point) ∷ []) ≡ some p
    → (name ≡ key) × (point ≡ p)
unfolding lookup
lookup_single name key p point h = elim (Bool-cases (name == key)) [
  | inl same ↦ ((==_iff name key).0 same, ground arith)
  | inr other ↦ absurd (ground arith)
]

module _ {E F : Type 0} (http : Http E F) (fl : Floats F) (kc : KubeletClient)
    (time : Node → Time) where
  abbrev pub ask : Node → Result (ClientError E) MetricsBatch
  ask node = get_metrics http fl kc node (time node)

  -- The first entry among the answers is that of a node whose request succeeded.
  answered_by :
      {V : Type 0} (entry : Option MetricsBatch → Option V) (arrivals : List Node) (v : V)
      → entry none ≡ none
      → first entry (answers ask arrivals) ≡ some v
      → (n : Node) × (batch : MetricsBatch) × In n arrivals
        × (ask n ≡ ok batch)
        × (entry (some batch) ≡ some v)
  answered_by entry arrivals v nil h =
      let (n, i, found) = first_some ask entry arrivals v h in
      elim (Result-cases (ask n)) [
        | inl (e, failed) ↦ absurd (ground arith)
        | inr (batch, got) ↦ (n, batch, i, got, ground arith)
      ]

  -- The point of a node, from the answer of this node's own kubelet.
  pub record IsOwnPoint (arrivals : List Node) (name : GoString) (p : MetricsPoint) : Type 0 where
    pub node : Node
    pub asked : In node arrivals
    pub own : name ≡ node.name
    pub batch : MetricsBatch
    pub answered : IsAnswer http fl kc node (time node) batch
    pub sampled : IsNodeOf fl (http.from_time (time node)) (http.parse answered.body).entries p
    pub complete : IsComplete p

  -- The containers of a pod, from the answer of a kubelet that was asked.
  pub record IsReceived (arrivals : List Node) (ref : NamespacedName) (pod : PodMetricsPoint)
      : Type 0 where
    pub node : Node
    pub asked : In node arrivals
    pub batch : MetricsBatch
    pub answered : IsAnswer http fl kc node (time node) batch
    pub found : lookup ref batch.pods ≡ some pod
    pub sampled :
        (name : GoString) (p : MetricsPoint)
        → lookup name pod.containers ≡ some p
        → IsContainerOf fl (http.parse answered.body).entries ref name p
    pub complete : AllPoints IsComplete pod.containers

  own_point :
      (arrivals : List Node) (node : Node) (batch : MetricsBatch) (name : GoString)
      (p : MetricsPoint)
      → In node arrivals
      → ask node ≡ ok batch
      → lookup name batch.nodes ≡ some p
      → IsOwnPoint arrivals name p
  own_point arrivals node batch name p asked got found =
      let answered = (get_metrics-IsAnswer http fl kc node (time node) batch got).0 in
      let (point, sampled, shape) =
        decode_batch-node fl (http.parse answered.body) (http.from_time (time node)) node.name batch
          answered.decoded in
      elim shape [
        | inl (no_node, _) ↦ absurd (ground (arith, lookup-nil {V = MetricsPoint} name))
        | inr (one_node, complete) ↦
            let (own, same) = lookup_single name node.name p point (rw one_node at found) in
            record {
              node = node;
              asked = asked;
              own = own;
              batch = batch;
              answered = answered;
              sampled = rw (sym same) sampled;
              complete = rw (sym same) complete;
            }
      ]

  -- A node's point that a scrape finds is that of a node that was asked under this name, with the
  -- counters of the last samples in the answer of this node's own kubelet, and it is complete.
  pub scrape-IsOwnPoint :
      (arrivals : List Node) (total : RequestTotal) (name : GoString) (p : MetricsPoint)
      → lookup name (scrape ask arrivals total).0.nodes ≡ some p
      → IsOwnPoint arrivals name p
  scrape-IsOwnPoint arrivals total name p h =
      let (node, batch, asked, got, found) =
        answered_by (node_of name) arrivals p refl
          (sym (node-scrape ask arrivals total name) ∙ h) in
      own_point arrivals node batch name p asked got found

  -- The containers of a pod that a scrape finds are those of one answer, with the values of the last
  -- samples in it, and complete.
  pub scrape-IsReceived :
      (arrivals : List Node) (total : RequestTotal) (ref : NamespacedName) (pod : PodMetricsPoint)
      → lookup ref (scrape ask arrivals total).0.pods ≡ some pod
      → IsReceived arrivals ref pod
  scrape-IsReceived arrivals total ref pod h =
      let (node, batch, asked, got, found) =
        answered_by (pod_of ref) arrivals pod refl (sym (pod-scrape ask arrivals total ref) ∙ h) in
      let (answered, complete) = get_metrics-IsAnswer http fl kc node (time node) batch got in
      record {
        node = node;
        asked = asked;
        batch = batch;
        answered = answered;
        found = found;
        sampled = λ name p.
            decode_batch-container fl (http.parse answered.body) (http.from_time (time node))
              node.name batch answered.decoded ref name pod p found;
        complete = lookup-AllPods IsComplete ref batch.pods pod complete.1 found;
      }
