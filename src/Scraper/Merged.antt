-- ===== src/Scraper/Merged.antt =====
-- What a scrape of pkg/scraper/scraper.go collects, in whatever order the answers arrive.
use metrics_server.Prelude.{
  ◌≡◌, ◌≤◌, ◌<◌, Option, none, some, List, [], ◌∷◌, if◌then◌else◌, GoString, gostring_eq, length,
  arith, Eq,
}
use metrics_server.Prelude.Dict.{Dict, lookup, contains, insert, lookup-insert}
use metrics_server.Kube.{NamespacedName, namespaced_name_eq, Node}
use metrics_server.Storage.Types.{MetricsPoint, PodMetricsPoint, MetricsBatch}
use metrics_server.Scraper.{delay_ms, merge_entries, merge_batch, merge_batches}

-- The delay bound is positive, as rand.Intn wants, and at most four seconds, if there is a node.
pub delay_ms_bounds :
    (nodes : List Node) → 0 < length nodes → (0 < delay_ms nodes) × (delay_ms nodes ≤ 4000)
unfolding delay_ms
delay_ms_bounds nodes h = ground arith

-- The first of two entries.
abbrev pub or_else : {V : Type 0} → Option V → Option V → Option V
or_else none b = b
or_else (some a) b = some a

module _ {K V : Type 0} ⦃e : Eq K⦄ (k : K) where
  lookup-merge_entries :
      (entries res : Dict K V)
      → lookup k (merge_entries entries res) ≡ or_else (lookup k res) (lookup k entries)
  unfolding merge_entries lookup contains
  lookup-merge_entries [] res = ground arith
  lookup-merge_entries ((j, v) ∷ entries) res = ground (
    arith,
    lookup-merge_entries entries (if contains j res then res else insert j v res),
    lookup-insert k j v res,
  )

-- The entries under a key of an answer.
abbrev pub node_of : GoString → Option MetricsBatch → Option MetricsPoint
node_of name none = none
node_of name (some batch) = lookup name batch.nodes

abbrev pub pod_of : NamespacedName → Option MetricsBatch → Option PodMetricsPoint
pod_of ref none = none
pod_of ref (some batch) = lookup ref batch.pods

-- The first answer in the order of arrival that has an entry.
abbrev pub first :
    {V : Type 0} → (Option MetricsBatch → Option V) → List (Option MetricsBatch) → Option V
first entry [] = none
first entry (m ∷ ms) = or_else (entry m) (first entry ms)

pub node-merge_batches :
    (name : GoString) (ms : List (Option MetricsBatch)) (res : MetricsBatch)
    → lookup name (merge_batches ms res).nodes
      ≡ or_else (lookup name res.nodes) (first (node_of name) ms)
unfolding merge_batches merge_batch
node-merge_batches name [] res = ground arith
node-merge_batches name (none ∷ ms) res = node-merge_batches name ms res
node-merge_batches name (some m ∷ ms) res = ground (
  arith,
  node-merge_batches name ms (merge_batch (some m) res),
  lookup-merge_entries name m.nodes res.nodes,
)

pub pod-merge_batches :
    (ref : NamespacedName) (ms : List (Option MetricsBatch)) (res : MetricsBatch)
    → lookup ref (merge_batches ms res).pods ≡ or_else (lookup ref res.pods) (first (pod_of ref) ms)
unfolding merge_batches merge_batch
pod-merge_batches ref [] res = ground arith
pod-merge_batches ref (none ∷ ms) res = pod-merge_batches ref ms res
pod-merge_batches ref (some m ∷ ms) res = ground (
  arith,
  pod-merge_batches ref ms (merge_batch (some m) res),
  lookup-merge_entries ref m.pods res.pods,
)
