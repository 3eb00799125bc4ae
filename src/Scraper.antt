-- ===== src/Scraper.antt =====
-- pkg/scraper/scraper.go: one scrape of all nodes. The goroutines' answers arrive in any order: the
-- model is given the nodes in the order in which their answers arrive.
pub mod Merged
pub mod Order
pub mod Traced
pub mod Observed
pub mod Goroutines
use metrics_server.Prelude.{
  ℕ, suc, ◌*◌, Option, none, some, List, [], ◌∷◌, ltb, if◌then◌else◌, GoString, gostring_eq, length,
}
use metrics_server.Prelude.Dict.{Dict, contains, insert}
use metrics_server.Prelude.{Eq}
use metrics_server.Go.Result.{Result, ok, err}
use metrics_server.Go.Time.{Duration}
use metrics_server.Api.{Lister, Selectors}
use metrics_server.Client.{KubeletClient}
use metrics_server.Kube.{namespaced_name_eq, Node}
use metrics_server.Storage.Types.{MetricsBatch}

abbrev pub max_delay_ms : ℕ
max_delay_ms = 4 * 1000

abbrev pub delay_per_source_ms : ℕ
delay_per_source_ms = 8

-- `delayMs`, the bound of the random delay before each request
unfoldable pub delay_ms : List Node → ℕ
delay_ms nodes =
    let delay = delay_per_source_ms * length nodes in
    if ltb max_delay_ms delay then max_delay_ms else delay

-- `scraper`; what it makes of a node is the client's GetMetrics.
pub record Scraper (E S : Type 0) : Type 0 where
  pub node_lister : Lister E S Node
  pub kubelet_client : KubeletClient
  pub scrape_timeout : Duration
  pub label_selector : S

-- `labelSelector`; the requirements are `none` where they are nil.
abbrev pub selector_of : {S R T O : Type 0} → Selectors S R T O → Option (List R) → S
selector_of selectors none = selectors.everything
selector_of selectors (some requirements) = selectors.add selectors.everything requirements

unfoldable pub new_scraper :
    {E S R T O : Type 0}
    → Selectors S R T O
    → Lister E S Node
    → KubeletClient
    → Duration
    → Option (List R)
    → Scraper E S
new_scraper selectors node_lister client scrape_timeout label_requirement = record {
  node_lister = node_lister;
  kubelet_client = client;
  scrape_timeout = scrape_timeout;
  label_selector = selector_of selectors label_requirement;
}

-- The counter `request_total`, by its label "success".
pub record RequestTotal : Type 0 where
  pub succeeded : ℕ
  pub failed : ℕ

-- `none` is the nil batch; the error is only logged.
unfoldable pub collect_node :
    {E : Type 0} → Result E MetricsBatch → RequestTotal → Option MetricsBatch × RequestTotal
collect_node (err e) total = (none, record total { failed = suc total.failed })
collect_node (ok ms) total = (some ms, record total { succeeded = suc total.succeeded })

-- A loop over one map of a batch, which keeps the first entry of a key.
merge_entries : {K V : Type 0} ⦃e : Eq K⦄ → Dict K V → Dict K V → Dict K V
merge_entries [] res = res
merge_entries ((k, v) ∷ entries) res =
    merge_entries entries (if contains k res then res else insert k v res)

unfoldable pub merge_batch : Option MetricsBatch → MetricsBatch → MetricsBatch
unfolding merge_entries
merge_batch none res = res
merge_batch (some src) res = record {
  nodes = merge_entries src.nodes res.nodes;
  pods = merge_entries src.pods res.pods;
}

abbrev pub empty_batch : MetricsBatch
empty_batch = record { nodes = []; pods = [] }

pub merge_batches : List (Option MetricsBatch) → MetricsBatch → MetricsBatch
unfolding merge_batch
merge_batches [] res = res
merge_batches (src ∷ batches) res = merge_batches batches (merge_batch src res)

module _ {E : Type 0} (get : Node → Result E MetricsBatch) where
  pub collect_nodes : List Node → RequestTotal → List (Option MetricsBatch) × RequestTotal
  unfolding collect_node
  collect_nodes [] total = ([], total)
  collect_nodes (node ∷ arrivals) total =
      let (m, total') = collect_node (get node) total in
      let (ms, total'') = collect_nodes arrivals total' in (m ∷ ms, total'')

  -- `arrivals` are the nodes that the lister returned, in the order of their answers.
  unfoldable pub scrape : List Node → RequestTotal → MetricsBatch × RequestTotal
  unfolding collect_nodes merge_batches
  scrape arrivals total =
      let (ms, total') = collect_nodes arrivals total in (merge_batches ms empty_batch, total')
