-- ===== src/Scraper/Observed.antt =====
-- What a scrape of pkg/scraper/scraper.go observes besides its counter: how long each request took,
-- and when the last request to a node was made. The lister's error is only logged.
use metrics_server.Prelude.{
  In, ◌+◌, ◌-◌, ◌/◌, ◌≡◌, refl, ap, inl, inr, Option, List, [], ◌∷◌, ◌++◌, true, GoString,
  gostring_eq, leb, if◌then◌else◌, length, length-append, arith,
}
use metrics_server.Prelude.Int.{ℤ, pos, negsuc}
use metrics_server.Prelude.Dict.{Dict, contains, insert, contains-insert}
use metrics_server.Go.Time.{Time, sub, second, unix_epoch}
use metrics_server.Go.Float.{Floats}
use metrics_server.Go.Result.{Result}
use metrics_server.Kube.{Node}
use metrics_server.Storage.Types.{MetricsBatch}
use metrics_server.Scraper.{
  RequestTotal, collect_node, collect_nodes, merge_batches, empty_batch, scrape,
}

-- The three metrics of the scraper, by their label "node" where they have it.
pub record Observations (F : Type 0) : Type 0 where
  pub request_total : RequestTotal
  pub request_duration : List (GoString × F)
  pub last_request_time : Dict GoString F

-- `t.Unix()`
abbrev pub unix_seconds : Time → ℤ
unix_seconds t =
    if leb unix_epoch t
    then pos ((t - unix_epoch) / second)
    else negsuc ((unix_epoch - t - 1) / second)

-- NodeLister.List returns nodes besides its error.
pub record Listing (E : Type 0) : Type 0 where
  pub nodes : List Node
  pub error : Option E

-- `started` and `finished` are the readings of the clock around the request to a node.
module _ {E F : Type 0} (fl : Floats F) (get : Node → Result E MetricsBatch)
    (started finished : Node → Time) where
  open fl use {of_int64, div}

  abbrev pub took : Node → F
  took node = div (of_int64 (sub (finished node) (started node))) (of_int64 (pos second))

  abbrev pub last_second : Node → F
  last_second node = of_int64 (unix_seconds (finished node))

  -- The deferred function of collectNode
  abbrev pub observe : Node → Observations F → Observations F
  observe node m = record m {
    request_duration = m.request_duration ++ (node.name, took node) ∷ [];
    last_request_time = insert node.name (last_second node) m.last_request_time;
  }

  unfoldable pub collect_node_observed :
      Node → Observations F → Option MetricsBatch × Observations F
  unfolding collect_node
  collect_node_observed node m =
      let (batch, total) = collect_node (get node) m.request_total in
      (batch, observe node (record m { request_total = total }))

  collect_nodes_observed : List Node → Observations F → List (Option MetricsBatch) × Observations F
  unfolding collect_node_observed
  collect_nodes_observed [] m = ([], m)
  collect_nodes_observed (node ∷ arrivals) m =
      let (batch, m') = collect_node_observed node m in
      let (batches, m'') = collect_nodes_observed arrivals m' in (batch ∷ batches, m'')

  -- `arrive` puts the nodes in the order of their answers.
  unfoldable pub scrape_observed :
      (List Node → List Node) → Listing E → Observations F → MetricsBatch × Observations F
  unfolding collect_nodes_observed merge_batches
  scrape_observed arrive listing m =
      let (batches, m') = collect_nodes_observed (arrive listing.nodes) m in
      (merge_batches batches empty_batch, m')

  abbrev after : Node → Observations F → Observations F
  after node m =
      observe node (record m { request_total = (collect_node (get node) m.request_total).1 })

  -- What is observed does not change what is collected.
  collected :
      (arrivals : List Node) (m : Observations F)
      → ((collect_nodes_observed arrivals m).0 ≡ (collect_nodes get arrivals m.request_total).0)
        × ((collect_nodes_observed arrivals m).1.request_total
            ≡ (collect_nodes get arrivals m.request_total).1)
  unfolding collect_nodes_observed collect_node_observed collect_nodes
  collected [] m = (refl, refl)
  collected (node ∷ arrivals) m =
      let rest = collected arrivals (after node m) in
      (ap (◌∷◌ (collect_node (get node) m.request_total).0) rest.0, rest.1)

  -- Each request is timed once.
  timed :
      (arrivals : List Node) (m : Observations F)
      → length (collect_nodes_observed arrivals m).1.request_duration
        ≡ length m.request_duration + length arrivals
  unfolding collect_nodes_observed collect_node_observed
  timed [] m = omega arith
  timed (node ∷ arrivals) m = omega (
    arith,
    timed arrivals (after node m),
    length-append m.request_duration ((node.name, took node) ∷ []),
  )

  last_kept :
      (arrivals : List Node) (m : Observations F) (name : GoString)
      → contains name m.last_request_time ≡ true
      → contains name (collect_nodes_observed arrivals m).1.last_request_time ≡ true
  unfolding collect_nodes_observed collect_node_observed
  last_kept [] m name h = h
  last_kept (node ∷ arrivals) m name h =
      last_kept arrivals (after node m) name
        (ground (arith, contains-insert name node.name (last_second node) m.last_request_time))

  last_set :
      (arrivals : List Node) (m : Observations F) (node : Node)
      → In node arrivals
      → contains node.name (collect_nodes_observed arrivals m).1.last_request_time ≡ true
  unfolding collect_nodes_observed collect_node_observed
  last_set [] m node i = absurd i
  last_set (n ∷ arrivals) m node (inl e) =
      last_kept arrivals (after n m) node.name
        (ground (arith, contains-insert node.name n.name (last_second n) m.last_request_time))
  last_set (n ∷ arrivals) m node (inr i) = last_set arrivals (after n m) node i

  -- The observations do not change what is scraped, nor does an error of the lister; each request is
  -- counted and timed once, and each node that was asked has the time of its last request.
  pub scrape_observed-scrape :
      (arrive : List Node → List Node) (listing : Listing E) (m : Observations F) (node : Node)
      → In node (arrive listing.nodes)
      → ((scrape_observed arrive listing m).0
          ≡ (scrape get (arrive listing.nodes) m.request_total).0)
        × ((scrape_observed arrive listing m).1.request_total
            ≡ (scrape get (arrive listing.nodes) m.request_total).1)
        × (length (scrape_observed arrive listing m).1.request_duration
            ≡ length m.request_duration + length (arrive listing.nodes))
        × (contains node.name (scrape_observed arrive listing m).1.last_request_time ≡ true)
  unfolding scrape_observed scrape
  scrape_observed-scrape arrive listing m node asked =
      let arrivals = arrive listing.nodes in
      (
        ap (λ batches. merge_batches batches empty_batch) (collected arrivals m).0,
        (collected arrivals m).1,
        timed arrivals m,
        last_set arrivals m node asked,
      )
