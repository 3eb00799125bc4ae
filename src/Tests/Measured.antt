-- ===== src/Tests/Measured.antt =====
-- Two scrapes of two nodes by goroutines, and a request to the API after them.
use mathlib.Core.List.{Perm}
use metrics_server.Prelude.{
  ℕ, ◌*◌, ◌≡◌, ◌<◌, ◌⊎◌, refl, List, [], ◌∷◌, GoString, gostring_eq, str, true, false, none, some,
  arith, length,
}
use metrics_server.Prelude.Int.{pos, wrap_int64, ◌*ℤ◌}
use metrics_server.Prelude.Dict.{lookup, contains, insert}
use metrics_server.Go.Time.{second, unix, millis_to_nanos}
use metrics_server.Go.Float.{Fraction, fractions}
use metrics_server.Go.Result.{Result, ok}
use metrics_server.Kube.{Node}
use metrics_server.Resolver.{node_address}
use metrics_server.Storage.Types.{MetricsBatch, MetricsPoint}
use metrics_server.Series.{
  node_cpu_usage_metric_name, node_mem_usage_metric_name, timeseries_matches_name,
}
use metrics_server.Decode.{series, decode_batch}
use metrics_server.Bytes.{has_prefix}
use metrics_server.Client.{Http, get_metrics}
use metrics_server.Storage.{new_storage, store}
use metrics_server.Scraper.{collect_node, scrape, merge_batch}
use metrics_server.Scraper.Traced.{ask}
use metrics_server.Scraper.Goroutines.{
  Scrape, begin, send, receive, Step, sends, receives, closes, Reachable, start, next,
}
use metrics_server.Scraper.Goroutines.Finished.{work, closed-scrape, Reachable-work}
use metrics_server.Api.Node as NodeApi
use metrics_server.Api.Measured.{Round, IsSampled, measured_item, api_of, get_node-IsMeasured}
use metrics_server.Tests.Data.{scaled, clock, minute, node_a, node_b}
use metrics_server.Tests.Scraped.{network, kubelet, no_requests, now, get, text}
use metrics_server.Tests.Asked.{by_name, lister_of}

abbrev pub both : List Node
both = node_b ∷ node_a ∷ []

-- The second node sends first; its answer is received before the other is there.
module _ {E : Type 0} (get : Node → Result E MetricsBatch) where
  abbrev a_sent : Scrape
  a_sent = send get (begin both no_requests) node_a (node_b ∷ [])

  abbrev a_received : Scrape
  a_received = receive get a_sent (collect_node (get node_a) no_requests).0 [] 1

  abbrev b_sent : Scrape
  b_sent = send get a_received node_b []

  abbrev b_received : Scrape
  b_received = receive get b_sent (collect_node (get node_b) a_received.total).0 [] 0

  abbrev pub ended : Scrape
  ended = record b_received { closed = true }

  a_received-Reachable : Reachable get both no_requests a_received
  unfolding send
  a_received-Reachable =
      next a_sent a_received
        (next (begin both no_requests) a_sent start
          (sends (begin both no_requests) (node_b ∷ []) node_a [] refl (omega arith) refl))
        (receives a_sent _ [] 1 refl refl)

  pub ended-Reachable : Reachable get both no_requests ended
  unfolding send
  ended-Reachable =
      next b_received ended
        (next b_sent b_received
          (next a_received b_sent a_received-Reachable
            (sends a_received [] node_b [] refl (omega arith) refl))
          (receives b_sent _ [] 0 refl refl))
        (closes b_received refl refl)

closed-scrape_example :
    (arrivals : List Node) × Perm arrivals both
    × (scrape get arrivals no_requests ≡ ((ended get).res, (ended get).total))
unfolding send
closed-scrape_example = closed-scrape get both no_requests (ended get) (ended-Reachable get) refl

Reachable-work_example :
    ((a_received get).panicked ≡ false)
    × (((a_received get).closed ≡ true) ⊎ ((t : Scrape) × Step get 2 (a_received get) t))
    × (0 < length (a_received get).waiting → length (a_received get).responses < 2)
    × ((t : Scrape) → Step get 2 (a_received get) t → work t < work (a_received get))
Reachable-work_example =
    Reachable-work get both no_requests (a_received get) (a_received-Reachable get)

-- A minute later the counter is 35 seconds.
abbrev later_network : Http GoString Fraction
later_network = record {
  new_request = λ url. ok url;
  send = λ url. ok (record { status_code = 200; body = ok text });
  parse = λ body. record {
    entries =
        series node_cpu_usage_metric_name none (record { num = 35; den = 1 })
        ∷ series node_mem_usage_metric_name none (record { num = 4096; den = 1 })
        ∷ [];
    malformed = false;
  };
  from_time = λ t. pos 160500;
}

abbrev pub round_of : Http GoString Fraction → Round GoString fractions kubelet
round_of http = record {
  http = http;
  time = now;
  nodes = both;
  before = no_requests;
  after = ended (ask http fractions kubelet now);
  ran = ended-Reachable (ask http fractions kubelet now);
  ended = refl;
}

abbrev pub point_at : ℕ → ℕ → MetricsPoint
point_at timestamp cpu = record {
  start_time = 0;
  timestamp = timestamp;
  cumulative_cpu_used = cpu;
  memory_usage = 4096;
}

abbrev earlier_point : MetricsPoint
earlier_point = point_at 62135596900500000000 (5 * second)

abbrev later_point : MetricsPoint
later_point = point_at 62135596960500000000 (35 * second)

abbrev earlier : Round GoString fractions kubelet
earlier = round_of network

abbrev later : Round GoString fractions kubelet
later = round_of later_network

earlier-found : lookup (str "a") earlier.after.res.nodes ≡ some earlier_point
unfolding send merge_batch get_metrics collect_node decode_batch node_address gostring_eq
    timeseries_matches_name has_prefix unix millis_to_nanos wrap_int64 ◌*ℤ◌ insert lookup contains
earlier-found = refl

later-found : lookup (str "a") later.after.res.nodes ≡ some later_point
unfolding send merge_batch get_metrics collect_node decode_batch node_address gostring_eq
    timeseries_matches_name has_prefix unix millis_to_nanos wrap_int64 ◌*ℤ◌ insert lookup contains
later-found = refl

get_node-IsMeasured_example :
    (NodeApi.get
        (api_of fractions scaled clock
          (lister_of (λ n. n.name) both)
          (by_name (λ n. n.name))
          none
          (store (store (new_storage minute) earlier.after.res) later.after.res))
        (str "a")
      ≡ ok (measured_item fractions scaled clock node_a earlier_point later_point))
    × IsSampled GoString fractions kubelet earlier (str "a") earlier_point
    × IsSampled GoString fractions kubelet later (str "a") later_point
unfolding gostring_eq
get_node-IsMeasured_example =
    get_node-IsMeasured fractions scaled clock (lister_of (λ n. n.name) both)
      (by_name (λ n. n.name)) none kubelet (new_storage minute) earlier later node_a earlier_point
      later_point refl earlier-found later-found (omega arith) (omega arith) (omega arith)
