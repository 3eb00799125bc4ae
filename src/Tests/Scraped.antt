-- ===== src/Tests/Scraped.antt =====
-- A scrape of two nodes, one of which fails, the address and the request of a node, and a server.
use metrics_server.Prelude.{
  In, ◌*◌, ◌≡◌, inl, inr, refl, [], ◌∷◌, All, if◌then◌else◌, eqb, GoString, gostring_eq, str, true,
  false, Option, none, some,
}
use metrics_server.Prelude.Int.{pos, negsuc, ◌*ℤ◌, wrap_int64}
use metrics_server.Prelude.Dict.{lookup, contains, insert}
use metrics_server.Go.Time.{Time, second, unix, millis_to_nanos}
use metrics_server.Go.Float.{Fraction, fractions}
use metrics_server.Go.Result.{Result, ok, err}
use metrics_server.Kube.{Node, namespaced_name_eq}
use metrics_server.Resolver.{
  AddressError, no_address_matched, default_address_type_priority, node_address,
}
use metrics_server.Resolver.Preferred.{Unused, IsPreferred, node_address-IsPreferred}
use metrics_server.Storage.Types.{MetricsPoint, MetricsBatch}
use metrics_server.Series.{
  node_cpu_usage_metric_name, node_mem_usage_metric_name, timeseries_matches_name,
}
use metrics_server.Decode.{series, Response, decode_batch}
use metrics_server.Bytes.{has_prefix}
use metrics_server.Client.{Http, KubeletClient, get_metrics}
use metrics_server.Scraper.Traced.{ask, IsOwnPoint, scrape-IsOwnPoint}
use metrics_server.Scraper.{RequestTotal, scrape}
use metrics_server.Scraper.Order.{answer}
use metrics_server.Storage.{new_storage}
use metrics_server.Server.{Server, new_server, max_tick_wait}
use metrics_server.Tests.Data.{minute, node_a, node_b, first_batch}

node_address-IsPreferred_example :
    ((address : GoString)
      → node_address default_address_type_priority node_a ≡ ok address
      → IsPreferred default_address_type_priority node_a.addresses address)
    × ((e : AddressError)
        → node_address default_address_type_priority node_a ≡ err e
        → (e ≡ no_address_matched default_address_type_priority)
          × All (Unused node_a.addresses) default_address_type_priority)
node_address-IsPreferred_example = node_address-IsPreferred default_address_type_priority node_a

-- A network in which each request is answered with the same text.
abbrev pub text : GoString
text = str "node_cpu_usage_seconds_total 5"

abbrev pub parsed : Response Fraction
parsed = record {
  entries =
      series node_cpu_usage_metric_name none (record { num = 5; den = 1 })
      ∷ series node_mem_usage_metric_name none (record { num = 4096; den = 1 })
      ∷ [];
  malformed = false;
}

abbrev pub network : Http GoString Fraction
network = record {
  new_request = λ url. ok url;
  send = λ url. ok (record { status_code = 200; body = ok text });
  parse = λ body. parsed;
  from_time = λ t. pos 100500;
}

abbrev pub kubelet : KubeletClient
kubelet = record {
  default_port = pos 10250;
  use_node_status_port = true;
  scheme = str "https";
  address_type_priority = default_address_type_priority;
}

abbrev pub answered : MetricsBatch
answered = record {
  nodes =
      (
        str "a",
        record {
          start_time = 0;
          timestamp = 62135596900500000000;
          cumulative_cpu_used = 5 * second;
          memory_usage = 4096;
        },
      )
      ∷ [];
  pods = [];
}

abbrev pub no_requests : RequestTotal
no_requests = record { succeeded = 0; failed = 0 }

abbrev point_a : MetricsPoint
point_a = record {
  start_time = 0;
  timestamp = 62135596900500000000;
  cumulative_cpu_used = 5 * second;
  memory_usage = 4096;
}

abbrev pub now : Node → Time
now node = 100 * second

a-scraped :
    lookup
      (str "a")
      (scrape (ask network fractions kubelet now) (node_b ∷ node_a ∷ []) no_requests).0.nodes
    ≡ some point_a
unfolding scrape get_metrics decode_batch node_address gostring_eq timeseries_matches_name
    has_prefix unix millis_to_nanos wrap_int64 ◌*ℤ◌ insert lookup contains
a-scraped = refl

scrape-IsOwnPoint_example :
    IsOwnPoint network fractions kubelet now (node_b ∷ node_a ∷ []) (str "a") point_a
scrape-IsOwnPoint_example =
    scrape-IsOwnPoint network fractions kubelet now (node_b ∷ node_a ∷ []) no_requests (str "a")
      point_a a-scraped

-- Node "a" answers, and node "b" cannot be reached.
abbrev pub get : Node → Result GoString MetricsBatch
get node = elim node.kubelet_port [
  | pos n ↦ if eqb n 0 then err (str "unreachable") else ok first_batch
  | negsuc n ↦ err (str "unreachable")
]

pub one_answer :
    {V : Type 0} (entry : Option MetricsBatch → Option V)
    → entry none ≡ none
    → (m n : Node) (v w : V) → In m (node_a ∷ node_b ∷ [])
    → In n (node_a ∷ node_b ∷ [])
    → entry (answer get m) ≡ some v
    → entry (answer get n) ≡ some w
    → v ≡ w
one_answer entry e m n v w (inl p) (inl q) f g = let f' = rw p at f in let g' = rw q at g in cc
one_answer entry e m n v w (inl p) (inr (inl q)) f g = let g' = rw q at g in absurd cc
one_answer entry e m n v w (inl p) (inr (inr i)) f g = elim i [ ]
one_answer entry e m n v w (inr (inl p)) i f g = let f' = rw p at f in absurd cc
one_answer entry e m n v w (inr (inr i)) j f g = elim i [ ]

abbrev pub server : Server
server = new_server (new_storage minute) minute

pub server-wait : max_tick_wait fractions server ≡ pos (90 * second)
unfolding max_tick_wait
server-wait = refl
