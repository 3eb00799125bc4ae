-- ===== src/Tests/Data.antt =====
-- The inputs of the tests: nodes, pods, and the batches of two scrapes.
use metrics_server.Prelude.{ℕ, ◌*◌, ◌+◌, List, [], ◌∷◌, ◌++◌, str}
use metrics_server.Prelude.Int.{ℤ, pos}
use metrics_server.Go.Time.{Time, Duration, second}
use metrics_server.Kube.{
  Node, NamespacedName, PartialObjectMetadata, Quantities, Format, decimal_si,
}
use metrics_server.Storage.Types.{MetricsPoint, MetricsBatch}

-- A quantity as the list of what was added, each a value with its scale and format.
abbrev pub Scaled : Type 0
Scaled = List ((ℤ × ℤ) × Format)

abbrev formatted : Format → Scaled → Scaled
formatted f [] = []
formatted f ((v, g) ∷ q) = (v, f) ∷ formatted f q

abbrev pub scaled : Quantities Scaled
scaled = record {
  new_scaled_quantity = λ value scale. ((value, scale), decimal_si) ∷ [];
  with_format = λ q f. formatted f q;
  zero_quantity = [];
  add = λ p q. p ++ q;
  to_string = λ q. [];
}

abbrev pub clock : ℕ → Time
clock n = 1000 * second + n

abbrev pub minute : Duration
minute = pos (60 * second)

abbrev pub node_a : Node
node_a = record {
  name = str "a";
  labels = [];
  addresses =
      record { type = str "InternalIP"; address = str "10.0.0.1" }
      ∷ record { type = str "Hostname"; address = str "a.local" }
      ∷ [];
  kubelet_port = pos 10250;
}

abbrev pub node_b : Node
node_b = record {
  name = str "b";
  labels = [];
  addresses = record { type = str "InternalIP"; address = str "10.0.0.2" } ∷ [];
  kubelet_port = pos 0;
}

abbrev pub pod_x : PartialObjectMetadata
pod_x = record { name = str "x"; namespace = str "default"; labels = [] }

abbrev pub ref_x : NamespacedName
ref_x = record { namespace = str "default"; name = str "x" }

abbrev pub point : Time → Time → ℕ → MetricsPoint
point start_time timestamp cpu = record {
  start_time = start_time;
  timestamp = timestamp;
  cumulative_cpu_used = cpu;
  memory_usage = 4096;
}

-- A node and a pod with one container, started at second 10.
abbrev pub batch_at : Time → ℕ → MetricsBatch
batch_at timestamp cpu = record {
  nodes = (str "a", point 0 timestamp cpu) ∷ [];
  pods = (ref_x, record { containers = (str "main", point (10 * second) timestamp cpu) ∷ [] }) ∷ [];
}

abbrev pub first_batch : MetricsBatch
first_batch = batch_at (100 * second) (5 * second)

abbrev pub second_batch : MetricsBatch
second_batch = batch_at (160 * second) (35 * second)
