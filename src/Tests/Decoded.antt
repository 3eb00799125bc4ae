-- ===== src/Tests/Decoded.antt =====
-- Responses of a kubelet: a good one, one that is cut off, and one with a series without labels.
use metrics_server.Prelude.{
  ℕ, ◌≡◌, inl, inr, refl, List, [], ◌∷◌, ◌++◌, GoString, gostring_eq, str, true, false, none, some,
}
use metrics_server.Prelude.Int.{pos, wrap_int64, ◌*ℤ◌}
use metrics_server.Go.Float.{Fraction, fractions}
use metrics_server.Go.Result.{ok, err}
use metrics_server.Bytes.{has_prefix, index, index_byte}
use metrics_server.Bytes.Laws.{Lacks-of_check}
use metrics_server.Storage.Types.{MetricsPoint, PodMetricsPoint, MetricsBatch}
use metrics_server.Go.Time.{unix, millis_to_nanos}
use metrics_server.Prelude.Dict.{insert, lookup, contains}
use metrics_server.Kube.{NamespacedName, namespaced_name_eq, NamespacedName-discrete}
use metrics_server.Series.{
  timeseries_matches_name, parse_container_labels, node_cpu_usage_metric_name,
  node_mem_usage_metric_name, container_cpu_usage_metric_name,
}
use metrics_server.Decode.{Entry, series, other, Response, parse_failed, panicked, decode_batch}
use metrics_server.Decode.Names.{timeseries_matches_name_iff}
use metrics_server.Decode.Labels.{container_labels, parse-container_labels}
use metrics_server.Decode.Kept.{AllPoints, AllPods}
use metrics_server.Decode.Complete.{IsComplete, decode_batch-AllComplete}
use metrics_server.Decode.Sourced.{IsContainerOf, decode_batch-container}
use metrics_server.Decode.Samples.{NodesOf, decode_batch-node}
use metrics_server.Decode.Total.{decode_batch-total, decode_batch-panics}

abbrev float : ℕ → Fraction
float n = record { num = n; den = 1 }

abbrev labels : GoString
labels = container_labels (str "main") (str "default") (str "x")

abbrev entries : List (Entry Fraction)
entries =
    other
    ∷ series node_cpu_usage_metric_name (some (pos 100000)) (float 5)
    ∷ series node_mem_usage_metric_name (some (pos 100000)) (float 4096)
    ∷ series (container_cpu_usage_metric_name ++ labels) none (float 5)
    ∷ series (str "container_memory_working_set_bytes" ++ labels) none (float 4096)
    ∷ []

abbrev response : Response Fraction
response = record { entries = entries; malformed = false }

response-decoded :
    (batch : MetricsBatch) × (decode_batch fractions response (pos 100500) (str "a") ≡ ok batch)
unfolding timeseries_matches_name has_prefix parse_container_labels index index_byte
response-decoded = (decode_batch-total fractions response (pos 100500) (str "a") refl).0 refl

abbrev ref_x : NamespacedName
ref_x = record { namespace = str "default"; name = str "x" }

abbrev point_after : ℕ → MetricsPoint
point_after ms = record {
  start_time = 0;
  timestamp = unix (millis_to_nanos (pos ms));
  cumulative_cpu_used = 5000000000;
  memory_usage = 4096;
}

abbrev pod_x : PodMetricsPoint
pod_x = record { containers = (str "main", point_after 100500) ∷ [] }

-- What is decoded from the response.
abbrev batch_x : MetricsBatch
batch_x = record { nodes = (str "a", point_after 100000) ∷ []; pods = (ref_x, pod_x) ∷ [] }

batch_x-decoded : decode_batch fractions response (pos 100500) (str "a") ≡ ok batch_x
unfolding timeseries_matches_name has_prefix parse_container_labels index index_byte decode_batch
    gostring_eq unix millis_to_nanos wrap_int64 ◌*ℤ◌ insert lookup contains namespaced_name_eq
    NamespacedName-discrete
batch_x-decoded = refl

decode_batch-container_example :
    IsContainerOf fractions response.entries ref_x (str "main") (point_after 100500)
unfolding lookup gostring_eq namespaced_name_eq NamespacedName-discrete
decode_batch-container_example =
    decode_batch-container fractions response (pos 100500) (str "a") batch_x batch_x-decoded ref_x
      (str "main") pod_x (point_after 100500) refl refl

decode_batch-total_example :
    (false ≡ false
      → (batch : MetricsBatch) × (decode_batch fractions response (pos 100500) (str "a")
          ≡ ok batch))
    × (false ≡ true → decode_batch fractions response (pos 100500) (str "a") ≡ err parse_failed)
unfolding timeseries_matches_name has_prefix parse_container_labels index index_byte
decode_batch-total_example = decode_batch-total fractions response (pos 100500) (str "a") refl

decode_batch-AllComplete_example :
    AllPoints IsComplete response-decoded.0.nodes × AllPods IsComplete response-decoded.0.pods
decode_batch-AllComplete_example =
    decode_batch-AllComplete fractions response (pos 100500) (str "a") response-decoded.0
      response-decoded.1

decode_batch-node_example : NodesOf fractions (pos 100500) response (str "a") response-decoded.0
decode_batch-node_example =
    decode_batch-node fractions response (pos 100500) (str "a") response-decoded.0
      response-decoded.1

parse-container_labels_example :
    parse_container_labels labels
    ≡ some (record { namespace = str "default"; name = str "x" }, str "main")
parse-container_labels_example =
    parse-container_labels (str "main") (str "default") (str "x")
      (Lacks-of_check b'"' (str "main") refl, Lacks-of_check b'=' (str "main") refl)
      (Lacks-of_check b'"' (str "default") refl, Lacks-of_check b'=' (str "default") refl)
      (Lacks-of_check b'"' (str "x") refl, Lacks-of_check b'=' (str "x") refl)

decode_batch-panics_example :
    decode_batch fractions
      (record {
        entries = entries ++ series container_cpu_usage_metric_name none (float 5) ∷ [];
        malformed = false;
      })
      (pos 100500)
      (str "a")
    ≡ err panicked
unfolding timeseries_matches_name
decode_batch-panics_example =
    decode_batch-panics fractions entries [] container_cpu_usage_metric_name none (float 5) false
      (pos 100500) (str "a")
      ((timeseries_matches_name_iff container_cpu_usage_metric_name
          container_cpu_usage_metric_name).1
        (inl refl))
      tt

abbrev node_cpu_labelled : GoString
node_cpu_labelled = node_cpu_usage_metric_name ++ b'{' ∷ b'}' ∷ []

node_cpu-matches : timeseries_matches_name node_cpu_labelled node_cpu_usage_metric_name ≡ true
node_cpu-matches =
    (timeseries_matches_name_iff node_cpu_labelled node_cpu_usage_metric_name).1
      (inr (b'}' ∷ [], refl))
