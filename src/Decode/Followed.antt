-- ===== src/Decode/Followed.antt =====
-- That the loop over the entries follows the samples of a container
-- (pkg/scraper/client/resource/decode.go).
use mathlib.Core.Option.{some-injective}
use mathlib.Core.Path.{subst}
use metrics_server.Prelude.{
  ◌≡◌, refl, ap, Option, none, some, List, [], ◌∷◌, true, false, arith, GoString, gostring_eq,
  every, not, eqb, ◌==◌, if◌then◌else◌, Option-cases, Bool-cases, inl, inr,
}
use metrics_server.Prelude.Int.{ℤ}
use metrics_server.Go.Float.{Floats}
use metrics_server.Kube.{NamespacedName, namespaced_name_eq}
use metrics_server.Storage.Pod.{Pods}
use metrics_server.Go.Time.{unix}
use metrics_server.Decode.Switch.{unmatched}
use metrics_server.Decode.Containers.{
  last_container_value, container_sample, is_sample, Follows, decode_container-Follows,
}
use metrics_server.Decode.Counted.{unsampled, cpu_sampled, mem_sampled, start_sampled}
use metrics_server.Series.{
  timeseries_matches_name, node_cpu_usage_metric_name, node_mem_usage_metric_name,
  container_cpu_usage_metric_name, container_mem_usage_metric_name,
  container_start_time_metric_name,
}
use metrics_server.Decode.{
  nanos, Entry, series, other, Decoding, decode_series, decode_entry, decode_entries,
  parse_container_cpu_metrics, parse_container_mem_metrics, parse_container_start_time_metrics,
  time_of_millis,
}

module _ {F : Type 0} (fl : Floats F) (ref : NamespacedName) (name : GoString) where
  -- The invariant after a series.
  abbrev FollowsAfter : GoString → F → Option F → Option F → Option F → Pods → Type 0
  FollowsAfter ts value cpu mem started pods =
      Follows fl ref name pods
        (if is_sample ref name container_cpu_usage_metric_name ts then some value else cpu)
        (if is_sample ref name container_mem_usage_metric_name ts then some value else mem)
        (if is_sample ref name container_start_time_metric_name ts then some value else started)

  -- A series of another metric.
  unchanged :
      (ts : GoString) (value : F) (cpu mem started : Option F) (pods : Pods)
      → timeseries_matches_name ts container_cpu_usage_metric_name ≡ false
      → timeseries_matches_name ts container_mem_usage_metric_name ≡ false
      → timeseries_matches_name ts container_start_time_metric_name ≡ false
      → Follows fl ref name pods cpu mem started
      → FollowsAfter ts value cpu mem started pods
  unchanged ts value cpu mem started pods c m s h = record {
    distinct = h.distinct;
    values = unsampled fl ref name ts value _ cpu mem started c m s h.values;
  }

  -- The three cases of containers, and the last one, of the switch.
  containers-Follows :
      (ts : GoString) (timestamp : ℤ) (value : F) (d d' : Decoding) (cpu mem started : Option F)
      → timeseries_matches_name ts node_cpu_usage_metric_name ≡ false
      → timeseries_matches_name ts node_mem_usage_metric_name ≡ false
      → Follows fl ref name d.pods cpu mem started
      → decode_series fl ts timestamp value d ≡ some d'
      → FollowsAfter ts value cpu mem started d'.pods
  unfolding decode_series parse_container_cpu_metrics parse_container_mem_metrics
      parse_container_start_time_metrics
  containers-Follows ts timestamp value d d' cpu mem started no_cpu no_mem h e =
      elim (Bool-cases (timeseries_matches_name ts container_cpu_usage_metric_name)) [
        | inl c ↦
            decode_container-Follows fl ref name (parse_container_cpu_metrics fl)
              (λ point. record point {
                cumulative_cpu_used = fl.to_uint64 (nanos fl value);
                timestamp = time_of_millis timestamp;
              })
              container_cpu_usage_metric_name ts timestamp value d d' _ _ _ (λ k c pods. refl)
              (cpu_sampled fl ref name ts (time_of_millis timestamp) value _ cpu mem started c
                h.values)
              h.distinct (rw (no_cpu, no_mem, c) at e)
        | inr c ↦ elim (Bool-cases (timeseries_matches_name ts container_mem_usage_metric_name)) [
          | inl m ↦
              decode_container-Follows fl ref name (parse_container_mem_metrics fl)
                (λ point. record point {
                  memory_usage = fl.to_uint64 value;
                  timestamp = time_of_millis timestamp;
                })
                container_mem_usage_metric_name ts timestamp value d d' _ _ _ (λ k c pods. refl)
                (mem_sampled fl ref name ts (time_of_millis timestamp) value _ cpu mem started m
                  h.values)
                h.distinct (rw (no_cpu, no_mem, c, m) at e)
          | inr m ↦
              elim (Bool-cases (timeseries_matches_name ts container_start_time_metric_name)) [
                | inl s ↦
                    decode_container-Follows fl ref name (parse_container_start_time_metrics fl)
                      (λ point. record point { start_time = unix (fl.to_int64 (nanos fl value)) })
                      container_start_time_metric_name ts timestamp value d d' _ _ _
                      (λ k c pods. refl)
                      (start_sampled fl ref name ts value _ cpu mem started s h.values) h.distinct
                      (rw (no_cpu, no_mem, c, m, s) at e)
                | inr s ↦
                    subst (λ x. FollowsAfter ts value cpu mem started x.pods)
                      (some-injective d d' (rw (no_cpu, no_mem, c, m, s) at e))
                      (unchanged ts value cpu mem started d.pods c m s h)
              ]
        ]
      ]

  -- A series of a metric of the node.
  node-Follows :
      (metric ts : GoString) (value : F) (cpu mem started : Option F) (pods : Pods)
      → every (λ c. not (eqb c b'{')) metric ≡ true
      → (metric == container_cpu_usage_metric_name) ≡ false
      → (metric == container_mem_usage_metric_name) ≡ false
      → (metric == container_start_time_metric_name) ≡ false
      → timeseries_matches_name ts metric ≡ true
      → Follows fl ref name pods cpu mem started
      → FollowsAfter ts value cpu mem started pods
  node-Follows metric ts value cpu mem started pods plain c m s e =
      unchanged ts value cpu mem started pods (unmatched ts metric _ plain refl c e)
        (unmatched ts metric _ plain refl m e) (unmatched ts metric _ plain refl s e)

  decode_series-Follows :
      (ts : GoString) (timestamp : ℤ) (value : F) (d d' : Decoding) (cpu mem started : Option F)
      → Follows fl ref name d.pods cpu mem started
      → decode_series fl ts timestamp value d ≡ some d'
      → FollowsAfter ts value cpu mem started d'.pods
  unfolding decode_series gostring_eq
  decode_series-Follows ts timestamp value d d' cpu mem started h e =
      elim (Bool-cases (timeseries_matches_name ts node_cpu_usage_metric_name)) [
        | inl n ↦
            subst (FollowsAfter ts value cpu mem started)
              (ap (λ (x : Decoding). x.pods) (some-injective _ d' (rw n at e)))
              (node-Follows node_cpu_usage_metric_name ts value cpu mem started d.pods refl refl
                refl refl n h)
        | inr no_cpu ↦ elim (Bool-cases (timeseries_matches_name ts node_mem_usage_metric_name)) [
          | inl n ↦
              subst (FollowsAfter ts value cpu mem started)
                (ap (λ (x : Decoding). x.pods) (some-injective _ d' (rw (no_cpu, n) at e)))
                (node-Follows node_mem_usage_metric_name ts value cpu mem started d.pods refl refl
                  refl refl n h)
          | inr no_mem ↦
              containers-Follows ts timestamp value d d' cpu mem started no_cpu no_mem h e
        ]
      ]

  decode_entry-Follows :
      (default_timestamp : ℤ) (entry : Entry F) (d d' : Decoding) (cpu mem started : Option F)
      → Follows fl ref name d.pods cpu mem started
      → decode_entry fl default_timestamp entry d ≡ some d'
      → Follows fl ref name d'.pods
          (container_sample ref name container_cpu_usage_metric_name entry cpu)
          (container_sample ref name container_mem_usage_metric_name entry mem)
          (container_sample ref name container_start_time_metric_name entry started)
  unfolding decode_entry
  decode_entry-Follows u other d d' cpu mem started h =
      λ e. subst (λ x. Follows fl ref name x.pods cpu mem started) (some-injective d d' e) h
  decode_entry-Follows u (series ts none value) d d' cpu mem started h =
      decode_series-Follows ts u value d d' cpu mem started h
  decode_entry-Follows u (series ts (some timestamp) value) d d' cpu mem started h =
      decode_series-Follows ts timestamp value d d' cpu mem started h

  pub decode_entries-Follows :
      (default_timestamp : ℤ) (entries : List (Entry F)) (d d' : Decoding)
      (cpu mem started : Option F)
      → Follows fl ref name d.pods cpu mem started
      → decode_entries fl default_timestamp entries d ≡ some d'
      → Follows fl ref name d'.pods
          (last_container_value ref name container_cpu_usage_metric_name entries cpu)
          (last_container_value ref name container_mem_usage_metric_name entries mem)
          (last_container_value ref name container_start_time_metric_name entries started)
  unfolding decode_entries
  decode_entries-Follows u [] d d' cpu mem started h e =
      subst (λ x. Follows fl ref name x.pods cpu mem started) (some-injective d d' e) h
  decode_entries-Follows u (x ∷ entries) d d' cpu mem started h e =
      elim (Option-cases (decode_entry fl u x d)) [
        | inl stopped ↦ absurd (ground arith)
        | inr (m, step) ↦
            decode_entries-Follows u entries m d' _ _ _
              (decode_entry-Follows u x d m cpu mem started h step) (ground arith)
      ]
