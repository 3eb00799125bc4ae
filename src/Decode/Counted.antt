-- ===== src/Decode/Counted.antt =====
-- What a series does to the counters and the start time of a container
-- (pkg/scraper/client/resource/decode.go).
use metrics_server.Prelude.{
  ℕ, ◌≡◌, refl, Option, some, true, false, ◌&&◌, GoString, gostring_eq, if◌then◌else◌, drop, length,
  Bool-cases, inl, inr,
}
use metrics_server.Go.Time.{unix}
use metrics_server.Go.Float.{Floats}
use metrics_server.Kube.{NamespacedName, namespaced_name_eq}
use metrics_server.Storage.Types.{MetricsPoint}
use metrics_server.Decode.Switch.{unmatched}
use metrics_server.Series.{
  timeseries_matches_name, container_cpu_usage_metric_name, container_mem_usage_metric_name,
  container_start_time_metric_name,
}
use metrics_server.Decode.{nanos}
use metrics_server.Decode.Containers.{reads, is_sample, HasValues}

module _ {F : Type 0} (fl : Floats F) (ref : NamespacedName) (name : GoString) where
  -- The three values after a series.
  abbrev pub After : GoString → F → MetricsPoint → Option F → Option F → Option F → Type 0
  After ts value point cpu mem started =
      HasValues fl ref name point
        (if is_sample ref name container_cpu_usage_metric_name ts then some value else cpu)
        (if is_sample ref name container_mem_usage_metric_name ts then some value else mem)
        (if is_sample ref name container_start_time_metric_name ts then some value else started)

  -- A series of another metric changes none.
  pub unsampled :
      (ts : GoString) (value : F) (point : MetricsPoint) (cpu mem started : Option F)
      → timeseries_matches_name ts container_cpu_usage_metric_name ≡ false
      → timeseries_matches_name ts container_mem_usage_metric_name ≡ false
      → timeseries_matches_name ts container_start_time_metric_name ≡ false
      → HasValues fl ref name point cpu mem started
      → After ts value point cpu mem started
  unsampled ts value point cpu mem started c m s h = rw (c, m, s, ◌&&◌) h

  -- A sample of the container changes one value, and one of another container none.
  pub cpu_sampled :
      (ts : GoString) (time : ℕ) (value : F) (point : MetricsPoint) (cpu mem started : Option F)
      → timeseries_matches_name ts container_cpu_usage_metric_name ≡ true
      → HasValues fl ref name point cpu mem started
      → After ts value
          (if reads ref name (drop (length container_cpu_usage_metric_name) ts)
            then record point {
              cumulative_cpu_used = fl.to_uint64 (nanos fl value);
              timestamp = time;
            }
            else point)
          cpu
          mem
          started
  unfolding gostring_eq
  cpu_sampled ts time value point cpu mem started e h =
      let a =
        unmatched ts container_cpu_usage_metric_name container_mem_usage_metric_name refl refl refl
          e in
      let b =
        unmatched ts container_cpu_usage_metric_name container_start_time_metric_name refl refl refl
          e in
      elim (Bool-cases (reads ref name (drop (length container_cpu_usage_metric_name) ts))) [
        | inl own ↦
            rw (e, own, a, b)
              (record { cpu_used = refl; memory_used = h.memory_used; started_at = h.started_at })
        | inr foreign ↦ rw (e, foreign, a, b) h
      ]

  pub mem_sampled :
      (ts : GoString) (time : ℕ) (value : F) (point : MetricsPoint) (cpu mem started : Option F)
      → timeseries_matches_name ts container_mem_usage_metric_name ≡ true
      → HasValues fl ref name point cpu mem started
      → After ts value
          (if reads ref name (drop (length container_mem_usage_metric_name) ts)
            then record point { memory_usage = fl.to_uint64 value; timestamp = time }
            else point)
          cpu
          mem
          started
  unfolding gostring_eq
  mem_sampled ts time value point cpu mem started e h =
      let a =
        unmatched ts container_mem_usage_metric_name container_cpu_usage_metric_name refl refl refl
          e in
      let b =
        unmatched ts container_mem_usage_metric_name container_start_time_metric_name refl refl refl
          e in
      elim (Bool-cases (reads ref name (drop (length container_mem_usage_metric_name) ts))) [
        | inl own ↦
            rw (e, own, a, b)
              (record { cpu_used = h.cpu_used; memory_used = refl; started_at = h.started_at })
        | inr foreign ↦ rw (e, foreign, a, b) h
      ]

  pub start_sampled :
      (ts : GoString) (value : F) (point : MetricsPoint) (cpu mem started : Option F)
      → timeseries_matches_name ts container_start_time_metric_name ≡ true
      → HasValues fl ref name point cpu mem started
      → After ts value
          (if reads ref name (drop (length container_start_time_metric_name) ts)
            then record point { start_time = unix (fl.to_int64 (nanos fl value)) }
            else point)
          cpu
          mem
          started
  unfolding gostring_eq
  start_sampled ts value point cpu mem started e h =
      let a =
        unmatched ts container_start_time_metric_name container_cpu_usage_metric_name refl refl refl
          e in
      let b =
        unmatched ts container_start_time_metric_name container_mem_usage_metric_name refl refl refl
          e in
      elim (Bool-cases (reads ref name (drop (length container_start_time_metric_name) ts))) [
        | inl own ↦
            rw (e, own, a, b)
              (record { cpu_used = h.cpu_used; memory_used = h.memory_used; started_at = refl })
        | inr foreign ↦ rw (e, foreign, a, b) h
      ]
