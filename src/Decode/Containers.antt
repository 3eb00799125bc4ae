-- ===== src/Decode/Containers.antt =====
-- Which samples the point of a container comes from, while a response is read
-- (pkg/scraper/client/resource/decode.go).
use mathlib.Core.Option.{some-injective}
use mathlib.Core.Path.{subst}
use metrics_server.Prelude.{
  ◌≡◌, sym, ap, ◌∙◌, Option, none, some, List, [], ◌∷◌, Bool, false, ◌&&◌, arith, GoString,
  gostring_eq, if◌then◌else◌, drop, length, ◌==◌, Option-cases, inl, inr,
}
use metrics_server.Prelude.Int.{ℤ}
use metrics_server.Go.Time.{unix}
use metrics_server.Go.Float.{Floats}
use metrics_server.Kube.{NamespacedName, namespaced_name_eq}
use metrics_server.Storage.Types.{MetricsPoint}
use metrics_server.Storage.Pod.{Pods}
use metrics_server.Decode.Tracked.{value_or_zero}
use metrics_server.Decode.Updated.{
  point_at, point_at-update_container, AllDistinct, update_container-AllDistinct,
}
use metrics_server.Series.{timeseries_matches_name, parse_container_labels}
use metrics_server.Decode.{
  Entry, series, other, Decoding, nanos, update_container, decode_container,
}

module _ (ref : NamespacedName) (name : GoString) where
  -- The labels are those of the container.
  abbrev pub reads : GoString → Bool
  reads labels = elim (parse_container_labels labels) [
    | none ↦ false
    | some (k, c) ↦ (ref == k) && (name == c)
  ]

  abbrev pub is_sample : GoString → GoString → Bool
  is_sample metric ts = timeseries_matches_name ts metric && reads (drop (length metric) ts)

  module _ {F : Type 0} where
    abbrev pub container_sample : GoString → Entry F → Option F → Option F
    container_sample metric other before = before
    container_sample metric (series ts timestamp value) before =
        if is_sample metric ts then some value else before

    -- The value of the container's last sample of a metric, or `before` if there is none.
    abbrev pub last_container_value : GoString → List (Entry F) → Option F → Option F
    last_container_value metric [] before = before
    last_container_value metric (e ∷ entries) before =
        last_container_value metric entries (container_sample metric e before)

module _ {F : Type 0} (fl : Floats F) (ref : NamespacedName) (name : GoString) where
  -- The counters and the start time, with 0 where there is no sample.
  pub record HasValues (point : MetricsPoint) (cpu mem started : Option F) : Type 0 where
    pub cpu_used : point.cumulative_cpu_used ≡ value_or_zero (λ v. fl.to_uint64 (nanos fl v)) cpu
    pub memory_used : point.memory_usage ≡ value_or_zero fl.to_uint64 mem
    pub started_at : point.start_time ≡ value_or_zero (λ v. unix (fl.to_int64 (nanos fl v))) started

  -- The invariant of the loop over the entries.
  pub record Follows (pods : Pods) (cpu mem started : Option F) : Type 0 where
    pub distinct : AllDistinct pods
    pub values : HasValues (point_at ref name pods) cpu mem started

  pub decode_container-Follows :
      (parse : NamespacedName → GoString → ℤ → F → Pods → Pods) (f : MetricsPoint → MetricsPoint)
      (metric ts : GoString) (timestamp : ℤ) (value : F) (d d' : Decoding)
      (cpu mem started : Option F)
      → ((k : NamespacedName) (c : GoString) (pods : Pods)
          → parse k c timestamp value pods ≡ update_container k c f pods)
      → HasValues
          (if reads ref name (drop (length metric) ts)
            then f (point_at ref name d.pods)
            else point_at ref name d.pods)
          cpu
          mem
          started
      → AllDistinct d.pods
      → decode_container fl parse metric ts timestamp value d ≡ some d'
      → Follows d'.pods cpu mem started
  unfolding decode_container
  decode_container-Follows parse f metric ts timestamp value d d' cpu mem started same h distinct
        e =
      elim (Option-cases (parse_container_labels (drop (length metric) ts))) [
        | inl unread ↦ absurd (ground arith)
        | inr ((k, c), read) ↦
            let changed : update_container k c f d.pods ≡ d'.pods =
              sym (same k c d.pods)
              ∙ ap (λ (x : Decoding). x.pods) (some-injective _ d' (rw read at e)) in
            subst (λ pods. Follows pods cpu mem started) changed
              (record {
                distinct = update_container-AllDistinct k c f d.pods distinct;
                values =
                    rw (point_at-update_container ref k name c f d.pods) (rw (read, reads) at h);
              })
      ]
