-- ===== src/Decode/Total.antt =====
-- When decoding yields a batch, when an error, and when the program panics
-- (pkg/scraper/client/resource/decode.go).
use metrics_server.Prelude.{
  ◌≡◌, ◌≢◌, refl, Option, none, some, List, [], ◌∷◌, ◌++◌, every, Bool, true, false, not, ◌&&◌,
  ◌||◌, arith, GoString, drop, length, is_some, Option-cases, Bool-cases, inl, inr,
}
use metrics_server.Prelude.Int.{ℤ}
use metrics_server.Go.Float.{Floats}
use metrics_server.Go.Result.{ok, err}
use metrics_server.Kube.{NamespacedName}
use metrics_server.Storage.Types.{MetricsBatch}
use metrics_server.Storage.Pod.{Pods}
use metrics_server.Bytes.Laws.{Lacks, Lacks-of_check}
use metrics_server.Decode.Labels.{parse_container_labels_panics}
use metrics_server.Decode.Names.{timeseries_matches_name_unique}
use metrics_server.Series.{
  timeseries_matches_name, node_cpu_usage_metric_name, node_mem_usage_metric_name,
  container_cpu_usage_metric_name, container_mem_usage_metric_name,
  container_start_time_metric_name, parse_container_labels,
}
use metrics_server.Decode.{
  Entry, series, other, Response, parse_failed, panicked, Decoding, start,
  parse_container_cpu_metrics, parse_container_mem_metrics, parse_container_start_time_metrics,
  decode_container, decode_series, decode_entry, decode_entries, finish, decode_batch,
}

-- The labels of a series of a container metric can be read.
abbrev pub readable_as : GoString → GoString → Bool
readable_as name ts =
    not (timeseries_matches_name ts name)
    || is_some (parse_container_labels (drop (length name) ts))

module _ {F : Type 0} where
  abbrev pub readable : Entry F → Bool
  readable other = true
  readable (series ts timestamp value) =
      readable_as container_cpu_usage_metric_name ts
      && readable_as container_mem_usage_metric_name ts
      && readable_as container_start_time_metric_name ts

container_cpu-not :
    (ts name : GoString)
    → Lacks b'{' name
    → container_cpu_usage_metric_name ≢ name
    → timeseries_matches_name ts container_cpu_usage_metric_name ≡ true
    → timeseries_matches_name ts name ≡ false
container_cpu-not ts name l differ h = elim (Bool-cases (timeseries_matches_name ts name)) [
  | inl both ↦ absurd (
      differ (
        timeseries_matches_name_unique ts container_cpu_usage_metric_name name
          (Lacks-of_check b'{' container_cpu_usage_metric_name refl) l h both))
  | inr other_name ↦ other_name
]

node_cpu_differs : container_cpu_usage_metric_name ≢ node_cpu_usage_metric_name
node_cpu_differs e = absurd (ground arith)

node_mem_differs : container_cpu_usage_metric_name ≢ node_mem_usage_metric_name
node_mem_differs e = absurd (ground arith)

module _ {F : Type 0} (fl : Floats F) where
  is_some-decode_container :
      (parse : NamespacedName → GoString → ℤ → F → Pods → Pods) (name ts : GoString) (timestamp : ℤ)
      (value : F) (d : Decoding)
      → is_some (decode_container fl parse name ts timestamp value d)
        ≡ is_some (parse_container_labels (drop (length name) ts))
  unfolding decode_container
  is_some-decode_container parse name ts timestamp value d = ground arith

  is_some-decode_series :
      (ts : GoString) (timestamp : ℤ) (value : F) (d : Decoding)
      → readable (series ts none value) ≡ true
      → is_some (decode_series fl ts timestamp value d) ≡ true
  unfolding decode_series
  is_some-decode_series ts timestamp value d h = ground (
    arith,
    is_some-decode_container (parse_container_cpu_metrics fl) container_cpu_usage_metric_name ts
        timestamp value d,
    is_some-decode_container (parse_container_mem_metrics fl) container_mem_usage_metric_name ts
        timestamp value d,
    is_some-decode_container (parse_container_start_time_metrics fl)
        container_start_time_metric_name ts timestamp value d,
  )

  is_some-decode_entry :
      (default_timestamp : ℤ) (entry : Entry F) (d : Decoding)
      → readable entry ≡ true
      → is_some (decode_entry fl default_timestamp entry d) ≡ true
  unfolding decode_entry
  is_some-decode_entry u other d h = refl
  is_some-decode_entry u (series ts none value) d h = is_some-decode_series ts u value d h
  is_some-decode_entry u (series ts (some timestamp) value) d h =
      is_some-decode_series ts timestamp value d h

  is_some-decode_entries :
      (default_timestamp : ℤ) (entries : List (Entry F)) (d : Decoding)
      → every readable entries ≡ true
      → is_some (decode_entries fl default_timestamp entries d) ≡ true
  unfolding decode_entries
  is_some-decode_entries u [] d h = refl
  is_some-decode_entries u (x ∷ entries) d h = elim (Option-cases (decode_entry fl u x d)) [
    | inl stopped ↦ absurd (ground (arith, is_some-decode_entry u x d))
    | inr (m, step) ↦ rw (step, decode_entries) (is_some-decode_entries u entries m (ground arith))
  ]

  -- If the labels of each container series can be read, decoding gives a batch for a response that
  -- the parser reads to its end, and the parser's error for any other: it does not panic.
  pub decode_batch-total :
      (response : Response F) (default_timestamp : ℤ) (node_name : GoString)
      → every readable response.entries ≡ true
      → (response.malformed ≡ false
          → (batch : MetricsBatch) × (decode_batch fl response default_timestamp node_name
              ≡ ok batch))
        × (response.malformed ≡ true
            → decode_batch fl response default_timestamp node_name ≡ err parse_failed)
  unfolding decode_batch
  decode_batch-total response u node_name h =
      elim (Option-cases (decode_entries fl u response.entries start)) [
        | inl stopped ↦ absurd (ground (arith, is_some-decode_entries u response.entries start h))
        | inr (d, done) ↦ (
          (λ m. (finish node_name d, rw (done, m, decode_batch))),
          (λ m. rw (done, m, decode_batch)),
        )
      ]

  decode_entries-stops :
      (default_timestamp : ℤ) (before rest : List (Entry F)) (bad : Entry F) (d : Decoding)
      → ((d' : Decoding) → decode_entry fl default_timestamp bad d' ≡ none)
      → decode_entries fl default_timestamp (before ++ bad ∷ rest) d ≡ none
  unfolding decode_entries
  decode_entries-stops u [] rest bad d h = rw (h d, decode_entries)
  decode_entries-stops u (x ∷ before) rest bad d h = elim (Option-cases (decode_entry fl u x d)) [
    | inl stopped ↦ rw (stopped, decode_entries)
    | inr (m, step) ↦ rw (step, decode_entries) (decode_entries-stops u before rest bad m h)
  ]

  decode_series-stops :
      (ts : GoString) (timestamp : ℤ) (value : F) (d : Decoding)
      → timeseries_matches_name ts container_cpu_usage_metric_name ≡ true
      → Lacks b'"' (drop (length container_cpu_usage_metric_name) ts)
      → decode_series fl ts timestamp value d ≡ none
  unfolding decode_series decode_container
  decode_series-stops ts timestamp value d m q = rw (
    container_cpu-not ts node_cpu_usage_metric_name
        (Lacks-of_check b'{' node_cpu_usage_metric_name refl) node_cpu_differs m,
    container_cpu-not ts node_mem_usage_metric_name
        (Lacks-of_check b'{' node_mem_usage_metric_name refl) node_mem_differs m,
    m,
    parse_container_labels_panics (drop (length container_cpu_usage_metric_name) ts) q,
    decode_container,
  )

  decode_entry-stops :
      (ts : GoString) (timestamp : Option ℤ) (value : F) (default_timestamp : ℤ) (d : Decoding)
      → timeseries_matches_name ts container_cpu_usage_metric_name ≡ true
      → Lacks b'"' (drop (length container_cpu_usage_metric_name) ts)
      → decode_entry fl default_timestamp (series ts timestamp value) d ≡ none
  unfolding decode_entry
  decode_entry-stops ts none value u d m q = decode_series-stops ts u value d m q
  decode_entry-stops ts (some timestamp) value u d m q =
      decode_series-stops ts timestamp value d m q

  -- One series of the container CPU metric whose labels hold no quote, such as one without labels,
  -- makes the program panic, whatever stands before and after it.
  pub decode_batch-panics :
      (before rest : List (Entry F)) (ts : GoString) (timestamp : Option ℤ) (value : F)
      (malformed : Bool) (default_timestamp : ℤ) (node_name : GoString)
      → timeseries_matches_name ts container_cpu_usage_metric_name ≡ true
      → Lacks b'"' (drop (length container_cpu_usage_metric_name) ts)
      → decode_batch fl
          (record { entries = before ++ series ts timestamp value ∷ rest; malformed = malformed })
          default_timestamp
          node_name
        ≡ err panicked
  unfolding decode_batch
  decode_batch-panics before rest ts timestamp value malformed u node_name m q = rw (
    decode_entries-stops u before rest (series ts timestamp value) start
        (λ d. decode_entry-stops ts timestamp value u d m q),
    decode_batch,
  )
