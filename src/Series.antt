-- ===== src/Series.antt =====
-- The text of a series, as pkg/scraper/client/resource/decode.go reads it: the name of its metric,
-- and the labels of a container.
use metrics_server.Prelude.{
  ℕ, ◌+◌, ◌-◌, Option, none, some, Bool, false, ◌&&◌, ◌||◌, if◌then◌else◌, eqb, leb, GoString, str,
  length, drop, take, ◌>>=?◌,
}
use metrics_server.Kube.{NamespacedName}
use metrics_server.Bytes.{has_prefix, index, index_byte, byte_at}

abbrev pub node_cpu_usage_metric_name : GoString
node_cpu_usage_metric_name = str "node_cpu_usage_seconds_total"

abbrev pub node_mem_usage_metric_name : GoString
node_mem_usage_metric_name = str "node_memory_working_set_bytes"

abbrev pub container_cpu_usage_metric_name : GoString
container_cpu_usage_metric_name = str "container_cpu_usage_seconds_total"

abbrev pub container_mem_usage_metric_name : GoString
container_mem_usage_metric_name = str "container_memory_working_set_bytes"

abbrev pub container_start_time_metric_name : GoString
container_start_time_metric_name = str "container_start_time_seconds"

abbrev pub container_name_tag : GoString
container_name_tag = str "container=\""

abbrev pub pod_name_tag : GoString
pod_name_tag = str "pod=\""

abbrev pub namespace_tag : GoString
namespace_tag = str "namespace=\""

unfoldable pub timeseries_matches_name : GoString → GoString → Bool
timeseries_matches_name ts name =
    has_prefix ts name
    && (eqb (length ts) (length name)
        || elim (byte_at ts (length name)) [ none ↦ false | some c ↦ eqb c b'{' ])

-- `i := bytes.Index(labels, tag) + len(tag)`, where bytes.Index may be -1
unfoldable pub tag_end : GoString → GoString → ℕ
tag_end labels tag = elim (index labels tag) [ none ↦ length tag - 1 | some i ↦ i + length tag ]

-- `labels[i:]`, with `none` for the panic
unfoldable pub slice_from : GoString → ℕ → Option GoString
slice_from s i = if leb i (length s) then some (drop i s) else none

-- `labels[i : i+j]` for `j := bytes.IndexByte(labels[i:], '"')`; j = -1 panics.
unfoldable pub label_value : GoString → GoString → Option GoString
unfolding tag_end slice_from
label_value labels tag = slice_from labels (tag_end labels tag) >>=? λ rest.
    index_byte rest b'"' >>=? λ j. some (take j rest)

unfoldable pub parse_container_labels : GoString → Option (NamespacedName × GoString)
unfolding label_value
parse_container_labels labels = label_value labels container_name_tag >>=? λ container_name.
    label_value labels pod_name_tag >>=? λ name. label_value labels namespace_tag >>=? λ namespace.
    some (record { namespace = namespace; name = name }, container_name)
