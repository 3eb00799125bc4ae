-- ===== src/Decode/Labels.antt =====
-- parseContainerLabels of pkg/scraper/client/resource/decode.go: the labels that a kubelet writes
-- are read back, and what labels make the program panic.
use metrics_server.Prelude.{
  drop-append, take-append, ℕ, suc, ◌+◌, ◌≡◌, refl, none, some, [], ◌∷◌, ◌++◌, arith, GoString, str,
  length, length-append, drop,
}
use mathlib.Core.List.{append_assoc}
use metrics_server.Bytes.{index}
use metrics_server.Bytes.Laws.{
  Lacks, Lacks-of_check, index_byte_first, index_byte-none, index-skip_value, shift,
}
use metrics_server.Series.{
  container_name_tag, pod_name_tag, namespace_tag, tag_end, slice_from, label_value,
  parse_container_labels,
}

-- A name that needs no escape: no quote and no equals sign.
abbrev pub IsPlain : GoString → Type 0
IsPlain s = Lacks b'"' s × Lacks b'=' s

-- {container="c",namespace="n",pod="p"}
abbrev pub container_labels : GoString → GoString → GoString → GoString
container_labels c n p =
    str "{container=\""
    ++ (c ++ (str "\",namespace=\"" ++ (n ++ (str "\",pod=\"" ++ (p ++ str "\"}")))))

slice_from-append : (s t : GoString) → slice_from (s ++ t) (length s) ≡ some t
unfolding slice_from
slice_from-append s t = ground (arith, length-append s t, drop-append s t)

label_value_at :
    (labels tag head value rest : GoString)
    → labels ≡ head ++ (value ++ b'"' ∷ rest)
    → tag_end labels tag ≡ length head
    → Lacks b'"' value
    → label_value labels tag ≡ some value
unfolding label_value
label_value_at labels tag head value rest e i h = ground (
  arith,
  slice_from-append head (value ++ b'"' ∷ rest),
  index_byte_first value rest b'"' h,
  take-append value (b'"' ∷ rest),
)

skip_head_pod :
    (x : GoString) → index (str "{container=\"" ++ x) pod_name_tag ≡ shift 12 (index x pod_name_tag)
unfolding index
skip_head_pod x = ground arith

skip_head_namespace :
    (x : GoString)
    → index (str "{container=\"" ++ x) namespace_tag ≡ shift 12 (index x namespace_tag)
unfolding index
skip_head_namespace x = ground arith

skip_namespace_pod :
    (x : GoString) → index (str ",namespace=\"" ++ x) pod_name_tag ≡ shift 12 (index x pod_name_tag)
unfolding index
skip_namespace_pod x = ground arith

namespace_first : (x : GoString) → index (str ",namespace=\"" ++ x) namespace_tag ≡ some 1
unfolding index
namespace_first x = refl

pod_first : (x : GoString) → index (str ",pod=\"" ++ x) pod_name_tag ≡ some 1
unfolding index
pod_first x = refl

namespace-Lacks : Lacks b'"' (str "namespace")
namespace-Lacks = Lacks-of_check b'"' (str "namespace") refl

pod-Lacks : Lacks b'"' (str "pod")
pod-Lacks = Lacks-of_check b'"' (str "pod") refl

module _ (c n p : GoString) (plain_c : IsPlain c) (plain_n : IsPlain n) (plain_p : IsPlain p) where
  container_end : tag_end (container_labels c n p) container_name_tag ≡ 12
  unfolding tag_end index
  container_end = refl

  namespace_end : tag_end (container_labels c n p) namespace_tag ≡ length c + 25
  unfolding tag_end
  namespace_end =
      let rest = str ",namespace=\"" ++ (n ++ (str "\",pod=\"" ++ (p ++ str "\"}"))) in
      ground (
        arith,
        skip_head_namespace (c ++ b'"' ∷ rest),
        index-skip_value (str "namespace") c rest b'"' b'=' namespace-Lacks plain_c.1 refl,
        namespace_first (n ++ (str "\",pod=\"" ++ (p ++ str "\"}"))),
      )

  pod_end : tag_end (container_labels c n p) pod_name_tag ≡ length c + length n + 32
  unfolding tag_end
  pod_end =
      let tail = str ",pod=\"" ++ (p ++ str "\"}") in
      let rest = str ",namespace=\"" ++ (n ++ b'"' ∷ tail) in
      ground (
        arith,
        skip_head_pod (c ++ b'"' ∷ rest),
        index-skip_value (str "pod") c rest b'"' b'=' pod-Lacks plain_c.1 refl,
        skip_namespace_pod (n ++ b'"' ∷ tail),
        index-skip_value (str "pod") n tail b'"' b'=' pod-Lacks plain_n.1 refl,
        pod_first (p ++ str "\"}"),
      )

  container_value : label_value (container_labels c n p) container_name_tag ≡ some c
  container_value =
      label_value_at _ container_name_tag (str "{container=\"") c
        (str ",namespace=\"" ++ (n ++ (str "\",pod=\"" ++ (p ++ str "\"}")))) refl container_end
        plain_c.0

  namespace_value : label_value (container_labels c n p) namespace_tag ≡ some n
  namespace_value =
      label_value_at _ namespace_tag (str "{container=\"" ++ (c ++ str "\",namespace=\"")) n
        (str ",pod=\"" ++ (p ++ str "\"}")) (simp append_assoc)
        (omega (arith, namespace_end, length-append c (str "\",namespace=\""))) plain_n.0

  pod_value : label_value (container_labels c n p) pod_name_tag ≡ some p
  pod_value =
      label_value_at _ pod_name_tag
        (str "{container=\"" ++ (c ++ (str "\",namespace=\"" ++ (n ++ str "\",pod=\"")))) p
        (str "}") (simp append_assoc)
        (omega (
          arith,
          pod_end,
          length-append c (str "\",namespace=\"" ++ (n ++ str "\",pod=\"")),
          length-append n (str "\",pod=\""),
        ))
        plain_p.0

  -- The labels that a kubelet writes are read back: container, namespace and pod, of any names
  -- without a quote or an equals sign.
  pub parse-container_labels :
      parse_container_labels (container_labels c n p) ≡ some (record { namespace = n; name = p }, c)
  unfolding parse_container_labels
  parse-container_labels = rw (container_value, pod_value, namespace_value)

no_quote-slice : (labels : GoString) (i : ℕ) → Lacks b'"' labels → Lacks b'"' (drop i labels)
no_quote-slice labels ℕ.zero h = h
no_quote-slice [] (suc i) h = h
no_quote-slice (c ∷ labels) (suc i) h = no_quote-slice labels i h.1

-- Labels without a quote, such as none at all, make the program panic.
pub parse_container_labels_panics :
    (labels : GoString) → Lacks b'"' labels → parse_container_labels labels ≡ none
unfolding parse_container_labels slice_from
parse_container_labels_panics labels h = ground (
  arith,
  index_byte-none (drop (tag_end labels container_name_tag) labels) b'"'
      (no_quote-slice labels (tag_end labels container_name_tag) h),
)
