-- ===== src/Scraper/Order.antt =====
-- The order in which answers arrive does not matter to a scrape of pkg/scraper/scraper.go, where no
-- two answers differ on a key; and each request is counted.
use metrics_server.Prelude.{
  In, ◌+◌, ◌≡◌, ◌↔◌, inl, inr, refl, ap, sym, ◌∙◌, Option, none, some, List, [], ◌∷◌, GoString,
  gostring_eq, length, arith, Option-cases,
}
use metrics_server.Prelude.Dict.{lookup, lookup-nil}
use metrics_server.Go.Result.{Result, ok, err}
use metrics_server.Kube.{NamespacedName, namespaced_name_eq, Node}
use metrics_server.Storage.Types.{MetricsPoint, PodMetricsPoint, MetricsBatch}
use metrics_server.Scraper.{RequestTotal, collect_node, collect_nodes, scrape}
use metrics_server.Scraper.Merged.{node_of, pod_of, first, node-merge_batches, pod-merge_batches}

module _ {E : Type 0} (get : Node → Result E MetricsBatch) where
  -- A failed request has the nil batch for its answer.
  abbrev pub answer : Node → Option MetricsBatch
  answer node = elim (get node) [ ok batch ↦ some batch | err e ↦ none ]

  abbrev pub answers : List Node → List (Option MetricsBatch)
  answers [] = []
  answers (n ∷ nodes) = answer n ∷ answers nodes

  collect_nodes-answers :
      (arrivals : List Node) (total : RequestTotal)
      → (collect_nodes get arrivals total).0 ≡ answers arrivals
  unfolding collect_nodes collect_node
  collect_nodes-answers [] total = refl
  collect_nodes-answers (n ∷ arrivals) total =
      ground (arith, collect_nodes-answers arrivals (collect_node (get n) total).1)

  -- Each request is counted once, as a success or as a failure.
  pub request_total-scrape :
      (arrivals : List Node) (total : RequestTotal)
      → (scrape get arrivals total).1.succeeded + (scrape get arrivals total).1.failed
        ≡ total.succeeded + total.failed + length arrivals
  unfolding scrape collect_node
  request_total-scrape [] total = omega arith
  request_total-scrape (n ∷ arrivals) total =
      ground (arith, request_total-scrape arrivals (collect_node (get n) total).1)

  module _ {V : Type 0} (entry : Option MetricsBatch → Option V) where
    pub first_some :
        (nodes : List Node) (v : V)
        → first entry (answers nodes) ≡ some v
        → (n : Node) × In n nodes × (entry (answer n) ≡ some v)
    first_some [] v h = absurd (ground arith)
    first_some (n ∷ nodes) v h = elim (Option-cases (entry (answer n))) [
      | inl e ↦ let (m, i, f) = first_some nodes v (ground arith) in (m, inr i, f)
      | inr (w, e) ↦ (n, inl refl, ground arith)
    ]

    first_none :
        (nodes : List Node) (n : Node)
        → first entry (answers nodes) ≡ none
        → In n nodes
        → entry (answer n) ≡ none
    first_none [] n h i = elim i [ ]
    first_none (m ∷ nodes) n h (inl e) = elim (Option-cases (entry (answer m))) [
      | inl f ↦ rw e f
      | inr (w, f) ↦ absurd (ground arith)
    ]
    first_none (m ∷ nodes) n h (inr i) = elim (Option-cases (entry (answer m))) [
      | inl f ↦ first_none nodes n (ground arith) i
      | inr (w, f) ↦ absurd (ground arith)
    ]

    -- No two answers differ on the entry.
    abbrev pub Agree : List Node → Type 0
    Agree nodes =
        (m n : Node) (v w : V)
        → In m nodes
        → In n nodes
        → entry (answer m) ≡ some v
        → entry (answer n) ≡ some w
        → v ≡ w

    first_same :
        (xs ys : List Node)
        → Agree xs
        → ((n : Node) → In n xs ↔ In n ys)
        → first entry (answers xs) ≡ first entry (answers ys)
    first_same xs ys agree same = elim (Option-cases (first entry (answers xs))) [
      | inl e ↦ elim (Option-cases (first entry (answers ys))) [
        | inl f ↦ e ∙ sym f
        | inr (v, f) ↦
            let (n, i, g) = first_some ys v f in
            let missing = first_none xs n e ((same n).1 i) in absurd (ground arith)
      ]
      | inr (v, e) ↦
          let (m, i, g) = first_some xs v e in
          elim (Option-cases (first entry (answers ys))) [
            | inl f ↦ let missing = first_none ys m f ((same m).0 i) in absurd (ground arith)
            | inr (w, f) ↦
                let (n, j, k) = first_some ys w f in
                e ∙ ap some (agree m n v w i ((same n).1 j) g k) ∙ sym f
          ]
    ]

  pub node-scrape :
      (arrivals : List Node) (total : RequestTotal) (name : GoString)
      → lookup name (scrape get arrivals total).0.nodes ≡ first (node_of name) (answers arrivals)
  unfolding scrape
  node-scrape arrivals total name =
      rw (node-merge_batches, collect_nodes-answers, lookup-nil {V = MetricsPoint} name) refl

  pub pod-scrape :
      (arrivals : List Node) (total : RequestTotal) (ref : NamespacedName)
      → lookup ref (scrape get arrivals total).0.pods ≡ first (pod_of ref) (answers arrivals)
  unfolding scrape
  pod-scrape arrivals total ref =
      rw (pod-merge_batches, collect_nodes-answers, lookup-nil {V = PodMetricsPoint} ref) refl

  -- Two scrapes of the same nodes, whose answers arrive in different orders, give the same point to
  -- each node and each pod, if no two answers differ on the point of a node or pod.
  pub scrape_order :
      (xs ys : List Node) (total : RequestTotal)
      → ((name : GoString) → Agree (node_of name) xs)
      → ((ref : NamespacedName) → Agree (pod_of ref) xs)
      → ((n : Node) → In n xs ↔ In n ys)
      → ((name : GoString)
          → lookup name (scrape get xs total).0.nodes ≡ lookup name (scrape get ys total).0.nodes)
        × ((ref : NamespacedName)
            → lookup ref (scrape get xs total).0.pods ≡ lookup ref (scrape get ys total).0.pods)
  scrape_order xs ys total nodes pods same = (
    (λ name.
        node-scrape xs total name
        ∙ first_same (node_of name) xs ys (nodes name) same
        ∙ sym (node-scrape ys total name)),
    (λ ref.
        pod-scrape xs total ref
        ∙ first_same (pod_of ref) xs ys (pods ref) same
        ∙ sym (pod-scrape ys total ref)),
  )
