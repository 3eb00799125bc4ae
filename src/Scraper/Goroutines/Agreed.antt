-- ===== src/Scraper/Goroutines/Agreed.antt =====
-- Two schedules of the goroutines of Scrape in pkg/scraper/scraper.go come to the same points.
use mathlib.Core.List.{Permᴰ}
use mathlib.Core.List.Permᴰ.{nil, cons, swap, trans, symm}
use mathlib.Core.Logic.{∥∥₁_elim}
use metrics_server.Prelude.{
  In, ◌≡◌, sym, ap, ◌∙◌, inl, inr, Option, true, List, GoString, gostring_eq,
}
use metrics_server.Prelude.Dict.{lookup}
use metrics_server.Go.Result.{Result}
use metrics_server.Kube.{NamespacedName, namespaced_name_eq, Node}
use metrics_server.Storage.Types.{MetricsPoint, PodMetricsPoint, MetricsBatch}
use metrics_server.Scraper.{RequestTotal, scrape}
use metrics_server.Scraper.Merged.{node_of, pod_of}
use metrics_server.Scraper.Order.{Agree, scrape_order}
use metrics_server.Scraper.Goroutines.{Scrape, Reachable}
use metrics_server.Scraper.Goroutines.Finished.{closed-scrape}

In-perm : {A : Type 0} (a : A) {xs ys : List A} → Permᴰ xs ys → In a xs → In a ys
In-perm a nil i = i
In-perm a (cons e d) (inl f) = inl (f ∙ e)
In-perm a (cons e d) (inr i) = inr (In-perm a d i)
In-perm a (swap e f) (inl g) = inr (inl (g ∙ e))
In-perm a (swap e f) (inr (inl g)) = inl (g ∙ f)
In-perm a (swap e f) (inr (inr i)) = inr (inr i)
In-perm a (trans d e) i = In-perm a e (In-perm a d i)

MetricsPoint-set : IsSet (Option MetricsPoint)
MetricsPoint-set = hlevel

PodMetricsPoint-set : IsSet (Option PodMetricsPoint)
PodMetricsPoint-set = hlevel

module _ {E : Type 0} (get : Node → Result E MetricsBatch) (nodes : List Node)
    (total : RequestTotal) where
  same_points :
      (xs ys : List Node)
      → Permᴰ xs nodes
      → Permᴰ ys nodes
      → ((name : GoString) → Agree get (node_of name) nodes)
      → ((ref : NamespacedName) → Agree get (pod_of ref) nodes)
      → ((name : GoString)
          → lookup name (scrape get xs total).0.nodes ≡ lookup name (scrape get ys total).0.nodes)
        × ((ref : NamespacedName)
            → lookup ref (scrape get xs total).0.pods ≡ lookup ref (scrape get ys total).0.pods)
  same_points xs ys d e points pods =
      scrape_order get xs ys total
        (λ name m n v w i j. points name m n v w (In-perm m d i) (In-perm n d j))
        (λ ref m n v w i j. pods ref m n v w (In-perm m d i) (In-perm n d j))
        (λ n.
          ((λ i. In-perm n (symm e) (In-perm n d i)), (λ i. In-perm n (symm d) (In-perm n e i))))

  -- However the goroutines of two scrapes of the same nodes are scheduled, the scrapes give the same
  -- point to each node and each pod, if no two answers differ on the point of a node or pod.
  pub closed-same_points :
      (s t : Scrape)
      → Reachable get nodes total s
      → Reachable get nodes total t
      → s.closed ≡ true
      → t.closed ≡ true
      → ((name : GoString) → Agree get (node_of name) nodes)
      → ((ref : NamespacedName) → Agree get (pod_of ref) nodes)
      → ((name : GoString) → lookup name s.res.nodes ≡ lookup name t.res.nodes)
        × ((ref : NamespacedName) → lookup ref s.res.pods ≡ lookup ref t.res.pods)
  closed-same_points s t r r' done done' points pods =
      let (xs, p, e) = closed-scrape get nodes total s r done in
      let (ys, q, f) = closed-scrape get nodes total t r' done' in
      let same = λ (d : Permᴰ xs nodes) (d' : Permᴰ ys nodes). same_points xs ys d d' points pods in
      (
        λ name. ∥∥₁_elim p (MetricsPoint-set _ _) (λ d. ∥∥₁_elim q (MetricsPoint-set _ _) (λ d'.
            ap (λ x. lookup name x.0.nodes) (sym e)
            ∙ (same d d').0 name
            ∙ ap (λ x. lookup name x.0.nodes) f)),
        λ ref. ∥∥₁_elim p (PodMetricsPoint-set _ _) (λ d.
            ∥∥₁_elim q (PodMetricsPoint-set _ _) (λ d'.
              ap (λ x. lookup ref x.0.pods) (sym e)
              ∙ (same d d').1 ref
              ∙ ap (λ x. lookup ref x.0.pods) f)),
      )
