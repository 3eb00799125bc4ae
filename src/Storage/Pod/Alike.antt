-- ===== src/Storage/Pod/Alike.antt =====
-- Which pods GetMetrics of pkg/storage/pod.go reports does not depend on the order of the maps.
use metrics_server.Prelude.{
  ◌≡◌, refl, sym, Option, none, some, Bool, Bool-cases, true, [], ◌∷◌, GoString, gostring_eq, arith,
  is_some, every, ◌>>=?◌, inl, inr, ◌==◌, ==_iff,
}
use metrics_server.Prelude.Dict.{lookup, contains, lookup-cons}
use metrics_server.Kube.{NamespacedName, namespaced_name_eq, PartialObjectMetadata}
use metrics_server.Storage.Types.{MetricsPoint, PodMetricsPoint}
use metrics_server.Storage.Pod.{PodStorage, Points, pod_ref}
use metrics_server.Storage.Pod.Containers.{find}
use metrics_server.Storage.Pod.Reports.{all_present, reportable}

every_met :
    (f : GoString → Bool) (xs : Points) (name : GoString)
    → every (λ (n, _). f n) xs ≡ true
    → is_some (lookup name xs) ≡ true
    → f name ≡ true
unfolding lookup
every_met f [] name h k = absurd (cc)
every_met f ((n, p) ∷ xs) name h k = elim (Bool-cases (name == n)) [
  | inl same ↦ let e = (==_iff name n).0 same in rw e (ground arith)
  | inr other ↦ every_met f xs name (ground arith) (ground arith)
]

every_of_met :
    (f : GoString → Bool) (xs : Points)
    → ((name : GoString) → is_some (lookup name xs) ≡ true → f name ≡ true)
    → every (λ (n, _). f n) xs ≡ true
every_of_met f [] h = refl
every_of_met f ((n, p) ∷ xs) h =
    let first = h n (ground (arith, lookup-cons n n p xs)) in
    let rest = every_of_met f xs (λ name k. h name (ground (arith, lookup-cons name n p xs))) in
    ground arith

-- The point of a container in a pod, if there is one.
abbrev point_in : Option PodMetricsPoint → GoString → Option MetricsPoint
point_in pod name = pod >>=? λ p. lookup name p.containers

-- The same pod, with its containers in any order.
record SamePod (pod other : Option PodMetricsPoint) : Type 0 where
  has : is_some pod ≡ is_some other
  at : (name : GoString) → point_in pod name ≡ point_in other name

flipped : {pod other : Option PodMetricsPoint} → SamePod pod other → SamePod other pod
flipped same = record { has = sym same.has; at = λ name. sym (same.at name) }

all_present-same :
    (last prev last' prev' : Option PodMetricsPoint)
    → SamePod last last'
    → SamePod prev prev'
    → all_present last prev ≡ true
    → all_present last' prev' ≡ true
unfolding contains
all_present-same none prev last' prev' l p h = absurd (cc)
all_present-same (some a) none last' prev' l p h = absurd (cc)
all_present-same (some a) (some b) none prev' l p h = let e = l.has in absurd (cc)
all_present-same (some a) (some b) (some c) none l p h = let e = p.has in absurd (cc)
all_present-same (some a) (some b) (some c) (some d) l p h =
    every_of_met (λ name. contains name d.containers) c.containers
      λ name k.
        let there =
          every_met (λ name. contains name b.containers) a.containers name h (rw (l.at name) k) in
        rw (sym (p.at name)) there

module _ (s t : PodStorage)
    (has_last : (ref : NamespacedName) → is_some (lookup ref s.last) ≡ is_some (lookup ref t.last))
    (has_prev : (ref : NamespacedName) → is_some (lookup ref s.prev) ≡ is_some (lookup ref t.prev))
    (last : (ref : NamespacedName) (name : GoString) → find ref name s.last ≡ find ref name t.last)
    (prev : (ref : NamespacedName) (name : GoString)
      → find ref name s.prev ≡ find ref name t.prev) where
  pub reportable-alike : (pod : PartialObjectMetadata) → reportable s pod ≡ reportable t pod
  reportable-alike pod =
      let ref = pod_ref pod in
      let l : SamePod (lookup ref s.last) (lookup ref t.last) = record {
        has = has_last ref;
        at = last ref;
      } in
      let p : SamePod (lookup ref s.prev) (lookup ref t.prev) = record {
        has = has_prev ref;
        at = prev ref;
      } in
      let there = all_present-same _ _ _ _ l p in
      let back = all_present-same _ _ _ _ (flipped l) (flipped p) in ground arith
