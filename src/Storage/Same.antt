-- ===== src/Storage/Same.antt =====
-- Storages that hold the same in maps of another order (pkg/storage): what Store makes of them.
pub mod View
use mathlib.Core.Path.{fun_ext}
use metrics_server.Prelude.{
  Bool, ◌≡◌, ◌<◌, refl, sym, ap, ◌∙◌, Option, Option-cases, none, some, List, [], ◌∷◌, GoString,
  gostring_eq, arith, is_some, ◌>>=?◌, inl, inr, length, ltb, if◌then◌else◌, ◌==◌, true, false,
}
use metrics_server.Prelude.Dict.{Dict, lookup, lookup-insert, lookup-nil, lookup-cons}
use metrics_server.Kube.{NamespacedName, namespaced_name_eq}
use metrics_server.Storage.Types.{MetricsPoint, PodMetricsPoint, MetricsBatch, zero_point}
use metrics_server.Storage.Node
use metrics_server.Storage.Node.Lookups.{store-last, store-prev, newest_older}
use metrics_server.Storage.Pod
use metrics_server.Storage.Pod.{PodStorage, Pods, Points, is_fresh, at_start, read_point}
use metrics_server.Storage.Pod.Containers.{find, next_prev}
use metrics_server.Storage.Pod.Lookups.{find-store_last, find-store_prev}
use metrics_server.Storage.Pod.Present.{HasContainer, has-store_last, store-HasContainer}
use metrics_server.Storage.{Storage, store}

-- Two maps of pods with the same pods, each with the same containers.
pub record SamePods (d e : Pods) : Type 0 where
  pub has : (ref : NamespacedName) → is_some (lookup ref d) ≡ is_some (lookup ref e)
  pub at : (ref : NamespacedName) (name : GoString) → find ref name d ≡ find ref name e

abbrev pub SamePoints : Points → Points → Type 0
SamePoints d e = (name : GoString) → lookup name d ≡ lookup name e

-- Two batches with the same points, in maps of any order.
pub record SameBatch (b c : MetricsBatch) : Type 0 where
  pub nodes : SamePoints b.nodes c.nodes
  pub pods : SamePods b.pods c.pods

pub record SameStorage (s t : Storage) : Type 0 where
  pub last_nodes : SamePoints s.nodes.last t.nodes.last
  pub prev_nodes : SamePoints s.nodes.prev t.nodes.prev
  pub last_pods : SamePods s.pods.last t.pods.last
  pub prev_pods : SamePods s.pods.prev t.pods.prev
  pub resolution : s.pods.metric_resolution ≡ t.pods.metric_resolution

abbrev read_if : Bool → Option MetricsPoint → Option MetricsPoint
read_if false point = none
read_if true none = some zero_point
read_if true (some point) = some point

abbrev read_stored : GoString → Option PodMetricsPoint → Option MetricsPoint
read_stored name prev = prev >>=? λ pod. some (read_point name pod.containers)

read_stored-eq :
    (name : GoString) (prev : Option PodMetricsPoint)
    → read_stored name prev ≡ read_if (is_some prev) (prev >>=? λ pod. lookup name pod.containers)
read_stored-eq name none = refl
read_stored-eq name (some pod) = ground arith

-- What `next_prev` makes of the two stored points, as they are read.
abbrev chosen_of :
    PodStorage → MetricsPoint → Option MetricsPoint → Option MetricsPoint → Option MetricsPoint
chosen_of s p none prev = if is_fresh s.metric_resolution p then some (at_start p) else none
chosen_of s p (some last) prev =
    if is_fresh s.metric_resolution p
    then some (at_start p)
    else if ltb p.start_time last.timestamp
    then newest_older (some last) prev p.timestamp
    else none

next_prev-chosen :
    (s : PodStorage) (ref : NamespacedName) (name : GoString) (p : MetricsPoint)
    → next_prev s ref name p
      ≡ chosen_of s p
          (find ref name s.last)
          (read_if (is_some (lookup ref s.prev)) (find ref name s.prev))
next_prev-chosen s ref name p =
    let read = read_stored-eq name (lookup ref s.prev) in
    elim (Option-cases (find ref name s.last)) [
      | inl e ↦ rw e refl
      | inr (last, e) ↦ rw (e, sym read) refl
    ]

first_found :
    (points : Points) → 0 < length points → (name : GoString) × is_some (lookup name points) ≡ true
first_found [] h = absurd (omega arith)
first_found ((name, p) ∷ points) h = (name, ground (arith, lookup-cons name name p points))

-- A container that one of two maps of pods has is in the other.
found_in :
    (ref : NamespacedName) (d e : Pods)
    → HasContainer (lookup ref d)
    → ((name : GoString) → find ref name d ≡ find ref name e)
    → is_some (lookup ref d) ≡ true
    → is_some (lookup ref e) ≡ true
found_in ref d e h same there = elim (Option-cases (lookup ref d)) [
  | inl f ↦ absurd (ground arith)
  | inr (pod, f) ↦
      let (name, in_pod) = first_found pod.containers (rw f at h) in
      let in_d : is_some (find ref name d) ≡ true = rw f in_pod in
      let in_e : is_some (find ref name e) ≡ true = rw (sym (same name)) in_d in ground arith
]

has_same :
    (ref : NamespacedName) (d e : Pods)
    → HasContainer (lookup ref d)
    → HasContainer (lookup ref e)
    → ((name : GoString) → find ref name d ≡ find ref name e)
    → is_some (lookup ref d) ≡ is_some (lookup ref e)
has_same ref d e h k same =
    let there = found_in ref d e h same in
    let back = found_in ref e d k (λ name. sym (same name)) in ground arith

module _ (s t : PodStorage) (resolution : s.metric_resolution ≡ t.metric_resolution)
    (last : SamePods s.last t.last) (prev : SamePods s.prev t.prev) where
  next_prev-same :
      (ref : NamespacedName) (name : GoString) (p : MetricsPoint)
      → next_prev s ref name p ≡ next_prev t ref name p
  next_prev-same ref name p =
      next_prev-chosen s ref name p
      ∙ (λ i.
          chosen_of (record s { metric_resolution = resolution i }) p (last.at ref name i)
            (read_if (prev.has ref i) (prev.at ref name i)))
      ∙ sym (next_prev-chosen t ref name p)

  module _ (b c : MetricsBatch) (pods : SamePods b.pods c.pods) where
    store_last-SamePods : SamePods (Pod.store s b).last (Pod.store t c).last
    store_last-SamePods = record {
      has = λ ref. has-store_last s b ref ∙ pods.has ref ∙ sym (has-store_last t c ref);
      at = λ ref name.
          find-store_last s b ref name ∙ pods.at ref name ∙ sym (find-store_last t c ref name);
    }

    find_prev-same :
        (ref : NamespacedName) (name : GoString)
        → find ref name (Pod.store s b).prev ≡ find ref name (Pod.store t c).prev
    find_prev-same ref name =
        find-store_prev s b ref name
        ∙ ap (λ p. p >>=? next_prev s ref name) (pods.at ref name)
        ∙ ap (λ f. find ref name c.pods >>=? f) (fun_ext (next_prev-same ref name))
        ∙ sym (find-store_prev t c ref name)

    store_prev-SamePods : SamePods (Pod.store s b).prev (Pod.store t c).prev
    store_prev-SamePods = record {
      has = λ ref.
          has_same ref (Pod.store s b).prev (Pod.store t c).prev (store-HasContainer s b ref)
            (store-HasContainer t c ref) (find_prev-same ref);
      at = find_prev-same;
    }

module _ (s t : Storage) (b c : MetricsBatch) where
  -- Storages that hold the same still do after batches with the same points.
  pub store-SameStorage : SameStorage s t → SameBatch b c → SameStorage (store s b) (store t c)
  unfolding store Pod.store
  store-SameStorage same batch = record {
    last_nodes =
        λ name. store-last s.nodes b name ∙ batch.nodes name ∙ sym (store-last t.nodes c name);
    prev_nodes = λ name.
        store-prev s.nodes b name
        ∙ rw (same.last_nodes name, same.prev_nodes name, batch.nodes name) refl
        ∙ sym (store-prev t.nodes c name);
    last_pods =
        store_last-SamePods s.pods t.pods same.resolution same.last_pods same.prev_pods b c
          batch.pods;
    prev_pods =
        store_prev-SamePods s.pods t.pods same.resolution same.last_pods same.prev_pods b c
          batch.pods;
    resolution = same.resolution;
  }
