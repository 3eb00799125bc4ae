-- ===== src/Storage/Same/View.antt =====
-- A storage of pkg/storage without the order of its maps: a quotient, on which Store and the getters
-- are functions.
use mathlib.Core.Path.{fun_ext}
use mathlib.Core.Quot
use mathlib.Core.Quot.{Quot, Quot-set}
use metrics_server.Prelude.{ℕ, ◌≡◌, refl, ap, ◌∙◌, sym, List, [], ◌∷◌, map, keep}
use metrics_server.Go.Time.{Time, Duration}
use metrics_server.Go.Float.{Floats}
use metrics_server.Kube.{
  Node as KubeNode, NodeMetrics, NamespacedName, PartialObjectMetadata, Quantities,
}
use metrics_server.Storage.Types.{MetricsBatch}
use metrics_server.Storage.Node.Alike as NodeAlike
use metrics_server.Storage.Pod.{pod_ref}
use metrics_server.Storage.Pod.Alike as PodAlike
use metrics_server.Storage.Pod.Reports.{item_ref, get_metrics-refs}
use metrics_server.Storage.{Storage, new_storage, store, get_node_metrics, get_pod_metrics}
use metrics_server.Storage.Served.{run}
use metrics_server.Storage.Same.{SameBatch, SameStorage, store-SameStorage}

abbrev pub View : Type 0
View = Quot SameStorage

SameBatch-refl : (b : MetricsBatch) → SameBatch b b
SameBatch-refl b = record {
  nodes = λ name. refl;
  pods = record { has = λ ref. refl; at = λ ref name. refl };
}

-- Store on a view
pub put : MetricsBatch → View → View
put b =
    Quot.lift Quot-set (λ s. Quot.mk (store s b))
      (λ s t same. Quot.sound (store-SameStorage s t b b same (SameBatch-refl b)))

pub put_all : List MetricsBatch → View → View
unfolding put
put_all [] v = v
put_all (b ∷ batches) v = put_all batches (put b v)

-- Two sequences of batches, each with the same points as the other's at its place.
abbrev pub SameBatches : List MetricsBatch → List MetricsBatch → Type 0
SameBatches [] [] = Unit
SameBatches [] (c ∷ cs) = ⊥
SameBatches (b ∷ bs) [] = ⊥
SameBatches (b ∷ bs) (c ∷ cs) = SameBatch b c × SameBatches bs cs

put_all-run :
    (s t : Storage) (bs cs : List MetricsBatch)
    → SameStorage s t
    → SameBatches bs cs
    → put_all bs (Quot.mk s) ≡ Quot.mk (run t cs)
unfolding put_all run
put_all-run s t [] [] same batches = Quot.sound same
put_all-run s t [] (c ∷ cs) same batches = elim batches [ ]
put_all-run s t (b ∷ bs) [] same batches = elim batches [ ]
put_all-run s t (b ∷ bs) (c ∷ cs) same (first, rest) =
    put_all-run (store s b) (store t c) bs cs (store-SameStorage s t b c same first) rest

SameStorage-refl : (s : Storage) → SameStorage s s
SameStorage-refl s = record {
  last_nodes = λ name. refl;
  prev_nodes = λ name. refl;
  last_pods = record { has = λ ref. refl; at = λ ref name. refl };
  prev_pods = record { has = λ ref. refl; at = λ ref name. refl };
  resolution = refl;
}

module _ {F Q : Type 0} (fl : Floats F) (qs : Quantities Q) (now : ℕ → Time) where
  nodes-alike :
      (s t : Storage) (nodes : List KubeNode)
      → SameStorage s t
      → get_node_metrics fl qs s now nodes ≡ get_node_metrics fl qs t now nodes
  unfolding get_node_metrics
  nodes-alike s t nodes same =
      NodeAlike.get_metrics-alike fl qs s.nodes t.nodes same.last_nodes same.prev_nodes now nodes

  pods-alike :
      (s t : Storage) (pods : List PartialObjectMetadata)
      → SameStorage s t
      → map item_ref (get_pod_metrics fl qs s now pods)
        ≡ map item_ref (get_pod_metrics fl qs t now pods)
  unfolding get_pod_metrics
  pods-alike s t pods same =
      get_metrics-refs fl qs s.pods now pods
      ∙ ap (λ f. map pod_ref (keep f pods))
          (fun_ext (
            PodAlike.reportable-alike s.pods t.pods same.last_pods.has same.prev_pods.has
              same.last_pods.at same.prev_pods.at))
      ∙ sym (get_metrics-refs fl qs t.pods now pods)

  -- GetNodeMetrics and the names of what GetPodMetrics answers, on a view
  pub node_answers : IsSet Q → List KubeNode → View → List (NodeMetrics Q)
  node_answers q nodes =
      Quot.lift (hlevel) (λ s. get_node_metrics fl qs s now nodes) (λ s t. nodes-alike s t nodes)

  pub pod_answers : List PartialObjectMetadata → View → List NamespacedName
  pod_answers pods =
      Quot.lift (hlevel) (λ s. map item_ref (get_pod_metrics fl qs s now pods))
        (λ s t. pods-alike s t pods)

  -- The storage implements the one on views: whatever batches it has stored, in maps of whatever
  -- order, it answers the items of nodes, and the names of pods, that the view answers which has
  -- been put batches with the same points. In these answers the order in which a map is visited
  -- cannot be seen. The quantities form a set.
  pub answers-put_all :
      (q : IsSet Q) (resolution : Duration) (bs cs : List MetricsBatch)
      → SameBatches bs cs
      → (nodes : List KubeNode) (pods : List PartialObjectMetadata)
      → let v = put_all bs (Quot.mk (new_storage resolution)) in
        let s = run (new_storage resolution) cs in
        (node_answers q nodes v ≡ get_node_metrics fl qs s now nodes)
        × (pod_answers pods v ≡ map item_ref (get_pod_metrics fl qs s now pods))
  unfolding node_answers pod_answers
  answers-put_all q resolution bs cs same nodes pods =
      let start = new_storage resolution in
      let e = put_all-run start start bs cs (SameStorage-refl start) same in
      (ap (node_answers q nodes) e, ap (pod_answers pods) e)
