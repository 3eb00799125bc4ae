-- ===== src/Decode/Kept.antt =====
-- A predicate of points that the changes of the pods under construction keep (pkg/scraper/client/resource/decode.go).
use metrics_server.Prelude.{[], ◌∷◌, GoString, gostring_eq, ◌==◌, inl, inr, Bool-cases}
use metrics_server.Prelude.Dict.{lookup, contains, insert}
use metrics_server.Kube.{NamespacedName, namespaced_name_eq}
use metrics_server.Storage.Types.{MetricsPoint, zero_point}
use metrics_server.Storage.Pod.{Points, Pods, read_point}
use metrics_server.Decode.{add_pod, add_container, update_container, read_containers}

module _ (P : MetricsPoint → Type 0) where
  abbrev pub AllPoints : Points → Type 0
  AllPoints [] = Unit
  AllPoints ((_, point) ∷ points) = P point × AllPoints points

  abbrev pub AllPods : Pods → Type 0
  AllPods [] = Unit
  AllPods ((_, pod) ∷ pods) = AllPoints pod.containers × AllPods pods

  pub insert-AllPoints :
      (name : GoString) (point : MetricsPoint) (points : Points)
      → P point
      → AllPoints points
      → AllPoints (insert name point points)
  unfolding insert
  insert-AllPoints name point [] p h = (p, tt)
  insert-AllPoints name point ((k, q) ∷ points) p h = elim (Bool-cases (name == k)) [
    | inl e ↦ rw (e, insert) (p, h.1)
    | inr e ↦ rw (e, insert) (h.0, insert-AllPoints name point points p h.1)
  ]

  pub insert-AllPods :
      (ref : NamespacedName) (points : Points) (pods : Pods)
      → AllPoints points
      → AllPods pods
      → AllPods (insert ref (record { containers = points }) pods)
  unfolding insert
  insert-AllPods ref points [] p h = (p, tt)
  insert-AllPods ref points ((k, q) ∷ pods) p h = elim (Bool-cases (ref == k)) [
    | inl e ↦ rw (e, insert) (p, h.1)
    | inr e ↦ rw (e, insert) (h.0, insert-AllPods ref points pods p h.1)
  ]

  read_containers-AllPoints :
      (ref : NamespacedName) (pods : Pods) → AllPods pods → AllPoints (read_containers ref pods)
  unfolding lookup
  read_containers-AllPoints ref [] h = tt
  read_containers-AllPoints ref ((k, q) ∷ pods) h = elim (Bool-cases (ref == k)) [
    | inl e ↦ rw (e, AllPoints) h.0
    | inr e ↦ rw (e, AllPoints) (read_containers-AllPoints ref pods h.1)
  ]

  module _ (zero : P zero_point) where
    read_point-P :
        (name : GoString) (points : Points) → AllPoints points → P (read_point name points)
    unfolding lookup
    read_point-P name [] h = zero
    read_point-P name ((k, q) ∷ points) h = elim (Bool-cases (name == k)) [
      | inl e ↦ rw (e, read_point) h.0
      | inr e ↦ rw (e, read_point) (read_point-P name points h.1)
    ]

    add_pod-AllPods :
        (ref : NamespacedName) (pods : Pods) → AllPods pods → AllPods (add_pod ref pods)
    unfolding add_pod
    add_pod-AllPods ref pods h = elim (Bool-cases (contains ref pods)) [
      | inl e ↦ rw e h
      | inr e ↦ rw e (insert-AllPods ref [] pods tt h)
    ]

    add_container-AllPods :
        (ref : NamespacedName) (name : GoString) (pods : Pods)
        → AllPods pods
        → AllPods (add_container ref name pods)
    unfolding add_container
    add_container-AllPods ref name pods h =
        let h' = add_pod-AllPods ref pods h in
        elim (Bool-cases (contains name (read_containers ref (add_pod ref pods)))) [
          | inl e ↦ rw e h'
          | inr e ↦ rw e (
              insert-AllPods ref _ (add_pod ref pods)
                (insert-AllPoints name zero_point _ zero (read_containers-AllPoints ref _ h')) h')
        ]

    pub update_container-AllPods :
        (ref : NamespacedName) (name : GoString) (f : MetricsPoint → MetricsPoint) (pods : Pods)
        → ((point : MetricsPoint) → P point → P (f point))
        → AllPods pods
        → AllPods (update_container ref name f pods)
    unfolding update_container
    update_container-AllPods ref name f pods keep h =
        let h' = add_container-AllPods ref name pods h in
        let points = read_containers-AllPoints ref (add_container ref name pods) h' in
        insert-AllPods ref _ (add_container ref name pods)
          (insert-AllPoints name _ _ (keep _ (read_point-P name _ points)) points) h'
