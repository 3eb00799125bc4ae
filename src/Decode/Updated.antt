-- ===== src/Decode/Updated.antt =====
-- What a change of one container does to the pods under construction
-- (pkg/scraper/client/resource/decode.go).
use metrics_server.Prelude.{
  ◌≡◌, refl, sym, ap, ◌∙◌, none, [], ◌&&◌, arith, GoString, gostring_eq, if◌then◌else◌, ◌==◌,
  Bool-cases, Option-cases, inl, inr, ==_iff,
}
use metrics_server.Prelude.Dict.{
  lookup, contains, insert, lookup-insert, NodupKeys, insert-NodupKeys,
}
use metrics_server.Kube.{NamespacedName, namespaced_name_eq}
use metrics_server.Storage.Types.{MetricsPoint, zero_point}
use metrics_server.Storage.Pod.{Points, Pods, read_point}
use metrics_server.Decode.{add_pod, add_container, update_container, read_containers}

-- The point of a container, which is the zero point if there is none.
abbrev pub point_at : NamespacedName → GoString → Pods → MetricsPoint
point_at ref name pods = read_point name (read_containers ref pods)

read_containers-insert :
    (ref k : NamespacedName) (points : Points) (pods : Pods)
    → read_containers ref (insert k (record { containers = points }) pods)
      ≡ (if ref == k then points else read_containers ref pods)
read_containers-insert ref k points pods =
    ground (arith, lookup-insert ref k (record { containers = points }) pods)

read_point-insert :
    (name k : GoString) (point : MetricsPoint) (points : Points)
    → read_point name (insert k point points)
      ≡ (if name == k then point else read_point name points)
read_point-insert name k point points = ground (arith, lookup-insert name k point points)

pub read_point-lacking :
    (name : GoString) (points : Points)
    → lookup name points ≡ none
    → read_point name points ≡ zero_point
read_point-lacking name points h = rw (h, read_point) refl

-- A point that is written into the map of its pod.
point_at-insert :
    (ref k : NamespacedName) (name c : GoString) (point : MetricsPoint) (pods : Pods)
    → point_at ref name
        (insert k (record { containers = insert c point (read_containers k pods) }) pods)
      ≡ (if (ref == k) && (name == c) then point else point_at ref name pods)
point_at-insert ref k name c point pods = elim (Bool-cases (ref == k)) [
  | inl e ↦
      let same = (==_iff ref k).0 e in
      ap (read_point name) (read_containers-insert ref k _ pods)
      ∙ (rw (e, same) (read_point-insert name c point (read_containers k pods)))
  | inr e ↦ ap (read_point name) (read_containers-insert ref k _ pods) ∙ (rw e refl)
]

read_containers-add_pod :
    (ref k : NamespacedName) (pods : Pods)
    → read_containers ref (add_pod k pods) ≡ read_containers ref pods
unfolding add_pod contains
read_containers-add_pod ref k pods = elim (Bool-cases (ref == k)) [
  | inl e ↦
      let same = (==_iff ref k).0 e in
      ground (arith, same, lookup-insert ref k (record { containers = [] }) pods)
  | inr e ↦ ground (arith, lookup-insert ref k (record { containers = [] }) pods)
]

point_at-add_container :
    (ref k : NamespacedName) (name c : GoString) (pods : Pods)
    → point_at ref name (add_container k c pods) ≡ point_at ref name pods
unfolding add_container contains
point_at-add_container ref k name c pods =
    elim (Option-cases (lookup c (read_containers k (add_pod k pods)))) [
      | inl lacking ↦
          let kept = ap (read_point name) (read_containers-add_pod ref k pods) in
          rw lacking (
            point_at-insert ref k name c zero_point (add_pod k pods)
            ∙ elim (Bool-cases ((ref == k) && (name == c))) [
              | inl both ↦
                  let r : ref ≡ k = (==_iff ref k).0 (ground arith) in
                  let n : name ≡ c = (==_iff name c).0 (ground arith) in
                  let zero = read_point-lacking c (read_containers k (add_pod k pods)) lacking in
                  rw (both, r, n) (sym zero ∙ ap (read_point c) (read_containers-add_pod k k pods))
              | inr apart ↦ rw apart kept
            ])
      | inr (p, found) ↦ rw found (ap (read_point name) (read_containers-add_pod ref k pods))
    ]

-- The point changes if it is the one that is meant, and no other does.
pub point_at-update_container :
    (ref k : NamespacedName) (name c : GoString) (f : MetricsPoint → MetricsPoint) (pods : Pods)
    → point_at ref name (update_container k c f pods)
      ≡ (if (ref == k) && (name == c) then f (point_at ref name pods) else point_at ref name pods)
unfolding update_container
point_at-update_container ref k name c f pods =
    point_at-insert ref k name c _ (add_container k c pods)
    ∙ elim (Bool-cases ((ref == k) && (name == c))) [
      | inl both ↦
          let r : ref ≡ k = (==_iff ref k).0 (ground arith) in
          let n : name ≡ c = (==_iff name c).0 (ground arith) in
          rw (both, r, n) (ap f (point_at-add_container k k c c pods))
      | inr apart ↦ rw apart (point_at-add_container ref k name c pods)
    ]

-- Each pod stands once, and each container once in its pod.
pub record AllDistinct (pods : Pods) : Type 0 where
  pub pods_once : NodupKeys pods
  pub containers_once : (ref : NamespacedName) → NodupKeys (read_containers ref pods)

insert-AllDistinct :
    (k : NamespacedName) (points : Points) (pods : Pods)
    → NodupKeys points
    → AllDistinct pods
    → AllDistinct (insert k (record { containers = points }) pods)
insert-AllDistinct k points pods h d = record {
  pods_once = insert-NodupKeys k (record { containers = points }) pods d.pods_once;
  containers_once = λ ref. elim (Bool-cases (ref == k)) [
    | inl e ↦ rw (read_containers-insert ref k points pods, e) h
    | inr e ↦ rw (read_containers-insert ref k points pods, e) (d.containers_once ref)
  ];
}

add_pod-AllDistinct :
    (k : NamespacedName) (pods : Pods) → AllDistinct pods → AllDistinct (add_pod k pods)
unfolding add_pod
add_pod-AllDistinct k pods d = elim (Bool-cases (contains k pods)) [
  | inl e ↦ rw e d
  | inr e ↦ rw e (insert-AllDistinct k [] pods tt d)
]

add_container-AllDistinct :
    (k : NamespacedName) (c : GoString) (pods : Pods)
    → AllDistinct pods
    → AllDistinct (add_container k c pods)
unfolding add_container
add_container-AllDistinct k c pods d =
    let d' = add_pod-AllDistinct k pods d in
    elim (Bool-cases (contains c (read_containers k (add_pod k pods)))) [
      | inl e ↦ rw e d'
      | inr e ↦ rw e (
          insert-AllDistinct k _ (add_pod k pods)
            (insert-NodupKeys c zero_point _ (d'.containers_once k)) d')
    ]

pub update_container-AllDistinct :
    (k : NamespacedName) (c : GoString) (f : MetricsPoint → MetricsPoint) (pods : Pods)
    → AllDistinct pods
    → AllDistinct (update_container k c f pods)
unfolding update_container
update_container-AllDistinct k c f pods d =
    let d' = add_container-AllDistinct k c pods d in
    insert-AllDistinct k _ (add_container k c pods) (insert-NodupKeys c _ _ (d'.containers_once k))
      d'
