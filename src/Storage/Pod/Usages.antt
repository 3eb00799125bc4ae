-- ===== src/Storage/Pod/Usages.antt =====
-- The loop of GetMetrics of pkg/storage/pod.go over the containers of one pod.
use metrics_server.Prelude.{
  ◌≡◌, ◌≤◌, ◌<◌, refl, ◌∙◌, Option, some, List, [], ◌∷◌, ◌++◌, map, Bool, true, false, GoString,
  gostring_eq, arith, every, keep, is_some, All, ◌⊎◌, inl, inr, Option-cases, All-append,
}
use mathlib.Core.Path.{subst}
use mathlib.Core.Option.{some-injective}
use mathlib.Core.List.{append_assoc, append-nil, map-append}
use metrics_server.Prelude.Int.{pos, ◌<ℤ◌}
use metrics_server.Prelude.Dict.{lookup, contains, keys}
use metrics_server.Go.Time.{sub, sub_pos}
use metrics_server.Go.Float.{Floats}
use metrics_server.Go.Result.{ok, err, Result-cases}
use metrics_server.Kube.{Quantities, ContainerMetrics, ResourceList}
use metrics_server.Storage.Types.{MetricsPoint, TimeInfo, UsageError, resource_usage}
use metrics_server.Storage.Node.Reports.{both, comparable}
use metrics_server.Storage.Node.Ordered.{Ordered}
use metrics_server.Storage.Pod.{Points, earliest, container_usages}

-- Two points are there, and neither start time nor counter has decreased.
abbrev pub measurable : Points → GoString × MetricsPoint → Bool
measurable prevs (name, last) = both (some last) (lookup name prevs)

-- No sample has been taken into account, or the window is positive.
abbrev pub IsPositive : TimeInfo → Type 0
IsPositive info = (info.timestamp ≡ 0) ⊎ ((0 < info.timestamp) × (pos 0 <ℤ info.window))

-- A measured container's timestamp is not before the one that is reported.
abbrev pub NotBefore : Points → TimeInfo → GoString × MetricsPoint → Type 0
NotBefore prevs info (name, last) =
    measurable prevs (name, last) ≡ true → (0 < info.timestamp) × (info.timestamp ≤ last.timestamp)

abbrev pub IsPaired : Points → GoString × MetricsPoint → Type 0
IsPaired prevs (name, last) = Ordered (some last) (lookup name prevs)

module _ {F Q : Type 0} (fl : Floats F) (qs : Quantities Q) (last prev : MetricsPoint) where
  comparable-ok :
      (r : ResourceList Q × TimeInfo)
      → resource_usage fl qs last prev ≡ ok r
      → (comparable last prev ≡ true)
        × (r.1 ≡ record { timestamp = last.timestamp; window = sub last.timestamp prev.timestamp })
  unfolding resource_usage
  comparable-ok r h = ground arith

  comparable-err :
      (e : UsageError) → resource_usage fl qs last prev ≡ err e → comparable last prev ≡ false
  unfolding resource_usage
  comparable-err e h = ground arith

module _ {F Q : Type 0} (fl : Floats F) (qs : Quantities Q) (prevs : Points) where
  abbrev run :
      Points → List (ContainerMetrics Q) → TimeInfo → Option (List (ContainerMetrics Q) × TimeInfo)
  run lasts cms info = container_usages fl qs lasts prevs cms info

  -- The loop runs to its end exactly if each container has a previous point.
  pub container_usages_complete :
      (lasts : Points) (cms : List (ContainerMetrics Q)) (info : TimeInfo)
      → is_some (run lasts cms info) ≡ every (λ (name, _). contains name prevs) lasts
  unfolding container_usages contains
  container_usages_complete [] cms info = refl
  container_usages_complete ((name, last) ∷ lasts) cms info =
      elim (Option-cases (lookup name prevs)) [
        | inl e ↦ rw (e, container_usages) refl
        | inr (prev, e) ↦ elim (Result-cases (resource_usage fl qs last prev)) [
          | inl (x, f) ↦ rw (e, f, container_usages) (container_usages_complete lasts cms info)
          | inr ((usage, new), f) ↦
              rw (e, f, container_usages)
                (container_usages_complete lasts (cms ++ record { name = name; usage = usage } ∷ [])
                  (earliest info new))
        ]
      ]

  -- It appends, in the order of the loop, the containers of which the usage can be computed.
  pub container_usages-names :
      (lasts : Points) (cms : List (ContainerMetrics Q)) (info : TimeInfo)
      (result : List (ContainerMetrics Q) × TimeInfo)
      → run lasts cms info ≡ some result
      → map (λ c. c.name) result.0 ≡ map (λ c. c.name) cms ++ keys (keep (measurable prevs) lasts)
  unfolding container_usages
  container_usages-names [] cms info result h =
      ground (arith, append-nil (map (λ (c : ContainerMetrics Q). c.name) cms))
  container_usages-names ((name, last) ∷ lasts) cms info result h =
      elim (Option-cases (lookup name prevs)) [
        | inl e ↦ absurd (ground arith)
        | inr (prev, e) ↦ elim (Result-cases (resource_usage fl qs last prev)) [
          | inl (x, f) ↦
              rw (e, comparable-err fl qs last prev x f)
                (container_usages-names lasts cms info result (ground arith))
          | inr ((usage, new), f) ↦
              let cms' = cms ++ record { name = name; usage = usage } ∷ [] in
              rw (e, (comparable-ok fl qs last prev (usage, new) f).0)
                (container_usages-names lasts cms' (earliest info new) result (ground arith)
                  ∙ simp (map-append, append_assoc))
        ]
      ]

  -- What holds of each container that can be measured holds of all that is appended.
  pub container_usages-All :
      (P : ContainerMetrics Q → Type 0) (lasts : Points) (cms : List (ContainerMetrics Q))
      (info : TimeInfo) (result : List (ContainerMetrics Q) × TimeInfo)
      → All
          (λ (name, last).
            (prev : MetricsPoint) (usage : ResourceList Q) (measured : TimeInfo)
            → lookup name prevs ≡ some prev
            → resource_usage fl qs last prev ≡ ok (usage, measured)
            → P (record { name = name; usage = usage }))
          lasts
      → All P cms
      → run lasts cms info ≡ some result
      → All P result.0
  unfolding container_usages
  container_usages-All P [] cms info result o g h = subst (λ r. All P r.0) (some-injective _ _ h) g
  container_usages-All P ((name, last) ∷ lasts) cms info result o g h =
      elim (Option-cases (lookup name prevs)) [
        | inl e ↦ absurd (ground arith)
        | inr (prev, e) ↦ elim (Result-cases (resource_usage fl qs last prev)) [
          | inl (x, f) ↦ container_usages-All P lasts cms info result o.1 g (ground arith)
          | inr ((usage, new), f) ↦
              container_usages-All P lasts (cms ++ record { name = name; usage = usage } ∷ [])
                (earliest info new) result o.1 (All-append P cms _ g (o.0 prev usage new e f, tt))
                (ground arith)
        ]
      ]

  earliest-IsPositive :
      (info new : TimeInfo)
      → IsPositive info
      → 0 < new.timestamp
      → pos 0 <ℤ new.window
      → IsPositive (earliest info new)
        × (0 < (earliest info new).timestamp)
        × ((earliest info new).timestamp ≤ new.timestamp)
        × (0 < info.timestamp → (earliest info new).timestamp ≤ info.timestamp)
  unfolding earliest
  earliest-IsPositive info new h t w = (ground arith, ground arith, ground arith, ground arith)

  measured-positive :
      (last prev : MetricsPoint) (r : ResourceList Q × TimeInfo)
      → resource_usage fl qs last prev ≡ ok r
      → prev.timestamp < last.timestamp
      → (r.1.timestamp ≡ last.timestamp) × (pos 0 <ℤ r.1.window)
  measured-positive last prev r f older =
      let (_, at) = comparable-ok fl qs last prev r f in
      rw at (refl, sub_pos last.timestamp prev.timestamp older)

  pub container_usages-earliest :
      (lasts : Points) (cms : List (ContainerMetrics Q)) (info : TimeInfo)
      (result : List (ContainerMetrics Q) × TimeInfo)
      → All (IsPaired prevs) lasts
      → IsPositive info
      → run lasts cms info ≡ some result
      → IsPositive result.1
        × (0 < info.timestamp → (0 < result.1.timestamp) × (result.1.timestamp ≤ info.timestamp))
        × All (NotBefore prevs result.1) lasts
  unfolding container_usages
  container_usages-earliest [] cms info result o g h = ground arith
  container_usages-earliest ((name, last) ∷ lasts) cms info result o g h =
      elim (Option-cases (lookup name prevs)) [
        | inl e ↦ absurd (ground arith)
        | inr (prev, e) ↦ elim (Result-cases (resource_usage fl qs last prev)) [
          | inl (x, f) ↦
              let (ih, ih', ih'') =
                container_usages-earliest lasts cms info result o.1 g (ground arith) in
              (ih, ih', ((λ m. absurd (ground (arith, comparable-err fl qs last prev x f))), ih''))
          | inr ((usage, new), f) ↦
              let cms' = cms ++ record { name = name; usage = usage } ∷ [] in
              let older : prev.timestamp < last.timestamp = rw e at o.0 in
              let (same_time, window_pos) = measured-positive last prev (usage, new) f older in
              let (good, pos_time, le_new, le_info) =
                earliest-IsPositive info new g (omega arith) window_pos in
              let (ih, ih', ih'') =
                container_usages-earliest lasts cms' (earliest info new) result o.1 good
                  (ground arith) in
              let (t, t') = ih' pos_time in
              (ih, (λ p. let l = le_info p in (t, omega arith)), ((λ m. (t, omega arith)), ih''))
        ]
      ]
