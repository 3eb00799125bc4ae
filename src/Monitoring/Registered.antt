-- ===== src/Monitoring/Registered.antt =====
-- What a new registry of pkg/server/metrics.go holds once the metrics are registered.
use mathlib.Core.Path.{subst}
use metrics_server.Prelude.{
  ◌≡◌, ◌≢◌, refl, sym, ap, ◌∙◌, List, [], ◌∷◌, ◌++◌, All, every, not, ◌&&◌, some, GoString, str,
  Bool, true, false, arith, last?, gostring_eq, ◌==◌, ==_iff,
}
use metrics_server.Go.Time.{Duration}
use metrics_server.Go.Float.{Floats}
use metrics_server.Go.Result.{ok}
use metrics_server.Buckets.{timeout_seconds, buckets_for_scrape_duration}
use metrics_server.Buckets.Ordered.{Increasing}
use metrics_server.Buckets.Near.{IsComparable, IsSpread}
use metrics_server.Buckets.Spread.{above_buckets, buckets_for_scrape_duration-IsSpread}
use metrics_server.Monitoring.{
  Metric, is_named, HasGoodBuckets, Registries, register_metrics, request_duration, request_total,
  last_request_time, metric_freshness, points_stored, tick_duration,
}

module _ {F : Type 0} where
  abbrev full_name : Metric F → GoString
  full_name m = m.namespace ++ str "_" ++ m.subsystem ++ str "_" ++ m.name

  -- Another metric, by its name
  abbrev is_other : Metric F → Metric F → Bool
  is_other m n = is_named n && not (full_name n == full_name m)

module _ {G E F : Type 0} (fl : Floats F) (registries : Registries G E F fl) where
  open registries use {
    build_fq_name, build_fq_name-join, def_buckets, new_kube_registry, register, registered,
    registered-register, registered-new,
  }

  name_of : Metric F → GoString
  name_of m = build_fq_name m.namespace m.subsystem m.name

  other_name : (m n : Metric F) → is_named m ≡ true → is_other m n ≡ true → name_of n ≢ name_of m
  unfolding name_of
  other_name m n h k e =
      let n_named : is_named n ≡ true = ground arith in
      let differ : (full_name n == full_name m) ≡ false = ground arith in
      let same = sym (build_fq_name-join n n_named) ∙ e ∙ build_fq_name-join m h in
      let test = (==_iff (full_name n) (full_name m)).1 same in absurd (cc)

  names_apart :
      (m : Metric F) (ms : List (Metric F))
      → is_named m ≡ true
      → every (is_other m) ms ≡ true
      → All (λ n. name_of n ≢ name_of m) ms
  names_apart m [] h k = tt
  names_apart m (n ∷ ms) h k = (other_name m n h (ground arith), names_apart m ms h (ground arith))

  -- A metric with a new name and good buckets is taken.
  register-other :
      (g : G) (m : Metric F) (ms : List (Metric F))
      → registered g ≡ ms
      → HasGoodBuckets fl m
      → is_named m ≡ true
      → every (is_other m) ms ≡ true
      → (g' : G) × (register g m ≡ ok g') × (registered g' ≡ ms ++ m ∷ [])
  unfolding name_of
  register-other g m ms e good named others =
      let (g', taken, now) = registered-register g m good (rw e (names_apart m ms named others)) in
      (g', taken, now ∙ ap (λ xs. xs ++ m ∷ []) e)

  -- What the registry must be given for each of the metrics to be taken.
  pub record HasGoodDefaults (resolution : Duration) : Type 0 where
    pub first : F
    pub rest : List F
    pub max : F
    pub def_buckets_eq : def_buckets ≡ first ∷ rest
    pub last_eq : last? (first ∷ rest) ≡ some max
    pub increasing : Increasing fl (first ∷ rest)
    pub comparable : All (IsComparable fl first (timeout_seconds fl resolution)) (first ∷ rest)
    pub above :
        fl.lt max (timeout_seconds fl resolution) ≡ true
        → Increasing fl (max ∷ above_buckets fl max (timeout_seconds fl resolution))
    pub freshness : HasGoodBuckets fl (metric_freshness fl registries)

  register_metrics-steps :
      (resolution : Duration) (buckets : List F) (g g1 g2 g3 g4 g5 g6 : G)
      → buckets_for_scrape_duration fl def_buckets resolution ≡ some buckets
      → register g (tick_duration fl registries buckets) ≡ ok g1
      → register g1 (request_duration fl registries) ≡ ok g2
      → register g2 (request_total fl registries) ≡ ok g3
      → register g3 (last_request_time fl registries) ≡ ok g4
      → register g4 (metric_freshness fl registries) ≡ ok g5
      → register g5 (points_stored fl registries) ≡ ok g6
      → register_metrics fl registries resolution g ≡ ok g6
  unfolding register_metrics
  register_metrics-steps resolution buckets g g1 g2 g3 g4 g5 g6 made e1 e2 e3 e4 e5 e6 =
      ground arith

  -- A new registry takes all metrics of the program, in this order; the buckets of the tick's
  -- duration are around the resolution. The registry's buckets are as HasGoodDefaults says.
  pub registered-register_metrics :
      (resolution : Duration) (d : HasGoodDefaults resolution)
      → (g : G) × (buckets : List F) × (register_metrics fl registries resolution new_kube_registry
          ≡ ok g)
        × (registered g
            ≡ tick_duration fl registries buckets
              ∷ request_duration fl registries
              ∷ request_total fl registries
              ∷ last_request_time fl registries
              ∷ metric_freshness fl registries
              ∷ points_stored fl registries
              ∷ [])
        × IsSpread fl d.first (timeout_seconds fl resolution) def_buckets buckets
  unfolding gostring_eq
  registered-register_metrics resolution d =
      let (buckets, made, spread) =
        buckets_for_scrape_duration-IsSpread fl d.first d.max d.rest resolution d.last_eq
          d.increasing d.comparable d.above in
      let made' : buckets_for_scrape_duration fl def_buckets resolution ≡ some buckets =
        subst (λ bs. buckets_for_scrape_duration fl bs resolution ≡ some buckets)
          (sym d.def_buckets_eq) made in
      let (g1, e1, r1) =
        register-other new_kube_registry (tick_duration fl registries buckets) [] registered-new
          spread.increasing refl refl in
      let (g2, e2, r2) =
        register-other g1 (request_duration fl registries) _ r1
          (subst (Increasing fl) (sym d.def_buckets_eq) d.increasing) refl refl in
      let (g3, e3, r3) = register-other g2 (request_total fl registries) _ r2 tt refl refl in
      let (g4, e4, r4) = register-other g3 (last_request_time fl registries) _ r3 tt refl refl in
      let (g5, e5, r5) =
        register-other g4 (metric_freshness fl registries) _ r4 d.freshness refl refl in
      let (g6, e6, r6) = register-other g5 (points_stored fl registries) _ r5 tt refl refl in
      (
        g6,
        buckets,
        register_metrics-steps resolution buckets new_kube_registry g1 g2 g3 g4 g5 g6 made' e1 e2 e3
            e4 e5 e6,
        r6,
        subst (λ bs. IsSpread fl d.first (timeout_seconds fl resolution) bs buckets)
            (sym d.def_buckets_eq) spread,
      )
