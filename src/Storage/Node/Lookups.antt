-- ===== src/Storage/Node/Lookups.antt =====
-- What the maps of nodeStorage hold under each name after Store, and the invariant of the store.
use metrics_server.Prelude.{
  ◌≡◌, refl, Option, none, some, [], ◌∷◌, Bool, true, GoString, gostring_eq, arith, if◌then◌else◌,
  is_some, ◌==◌, ltb,
}
use metrics_server.Prelude.Dict.{Dict, lookup, contains, lookup-insert, lookup-nil}
use metrics_server.Go.Time.{Time}
use metrics_server.Storage.Types.{MetricsPoint, MetricsBatch}
use metrics_server.Storage.Node.{NodeStorage, Maps, store_prev, store_point, store_points, store}

-- The first of the two stored points that is older than the new one.
abbrev pub newest_older : Option MetricsPoint → Option MetricsPoint → Time → Option MetricsPoint
newest_older none prev t = none
newest_older (some last) none t = if ltb last.timestamp t then some last else none
newest_older (some last) (some prev) t =
    if ltb last.timestamp t then some last else if ltb prev.timestamp t then some prev else none

abbrev pub next_prev : NodeStorage → GoString → MetricsPoint → Option MetricsPoint
next_prev s name point = newest_older (lookup name s.last) (lookup name s.prev) point.timestamp

-- What Store keeps as the previous point of a name, from the stored points and the batch's point.
abbrev pub chosen :
    Option MetricsPoint → Option MetricsPoint → Option MetricsPoint → Option MetricsPoint
chosen last prev none = none
chosen last prev (some point) = newest_older last prev point.timestamp

abbrev or_else : Option MetricsPoint → Option MetricsPoint → Option MetricsPoint
or_else none b = b
or_else (some a) b = some a

abbrev unless : Bool → Option MetricsPoint → Option MetricsPoint → Option MetricsPoint
unless b x y = if b then x else y

module _ (s : NodeStorage) (name : GoString) where
  store_point-last :
      (k : GoString) (p : MetricsPoint) (maps : Maps)
      → lookup name (store_point s k p maps).0
        ≡ or_else (lookup name maps.0) (if name == k then some p else none)
  unfolding store_point contains
  store_point-last k p maps = ground (arith, lookup-insert name k p maps.0)

  lookup-store_prev :
      (k : GoString) (p : MetricsPoint) (prevs : Dict GoString MetricsPoint)
      → lookup name (store_prev s k p prevs)
        ≡ (if name == k then or_else (next_prev s k p) (lookup name prevs) else lookup name prevs)
  unfolding store_prev
  lookup-store_prev k p prevs = grind (arith, lookup-insert)

  -- A name that a round has met keeps its points.
  store_point-prev_met :
      (k : GoString) (p : MetricsPoint) (maps : Maps)
      → is_some (lookup name maps.0) ≡ true
      → lookup name (store_point s k p maps).1 ≡ lookup name maps.1
  unfolding store_point contains
  store_point-prev_met k p maps h = ground (arith, lookup-store_prev k p maps.1)

  store_point-prev_new :
      (k : GoString) (p : MetricsPoint) (maps : Maps)
      → lookup name maps.0 ≡ none
      → lookup name maps.1 ≡ none
      → lookup name (store_point s k p maps).1 ≡ (if name == k then next_prev s name p else none)
  unfolding store_point contains
  store_point-prev_new k p maps h g = ground (arith, lookup-store_prev k p maps.1)

  store_points-last :
      (batch : Dict GoString MetricsPoint) (maps : Maps)
      → lookup name (store_points s batch maps).0 ≡ or_else (lookup name maps.0) (lookup name batch)
  unfolding store_points lookup
  store_points-last [] maps = ground arith
  store_points-last ((k, p) ∷ batch) maps =
      ground (arith, store_points-last batch (store_point s k p maps), store_point-last k p maps)

  store_points-prev_met :
      (batch : Dict GoString MetricsPoint) (maps : Maps)
      → is_some (lookup name maps.0) ≡ true
      → lookup name (store_points s batch maps).1 ≡ lookup name maps.1
  unfolding store_points
  store_points-prev_met [] maps h = refl
  store_points-prev_met ((k, p) ∷ batch) maps h = ground (
    arith,
    store_points-prev_met batch (store_point s k p maps),
    store_point-prev_met k p maps,
    store_point-last k p maps,
  )

  store_points-prev_new :
      (batch : Dict GoString MetricsPoint) (maps : Maps)
      → lookup name maps.0 ≡ none
      → lookup name maps.1 ≡ none
      → lookup name (store_points s batch maps).1
        ≡ chosen (lookup name s.last) (lookup name s.prev) (lookup name batch)
  unfolding store_points lookup
  store_points-prev_new [] maps h g = ground arith
  store_points-prev_new ((k, p) ∷ batch) maps h g = ground (
    arith,
    store_points-prev_new batch (store_point s k p maps),
    store_points-prev_met batch (store_point s k p maps),
    store_point-prev_new k p maps,
    store_point-last k p maps,
  )

module _ (s : NodeStorage) (batch : MetricsBatch) (name : GoString) where
  -- After Store a name's last point is the batch's.
  pub store-last : lookup name (store s batch).last ≡ lookup name batch.nodes
  unfolding store
  store-last = rw store_points-last (ground (arith, lookup-nil {V = MetricsPoint} name))

  -- After Store a name's previous point is that of the two stored points that is older than the
  -- new one, the later of the two first.
  pub store-prev :
      lookup name (store s batch).prev
      ≡ chosen (lookup name s.last) (lookup name s.prev) (lookup name batch.nodes)
  unfolding store
  store-prev = store_points-prev_new s name batch.nodes ([], []) (lookup-nil name) (lookup-nil name)
