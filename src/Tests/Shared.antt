-- ===== src/Tests/Shared.antt =====
-- A batch that is stored between two readers, of which the second is still there.
use metrics_server.Prelude.{◌≡◌, refl, [], ◌∷◌, arith}
use metrics_server.Storage.{Storage, new_storage}
use metrics_server.Storage.Served.{run}
use metrics_server.Storage.Locked.{
  Shared, unshared, nodes_stored, pods_stored, store_nodes, Step, locks, stores_nodes, stores_pods,
  unlocks, rlocks, runlocks, Reachable, start, next,
}
use metrics_server.Storage.Locked.Atomic.{Reachable-run}
use metrics_server.Prelude.{some, none}
use metrics_server.Tests.Data.{minute, first_batch}

abbrev first : Storage
first = new_storage minute

abbrev read_before : Shared
read_before = record (unshared first) { readers = 1 }

abbrev written : Shared
written =
    pods_stored
      (nodes_stored (record (unshared first) { writing = some (store_nodes first_batch) })
        first_batch)
      first_batch

abbrev read_after : Shared
read_after = record written { writing = none; stored = first_batch ∷ []; readers = 1 }

read_after-Reachable : Reachable first read_after
read_after-Reachable =
    next _ _
      (next _ _
        (next _ _
          (next _ _
            (next _ _
              (next _ _ (next _ _ start (rlocks (unshared first) refl))
                (runlocks read_before 0 refl))
              (locks (unshared first) first_batch refl refl))
            (stores_nodes _ first_batch refl))
          (stores_pods _ first_batch refl))
        (unlocks written first_batch refl))
      (rlocks (record read_after { readers = 0 }) refl)

Reachable-run_example :
    (read_after.storage ≡ run first (first_batch ∷ []))
    × ((t : Shared)
        → Step read_after t
        → (t.storage ≡ read_after.storage) × (t.stored ≡ first_batch ∷ []))
Reachable-run_example = Reachable-run first read_after read_after-Reachable (omega arith)
