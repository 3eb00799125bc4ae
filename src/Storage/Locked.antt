-- ===== src/Storage/Locked.antt =====
-- The lock of pkg/storage/storage.go: Store in its parts, between Lock and Unlock, and the readers
-- Ready, GetNodeMetrics and GetPodMetrics, each between RLock and RUnlock. The steps of any number
-- of goroutines come in any order that sync.RWMutex allows.
pub mod Atomic
use metrics_server.Prelude.{ℕ, suc, ◌≡◌, Option, none, some, List, [], ◌∷◌, ◌++◌}
use metrics_server.Storage.Types.{MetricsBatch}
use metrics_server.Storage.Node
use metrics_server.Storage.Pod
use metrics_server.Storage.{Storage}

-- What the goroutine that holds the write lock does next.
pub data Writing : Type 0 where
  store_nodes store_pods unlock : MetricsBatch → Writing

-- `readers` counts the goroutines that hold the read lock, and `stored` lists the batches whose Store
-- has given the lock back.
pub record Shared : Type 0 where
  pub storage : Storage
  pub readers : ℕ
  pub writing : Option Writing
  pub stored : List MetricsBatch

abbrev pub unshared : Storage → Shared
unshared storage = record { storage = storage; readers = 0; writing = none; stored = [] }

abbrev pub nodes_stored : Shared → MetricsBatch → Shared
nodes_stored s batch = record s {
  storage = record s.storage { nodes = Node.store s.storage.nodes batch };
  writing = some (store_pods batch);
}

abbrev pub pods_stored : Shared → MetricsBatch → Shared
pods_stored s batch = record s {
  storage = record s.storage { pods = Pod.store s.storage.pods batch };
  writing = some (unlock batch);
}

-- Lock waits for the other writer and for all readers, and RLock for the writer.
pub data Step : Shared → Shared → Type 0 where
  locks :
      (s : Shared) (batch : MetricsBatch)
      → s.readers ≡ 0
      → s.writing ≡ none
      → Step s (record s { writing = some (store_nodes batch) })
  stores_nodes :
      (s : Shared) (batch : MetricsBatch)
      → s.writing ≡ some (store_nodes batch)
      → Step s (nodes_stored s batch)
  stores_pods :
      (s : Shared) (batch : MetricsBatch)
      → s.writing ≡ some (store_pods batch)
      → Step s (pods_stored s batch)
  unlocks :
      (s : Shared) (batch : MetricsBatch)
      → s.writing ≡ some (unlock batch)
      → Step s (record s { writing = none; stored = s.stored ++ batch ∷ [] })
  rlocks : (s : Shared) → s.writing ≡ none → Step s (record s { readers = suc s.readers })
  runlocks : (s : Shared) (k : ℕ) → s.readers ≡ suc k → Step s (record s { readers = k })

pub data Reachable (storage : Storage) : Shared → Type 0 where
  start : Reachable storage (unshared storage)
  next : (s t : Shared) → Reachable storage s → Step s t → Reachable storage t
