-- ===== src/Storage/Locked/Atomic.antt =====
-- What the readers of pkg/storage/storage.go see under its lock.
use metrics_server.Prelude.{
  ℕ, suc, ◌<◌, ◌≡◌, refl, sym, ap, ◌∙◌, Option, none, some, List, [], ◌∷◌, ◌++◌, arith,
}
use metrics_server.Storage.Types.{MetricsBatch}
use metrics_server.Storage.Node
use metrics_server.Storage.Pod
use metrics_server.Storage.{Storage, store}
use metrics_server.Storage.Served.{run}
use metrics_server.Storage.Locked.{
  Writing, store_nodes, store_pods, unlock, Shared, Step, locks, stores_nodes, stores_pods, unlocks,
  rlocks, runlocks, Reachable, start, next,
}

pub run_last :
    (s : Storage) (batches : List MetricsBatch) (batch : MetricsBatch)
    → run s (batches ++ batch ∷ []) ≡ store (run s batches) batch
unfolding run
run_last s [] batch = refl
run_last s (b ∷ batches) batch = run_last (store s b) batches batch

-- How far the storage is from the one before the write.
abbrev partial : Storage → Option Writing → Storage
partial before none = before
partial before (some (store_nodes batch)) = before
partial before (some (store_pods batch)) = record before { nodes = Node.store before.nodes batch }
partial before (some (unlock batch)) = store before batch

abbrev NoReader : Option Writing → ℕ → Type 0
NoReader none readers = Unit
NoReader (some w) readers = readers ≡ 0

still_alone :
    (w : Option Writing) (readers k : ℕ) → readers ≡ suc k → NoReader w readers → NoReader w k
still_alone none readers k e h = tt
still_alone (some w) readers k e h = absurd (omega arith)

-- No one writes while there is a reader.
not_writing : (w : Option Writing) (readers : ℕ) → 0 < readers → NoReader w readers → w ≡ none
not_writing none readers h alone = refl
not_writing (some w) readers h alone = absurd (omega arith)

record IsLocked (first : Storage) (s : Shared) : Type 0 where
  whole : s.storage ≡ partial (run first s.stored) s.writing
  alone : NoReader s.writing s.readers

module _ (first : Storage) where
  Step-IsLocked : (s t : Shared) → Step s t → IsLocked first s → IsLocked first t
  unfolding store
  Step-IsLocked _ _ (locks s batch free idle) inv = record {
    whole = rw idle at inv.whole;
    alone = free;
  }
  Step-IsLocked _ _ (stores_nodes s batch e) inv = record {
    whole = ap (λ (x : Storage). record x { nodes = Node.store x.nodes batch }) (rw e at inv.whole);
    alone = rw e at inv.alone;
  }
  Step-IsLocked _ _ (stores_pods s batch e) inv = record {
    whole = ap (λ (x : Storage). record x { pods = Pod.store x.pods batch }) (rw e at inv.whole);
    alone = rw e at inv.alone;
  }
  Step-IsLocked _ _ (unlocks s batch e) inv = record {
    whole = (rw e at inv.whole) ∙ sym (run_last first s.stored batch);
    alone = tt;
  }
  Step-IsLocked _ _ (rlocks s idle) inv = record { whole = inv.whole; alone = rw idle tt }
  Step-IsLocked _ _ (runlocks s k e) inv = record {
    whole = inv.whole;
    alone = still_alone s.writing s.readers k e inv.alone;
  }

  Reachable-IsLocked : (s : Shared) → Reachable first s → IsLocked first s
  unfolding run
  Reachable-IsLocked _ start = record { whole = refl; alone = tt }
  Reachable-IsLocked _ (next s t r step) = Step-IsLocked s t step (Reachable-IsLocked s r)

  Step-kept :
      (s t : Shared)
      → Step s t
      → 0 < s.readers
      → s.writing ≡ none
      → (t.storage ≡ s.storage) × (t.stored ≡ s.stored)
  Step-kept _ _ (locks s batch free idle) h e = absurd (omega arith)
  Step-kept _ _ (stores_nodes s batch f) h e = absurd (cc)
  Step-kept _ _ (stores_pods s batch f) h e = absurd (cc)
  Step-kept _ _ (unlocks s batch f) h e = absurd (cc)
  Step-kept _ _ (rlocks s idle) h e = (refl, refl)
  Step-kept _ _ (runlocks s k f) h e = (refl, refl)

  -- Whatever the order in which goroutines store and read, one that holds the read lock finds the
  -- storage that the finished calls of Store have made, each as one step on nodes and pods, in the
  -- order of their ends; and no step of another goroutine changes it while the read lock is held.
  pub Reachable-run :
      (s : Shared)
      → Reachable first s
      → 0 < s.readers
      → (s.storage ≡ run first s.stored)
        × ((t : Shared) → Step s t → (t.storage ≡ s.storage) × (t.stored ≡ s.stored))
  Reachable-run s r h =
      let inv = Reachable-IsLocked s r in
      let idle = not_writing s.writing s.readers h inv.alone in
      (rw idle at inv.whole, λ t step. Step-kept s t step h idle)
