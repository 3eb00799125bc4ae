-- ===== src/Storage/Node/Ordered.antt =====
-- The order of the two stored points of a node, and repeated batches (pkg/storage/node.go).
use metrics_server.Prelude.{◌<◌, ◌≡◌, refl, Option, none, some, GoString, gostring_eq, arith}
use metrics_server.Prelude.Dict.{lookup}
use metrics_server.Storage.Types.{MetricsPoint, MetricsBatch}
use metrics_server.Storage.Node.{NodeStorage, store}
use metrics_server.Storage.Node.Lookups.{newest_older, chosen, store-last, store-prev}

-- A previous point is only there beside a last point, and is older.
abbrev pub Ordered : Option MetricsPoint → Option MetricsPoint → Type 0
Ordered last none = Unit
Ordered none (some prev) = ⊥
Ordered (some last) (some prev) = prev.timestamp < last.timestamp

pub record IsOrdered (s : NodeStorage) : Type 0 where
  pub at : (name : GoString) → Ordered (lookup name s.last) (lookup name s.prev)

newest_older-Ordered :
    (last prev : Option MetricsPoint) (new : MetricsPoint)
    → Ordered (some new) (newest_older last prev new.timestamp)
newest_older-Ordered none prev new = tt
newest_older-Ordered (some l) none new = ground arith
newest_older-Ordered (some l) (some p) new = ground arith

-- The new point over a stored pair.
chosen-Ordered : (last prev new : Option MetricsPoint) → Ordered new (chosen last prev new)
chosen-Ordered last prev none = tt
chosen-Ordered last prev (some p) = newest_older-Ordered last prev p

-- Whatever was stored before, after Store each previous point is older than the last point of its
-- node, which is there.
pub store-IsOrdered : (s : NodeStorage) (batch : MetricsBatch) → IsOrdered (store s batch)
store-IsOrdered s batch = record {
  at = λ name.
      rw (store-last s batch name, store-prev s batch name)
        (chosen-Ordered (lookup name s.last) (lookup name s.prev) (lookup name batch.nodes));
}

same_again :
    (last prev new : Option MetricsPoint)
    → chosen new (chosen last prev new) new ≡ chosen last prev new
same_again last prev none = refl
same_again last prev (some p) = ground (arith, newest_older-Ordered last prev p)

-- A batch that is stored a second time changes neither point of any node, so that a kubelet that
-- serves old samples again does not shorten the history.
pub store_again :
    (s : NodeStorage) (batch : MetricsBatch) (name : GoString)
    → (lookup name (store (store s batch) batch).last ≡ lookup name (store s batch).last)
      × (lookup name (store (store s batch) batch).prev ≡ lookup name (store s batch).prev)
store_again s batch name = (
  rw (store-last (store s batch) batch name, store-last s batch name),
  rw (store-prev (store s batch) batch name, store-last s batch name, store-prev s batch name)
      (same_again (lookup name s.last) (lookup name s.prev) (lookup name batch.nodes)),
)
