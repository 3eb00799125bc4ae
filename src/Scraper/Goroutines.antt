-- ===== src/Scraper/Goroutines.antt =====
-- The goroutines of Scrape in pkg/scraper/scraper.go: one for each node, which sends its answer to
-- a channel, and the loop that receives the answers. The steps come in any order.
pub mod Sent
pub mod Finished
pub mod Agreed
use metrics_server.Prelude.{
  ℕ, suc, ◌<◌, ◌≡◌, Bool, true, false, Option, List, [], ◌∷◌, ◌++◌, length,
}
use metrics_server.Go.Result.{Result}
use metrics_server.Kube.{Node}
use metrics_server.Storage.Types.{MetricsBatch}
use metrics_server.Scraper.{RequestTotal, collect_node, merge_batch, empty_batch}

-- `waiting` are the nodes whose goroutine has not sent yet, started or not; `responses` is what the
-- channel holds, and `remaining` counts the rounds left of `for range nodes`.
pub record Scrape : Type 0 where
  pub waiting : List Node
  pub responses : List (Option MetricsBatch)
  pub remaining : ℕ
  pub total : RequestTotal
  pub res : MetricsBatch
  pub closed : Bool
  pub panicked : Bool

abbrev pub begin : List Node → RequestTotal → Scrape
begin nodes total = record {
  waiting = nodes;
  responses = [];
  remaining = length nodes;
  total = total;
  res = empty_batch;
  closed = false;
  panicked = false;
}

module _ {E : Type 0} (get : Node → Result E MetricsBatch) where
  -- `m, err := c.collectNode(ctx, node)` and `responseChannel <- m`
  unfoldable pub send : Scrape → Node → List Node → Scrape
  send s node waiting =
      let (m, total) = collect_node (get node) s.total in
      record s { waiting = waiting; responses = s.responses ++ m ∷ []; total = total }

  -- One round of the loop
  abbrev pub receive : Scrape → Option MetricsBatch → List (Option MetricsBatch) → ℕ → Scrape
  receive s m responses remaining = record s {
    responses = responses;
    remaining = remaining;
    res = merge_batch m s.res;
  }

  -- A send waits while the channel is full, and panics where it is closed; a receive waits while it
  -- is empty; the deferred close follows the last round.
  pub data Step (capacity : ℕ) : Scrape → Scrape → Type 0 where
    sends :
        (s : Scrape) (xs : List Node) (node : Node) (ys : List Node)
        → s.waiting ≡ xs ++ node ∷ ys
        → length s.responses < capacity
        → s.closed ≡ false
        → Step capacity s (send s node (xs ++ ys))
    sends_closed :
        (s : Scrape) (xs : List Node) (node : Node) (ys : List Node)
        → s.waiting ≡ xs ++ node ∷ ys
        → s.closed ≡ true
        → Step capacity s (record s { waiting = xs ++ ys; panicked = true })
    receives :
        (s : Scrape) (m : Option MetricsBatch) (ms : List (Option MetricsBatch)) (k : ℕ)
        → s.responses ≡ m ∷ ms
        → s.remaining ≡ suc k
        → Step capacity s (receive s m ms k)
    closes :
        (s : Scrape)
        → s.remaining ≡ 0
        → s.closed ≡ false
        → Step capacity s (record s { closed = true })

  -- The states of a scrape of the nodes, whose channel has a place for each answer.
  pub data Reachable (nodes : List Node) (total : RequestTotal) : Scrape → Type 0 where
    start : Reachable nodes total (begin nodes total)
    next :
        (s t : Scrape) → Reachable nodes total s → Step (length nodes) s t → Reachable nodes total t
