-- ===== src/Scraper/Goroutines/Sent.antt =====
-- What the goroutines of a scrape have sent: the invariant of its states.
use mathlib.Core.List.{perm_middle, perm-append_left_iff, append_assoc}
use mathlib.Core.List.Perm
use mathlib.Core.List.{Perm}
use metrics_server.Prelude.{
  ℕ, suc, ◌≤◌, ◌+◌, ◌≡◌, refl, sym, ap, ◌∙◌, true, false, Option, List, [], ◌∷◌, ◌++◌, length,
  arith, length-append,
}
use metrics_server.Go.Result.{Result}
use metrics_server.Kube.{Node}
use metrics_server.Storage.Types.{MetricsBatch}
use metrics_server.Scraper.{
  RequestTotal, collect_node, collect_nodes, merge_batch, merge_batches, empty_batch,
}
use metrics_server.Scraper.Goroutines.{
  Scrape, begin, send, receive, Step, sends, sends_closed, receives, closes, Reachable, start, next,
}

merge_batches_last :
    (ms : List (Option MetricsBatch)) (m : Option MetricsBatch) (res : MetricsBatch)
    → merge_batches (ms ++ m ∷ []) res ≡ merge_batch m (merge_batches ms res)
unfolding merge_batches
merge_batches_last [] m res = refl
merge_batches_last (x ∷ ms) m res = merge_batches_last ms m (merge_batch x res)

module _ {E : Type 0} (get : Node → Result E MetricsBatch) where
  collect_nodes_last :
      (arrivals : List Node) (node : Node) (total : RequestTotal)
      → let (ms, now) = collect_nodes get arrivals total in
        let (m, after) = collect_node (get node) now in
        collect_nodes get (arrivals ++ node ∷ []) total ≡ (ms ++ m ∷ [], after)
  unfolding collect_nodes
  collect_nodes_last [] node total = refl
  collect_nodes_last (n ∷ arrivals) node total =
      ap (λ (ms, now). ((collect_node (get n) total).0 ∷ ms, now))
        (collect_nodes_last arrivals node (collect_node (get n) total).1)

  -- What has been sent, `received` and still in the channel, comes from the nodes of which the
  -- goroutine does not wait any more, and the rounds left are for what has not been received.
  pub record IsTraced (nodes : List Node) (total : RequestTotal) (s : Scrape) : Type 0 where
    pub arrivals : List Node
    pub received : List (Option MetricsBatch)
    pub same_nodes : Perm (arrivals ++ s.waiting) nodes
    pub collected : collect_nodes get arrivals total ≡ (received ++ s.responses, s.total)
    pub merged : s.res ≡ merge_batches received empty_batch
    pub rounds : s.remaining ≡ length s.waiting + length s.responses
    pub room : s.remaining ≤ length nodes
    pub done : s.closed ≡ true → s.remaining ≡ 0
    pub calm : s.panicked ≡ false

  begin-IsTraced :
      (nodes : List Node) (total : RequestTotal) → IsTraced nodes total (begin nodes total)
  unfolding collect_nodes merge_batches
  begin-IsTraced nodes total = record {
    arrivals = [];
    received = [];
    same_nodes = Perm.refl nodes;
    collected = refl;
    merged = refl;
    rounds = omega arith;
    room = omega arith;
    done = λ e. absurd (cc);
    calm = refl;
  }

  module _ (nodes : List Node) (total : RequestTotal) where
    send-IsTraced :
        (s : Scrape) (xs : List Node) (node : Node) (ys : List Node)
        → s.waiting ≡ xs ++ node ∷ ys
        → s.closed ≡ false
        → IsTraced nodes total s
        → IsTraced nodes total (send get s node (xs ++ ys))
    unfolding send
    send-IsTraced s xs node ys e h t = record {
      arrivals = t.arrivals ++ node ∷ [];
      received = t.received;
      same_nodes =
          Perm.trans
            (rw (append_assoc t.arrivals (node ∷ []) (xs ++ ys))
              ((perm-append_left_iff t.arrivals).1 (Perm.symm (perm_middle xs ys))))
            (rw e at t.same_nodes);
      collected =
          collect_nodes_last t.arrivals node total
          ∙ ap
              (λ (ms, now).
                (ms ++ (collect_node (get node) now).0 ∷ [], (collect_node (get node) now).1))
              t.collected
          ∙ rw (append_assoc t.received s.responses) refl;
      merged = t.merged;
      rounds =
          let r = t.rounds in
          let a = ap length e in
          let b = length-append xs (node ∷ ys) in
          let c = length-append xs ys in
          let d = length-append s.responses ((collect_node (get node) s.total).0 ∷ []) in
          omega arith;
      room = t.room;
      done = t.done;
      calm = t.calm;
    }

    receive-IsTraced :
        (s : Scrape) (m : Option MetricsBatch) (ms : List (Option MetricsBatch)) (k : ℕ)
        → s.responses ≡ m ∷ ms
        → s.remaining ≡ suc k
        → IsTraced nodes total s
        → IsTraced nodes total (receive get s m ms k)
    receive-IsTraced s m ms k e f t = record {
      arrivals = t.arrivals;
      received = t.received ++ m ∷ [];
      same_nodes = t.same_nodes;
      collected = t.collected ∙ rw (e, append_assoc t.received (m ∷ []) ms) refl;
      merged =
          sym (merge_batches_last t.received m empty_batch ∙ ap (merge_batch m) (sym t.merged));
      rounds = let r = t.rounds in let a = ap length e in omega arith;
      room = let r = t.room in omega arith;
      done = λ c. let z = t.done c in absurd (omega arith);
      calm = t.calm;
    }

    Step-IsTraced :
        (s t : Scrape)
        → Step get (length nodes) s t
        → IsTraced nodes total s
        → IsTraced nodes total t
    Step-IsTraced _ _ (sends s xs node ys e room open_) t = send-IsTraced s xs node ys e open_ t
    Step-IsTraced _ _ (sends_closed s xs node ys e closed) t =
        let r = t.rounds in
        let d = t.done closed in
        let a = ap length e in let b = length-append xs (node ∷ ys) in absurd (omega arith)
    Step-IsTraced _ _ (receives s m ms k e f) t = receive-IsTraced s m ms k e f t
    Step-IsTraced _ _ (closes s none_left open_) t = record {
      arrivals = t.arrivals;
      received = t.received;
      same_nodes = t.same_nodes;
      collected = t.collected;
      merged = t.merged;
      rounds = t.rounds;
      room = t.room;
      done = λ e. none_left;
      calm = t.calm;
    }

    pub Reachable-IsTraced : (s : Scrape) → Reachable get nodes total s → IsTraced nodes total s
    Reachable-IsTraced _ start = begin-IsTraced nodes total
    Reachable-IsTraced _ (next s t r step) = Step-IsTraced s t step (Reachable-IsTraced s r)
