-- ===== src/Scraper/Goroutines/Finished.antt =====
-- How the goroutines of Scrape in pkg/scraper/scraper.go come to their end.
use mathlib.Core.List.{Perm, append-nil}
use mathlib.Core.Path.{subst}
use metrics_server.Prelude.{
  ℕ, suc, ◌<◌, ◌+◌, ◌*◌, ◌≡◌, refl, sym, ap, ◌∙◌, ◌⊎◌, inl, inr, Bool-cases, true, false, Option,
  List, [], ◌∷◌, ◌++◌, length, arith, length-append, if◌then◌else◌,
}
use metrics_server.Go.Result.{Result}
use metrics_server.Kube.{Node}
use metrics_server.Storage.Types.{MetricsBatch}
use metrics_server.Scraper.{
  RequestTotal, collect_node, collect_nodes, merge_batches, empty_batch, scrape,
}
use metrics_server.Scraper.Goroutines.{
  Scrape, send, Step, sends, sends_closed, receives, closes, Reachable,
}
use metrics_server.Scraper.Goroutines.Sent.{IsTraced, Reachable-IsTraced}

-- What is left to do: a send and a receive for each node, and the close.
abbrev pub work : Scrape → ℕ
work s = 2 * length s.waiting + length s.responses + (if s.closed then 0 else 1)

nothing_left {ℓ} : {A : Type ℓ} (xs : List A) → length xs ≡ 0 → xs ≡ []
nothing_left [] h = refl
nothing_left (x ∷ xs) h = absurd (omega arith)

fewer {ℓ} :
    {A : Type ℓ} (zs xs : List A) (x : A) (ys : List A)
    → zs ≡ xs ++ x ∷ ys
    → length zs ≡ suc (length (xs ++ ys))
fewer zs xs x ys e =
    let a = ap length e in
    let b = length-append xs (x ∷ ys) in let c = length-append xs ys in omega arith

module _ {E : Type 0} (get : Node → Result E MetricsBatch) (nodes : List Node)
    (total : RequestTotal) where
  -- When the channel is closed, the batch and the counters are those of a scrape that hears of each
  -- node once, in some order.
  pub closed-scrape :
      (s : Scrape)
      → Reachable get nodes total s
      → s.closed ≡ true
      → (arrivals : List Node) × Perm arrivals nodes
        × (scrape get arrivals total ≡ (s.res, s.total))
  unfolding scrape
  closed-scrape s r closed =
      let t = Reachable-IsTraced get nodes total s r in
      let rounds = t.rounds in
      let none_left = t.done closed in
      let all_sent : s.waiting ≡ [] = nothing_left s.waiting (omega arith) in
      let all_received : s.responses ≡ [] = nothing_left s.responses (omega arith) in
      let sent : collect_nodes get t.arrivals total ≡ (t.received, s.total) =
        t.collected
        ∙ ap (λ ms. (ms, s.total)) (ap (◌++◌ t.received) all_received ∙ append-nil t.received) in
      (
        t.arrivals,
        subst (λ ns. Perm ns nodes) (ap (◌++◌ t.arrivals) all_sent ∙ append-nil t.arrivals)
            t.same_nodes,
        ap (λ (ms, now). (merge_batches ms empty_batch, now)) sent
            ∙ ap (λ res. (res, s.total)) (sym t.merged),
      )

  Step-work : (s t : Scrape) → Step get (length nodes) s t → work t < work s
  unfolding send
  Step-work _ _ (sends s xs node ys e room open_) =
      let a = fewer s.waiting xs node ys e in
      let b = length-append s.responses ((collect_node (get node) s.total).0 ∷ []) in omega arith
  Step-work _ _ (sends_closed s xs node ys e closed) =
      let a = fewer s.waiting xs node ys e in omega arith
  Step-work _ _ (receives s m ms k e f) = let a = ap length e in omega arith
  Step-work _ _ (closes s none_left open_) = rw open_ (omega arith)

  open-Step :
      (s : Scrape)
      → IsTraced get nodes total s
      → s.closed ≡ false
      → (waiting : List Node) → s.waiting ≡ waiting
      → (responses : List (Option MetricsBatch)) → s.responses ≡ responses
      → (t : Scrape) × Step get (length nodes) s t
  open-Step s t open_ (node ∷ ys) e responses f = (
    _,
    sends s [] node ys e (let a = t.rounds in let b = t.room in let c = ap length e in omega arith)
        open_,
  )
  open-Step s t open_ [] e (m ∷ ms) f = (
    _,
    receives s m ms (length ms) f
        (let a = t.rounds in let b = ap length e in let c = ap length f in omega arith),
  )
  open-Step s t open_ [] e [] f = (
    _,
    closes s (let a = t.rounds in let b = ap length e in let c = ap length f in omega arith) open_,
  )

  -- No state of a scrape is a deadlock: until the channel is closed there is a step. A goroutine
  -- that has an answer finds a free place in the channel, none sends to a closed channel, and each
  -- step leaves less to do, so that every schedule ends, with the channel closed. Each request is
  -- taken to give a batch or an error.
  pub Reachable-work :
      (s : Scrape)
      → Reachable get nodes total s
      → (s.panicked ≡ false)
        × ((s.closed ≡ true) ⊎ ((t : Scrape) × Step get (length nodes) s t))
        × (0 < length s.waiting → length s.responses < length nodes)
        × ((t : Scrape) → Step get (length nodes) s t → work t < work s)
  Reachable-work s r =
      let t = Reachable-IsTraced get nodes total s r in
      let rounds = t.rounds in
      let room = t.room in
      (
        t.calm,
        elim (Bool-cases s.closed) [
          | inl closed ↦ inl closed
          | inr open_ ↦ inr (open-Step s t open_ s.waiting refl s.responses refl)
        ],
        λ h. omega arith,
        Step-work s,
      )
