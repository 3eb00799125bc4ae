-- ===== src/Server/Ticking/Timely.antt =====
-- What the liveness probe of pkg/server/server.go says while the scrape loop runs.
use mathlib.Core.Path.{subst}
use metrics_server.Prelude.{
  ℕ, ◌+◌, ◌≤◌, ◌<◌, ◌≡◌, ◌↔◌, refl, sym, ap, ◌∙◌, Option, none, some, List, [], ◌∷◌, ◌++◌, arith,
  length, length-append,
}
use metrics_server.Prelude.Int.{pos}
use metrics_server.Go.Time.{Time, max_duration}
use metrics_server.Go.Float.{Floats}
use metrics_server.Go.Result.{ok}
use metrics_server.Storage.Served.{run}
use metrics_server.Storage.Locked.Atomic.{run_last}
use metrics_server.Storage.{store}
use metrics_server.Server.Probes.{timely_iff}
use metrics_server.Server.{Server, max_tick_wait, probe_metric_collection_timely}
use metrics_server.Server.Ticking.{
  Loop, begun_tick, finished_tick, Step, begins, finishes, cancels, ends, Reachable, start, next,
}

-- The start of the last tick that has begun.
abbrev pub last_begun : Time → List Time → Time
last_begun before [] = before
last_begun before (t ∷ ts) = last_begun t ts

last_begun-append : (before t : Time) (ts : List Time) → last_begun before (ts ++ t ∷ []) ≡ t
last_begun-append before t [] = refl
last_begun-append before t (x ∷ ts) = last_begun-append x t ts

abbrev in_progress : Option Time → ℕ
in_progress none = 0
in_progress (some t) = 1

-- What holds between any two steps of the loop.
pub record IsTicking (first : Server) (s : Loop) : Type 0 where
  pub filled : s.server.storage ≡ run first.storage s.stored
  pub last_start : s.server.tick_last_start ≡ last_begun first.tick_last_start s.begun
  pub resolution_kept : s.server.resolution ≡ first.resolution
  pub counted : length s.begun ≡ length s.stored + in_progress s.scraping

module _ (first : Server) where
  Step-IsTicking : (s t : Loop) → Step s t → IsTicking first s → IsTicking first t
  unfolding begun_tick finished_tick
  Step-IsTicking _ _ (begins s t idle going) inv = record {
    filled = inv.filled;
    last_start = sym (last_begun-append first.tick_last_start t s.begun);
    resolution_kept = inv.resolution_kept;
    counted =
        let c = inv.counted in
        let a = ap in_progress idle in let l = length-append s.begun (t ∷ []) in omega arith;
  }
  Step-IsTicking _ _ (finishes s t batch busy) inv = record {
    filled = ap (λ x. store x batch) inv.filled ∙ sym (run_last first.storage s.stored batch);
    last_start = inv.last_start;
    resolution_kept = inv.resolution_kept;
    counted =
        let c = inv.counted in
        let a = ap in_progress busy in let l = length-append s.stored (batch ∷ []) in omega arith;
  }
  Step-IsTicking _ _ (cancels s) inv = record {
    filled = inv.filled;
    last_start = inv.last_start;
    resolution_kept = inv.resolution_kept;
    counted = inv.counted;
  }
  Step-IsTicking _ _ (ends s idle over some_tick) inv = record {
    filled = inv.filled;
    last_start = inv.last_start;
    resolution_kept = inv.resolution_kept;
    counted = inv.counted;
  }

  Reachable-IsTicking : (s : Loop) → Reachable first s → IsTicking first s
  unfolding run
  Reachable-IsTicking _ start = record {
    filled = refl;
    last_start = refl;
    resolution_kept = refl;
    counted = omega arith;
  }
  Reachable-IsTicking _ (next s t r step) = Step-IsTicking s t step (Reachable-IsTicking s r)

max_tick_wait-resolution :
    {F : Type 0} (fl : Floats F) (first s : Server)
    → s.resolution ≡ first.resolution
    → max_tick_wait fl s ≡ max_tick_wait fl first
unfolding max_tick_wait
max_tick_wait-resolution fl first s e = rw e refl

-- At any point of a run, also while a tick scrapes: the storage holds the batches of the finished
-- ticks, at most one tick is unfinished, and the liveness probe passes exactly until the longest
-- wait after the start of the last tick that has begun is over, if that is not the zero time,
-- whether or not the tick has finished. The longest wait is not negative and below the greatest
-- duration.
pub Reachable-timely :
    {F : Type 0} (fl : Floats F) (first : Server) (s : Loop) (now : Time) (wait : ℕ)
    → Reachable first s
    → max_tick_wait fl first ≡ pos wait
    → wait < max_duration
    → 0 < last_begun first.tick_last_start s.begun
    → IsTicking first s
      × ((probe_metric_collection_timely fl s.server now ≡ ok tt)
          ↔ (now ≤ last_begun first.tick_last_start s.begun + wait))
Reachable-timely fl first s now wait r w small h =
    let inv = Reachable-IsTicking first s r in
    let kept = max_tick_wait-resolution fl first s.server inv.resolution_kept ∙ w in
    (
      inv,
      subst (λ t. (probe_metric_collection_timely fl s.server now ≡ ok tt) ↔ (now ≤ t + wait))
          inv.last_start
          (timely_iff fl s.server now wait (rw (sym inv.last_start) at h) kept small),
    )
