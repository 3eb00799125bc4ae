-- ===== src/Tests/Ticking.antt =====
-- A run of the scrape loop, seen while its second tick scrapes, and after its end.
use metrics_server.Prelude.{◌+◌, ◌*◌, ◌≡◌, ◌≤◌, ◌↔◌, refl, arith, [], ◌∷◌, true}
use metrics_server.Go.Time.{second}
use metrics_server.Go.Float.{fractions}
use metrics_server.Go.Result.{ok}
use metrics_server.Server.{ticked, probe_metric_collection_timely}
use metrics_server.Server.Ticking.{
  Loop, start_loop, begun_tick, finished_tick, begins, finishes, cancels, ends, Reachable, start,
  next,
}
use metrics_server.Server.Ticking.Timely.{IsTicking, Reachable-timely}
use metrics_server.Server.Ticking.Ended.{IsEnded, Reachable-run_scrape}
use metrics_server.Tests.Data.{first_batch, second_batch}
use metrics_server.Tests.Scraped.{server, server-wait}

abbrev first_done : Loop
first_done = finished_tick (begun_tick (start_loop server) (100 * second)) first_batch

abbrev second_scrapes : Loop
second_scrapes = begun_tick first_done (160 * second)

second_scrapes-Reachable : Reachable server second_scrapes
unfolding begun_tick finished_tick
second_scrapes-Reachable =
    next first_done second_scrapes
      (next (begun_tick (start_loop server) (100 * second)) first_done
        (next (start_loop server) _ start (begins (start_loop server) (100 * second) refl refl))
        (finishes _ (100 * second) first_batch refl))
      (begins first_done (160 * second) refl refl)

Reachable-timely_example :
    IsTicking server second_scrapes
    × ((probe_metric_collection_timely fractions second_scrapes.server (200 * second) ≡ ok tt)
        ↔ (200 * second ≤ 160 * second + 90 * second))
unfolding begun_tick finished_tick
Reachable-timely_example =
    Reachable-timely fractions server second_scrapes (200 * second) (90 * second)
      second_scrapes-Reachable server-wait (omega arith) (omega arith)

-- The context is cancelled while the second tick scrapes.
abbrev second_done : Loop
second_done = finished_tick (record second_scrapes { cancelled = true }) second_batch

abbrev over : Loop
over = record second_done { ended = true }

over-Reachable : Reachable server over
unfolding begun_tick finished_tick
over-Reachable =
    next second_done over
      (next (record second_scrapes { cancelled = true }) second_done
        (next second_scrapes (record second_scrapes { cancelled = true }) second_scrapes-Reachable
          (cancels second_scrapes))
        (finishes _ (160 * second) second_batch refl))
      (ends second_done refl refl (omega arith))

Reachable-run_scrape_example : IsEnded server (ticked (220 * second) first_batch ∷ []) over
Reachable-run_scrape_example =
    Reachable-run_scrape server over (ticked (220 * second) first_batch ∷ []) over-Reachable refl
