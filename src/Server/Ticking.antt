-- ===== src/Server/Ticking.antt =====
-- The scrape loop of pkg/server/server.go while it runs, with the parts of a tick as steps: a probe
-- may be served between any two of them, also while a tick scrapes.
pub mod Timely
pub mod Ended
use metrics_server.Prelude.{
  ◌≡◌, ◌<◌, length, Bool, true, false, Option, none, some, List, [], ◌∷◌, ◌++◌,
}
use metrics_server.Go.Time.{Time}
use metrics_server.Storage.Types.{MetricsBatch}
use metrics_server.Server.{Server, begin_tick, finish_tick}

-- `scraping` is the start of the tick that has begun and not stored its batch; `begun` and `stored`
-- list the starts and the batches so far. The context is `cancelled`, and later the loop `ended`.
pub record Loop : Type 0 where
  pub server : Server
  pub scraping : Option Time
  pub cancelled : Bool
  pub ended : Bool
  pub begun : List Time
  pub stored : List MetricsBatch

abbrev pub start_loop : Server → Loop
start_loop server = record {
  server = server;
  scraping = none;
  cancelled = false;
  ended = false;
  begun = [];
  stored = [];
}

unfoldable pub begun_tick : Loop → Time → Loop
unfolding begin_tick
begun_tick s start_time = record s {
  server = begin_tick s.server start_time;
  scraping = some start_time;
  begun = s.begun ++ start_time ∷ [];
}

unfoldable pub finished_tick : Loop → MetricsBatch → Loop
unfolding finish_tick
finished_tick s batch = record s {
  server = finish_tick s.server batch;
  scraping = none;
  stored = s.stored ++ batch ∷ [];
}

-- The `select` is reached only between two ticks, and not before the first one. A tick that is under
-- way when the context is cancelled goes on, and the `select` may take another tick after that.
pub data Step : Loop → Loop → Type 0 where
  begins :
      (s : Loop) (start_time : Time)
      → s.scraping ≡ none
      → s.ended ≡ false
      → Step s (begun_tick s start_time)
  finishes :
      (s : Loop) (start_time : Time) (batch : MetricsBatch)
      → s.scraping ≡ some start_time
      → Step s (finished_tick s batch)
  cancels : (s : Loop) → Step s (record s { cancelled = true })
  ends :
      (s : Loop)
      → s.scraping ≡ none
      → s.cancelled ≡ true
      → 0 < length s.begun
      → Step s (record s { ended = true })

pub data Reachable (server : Server) : Loop → Type 0 where
  start : Reachable server (start_loop server)
  next : (s t : Loop) → Reachable server s → Step s t → Reachable server t
