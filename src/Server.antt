-- ===== src/Server.antt =====
-- pkg/server/server.go and health.go: the scrape loop and the health probes.
pub mod Runs
pub mod Probes
pub mod Ticking
pub mod Built
pub mod Completed
pub mod Ready
use metrics_server.Prelude.{
  ℕ, List, [], ◌∷◌, ◌++◌, Bool, true, false, not, ◌&&◌, if◌then◌else◌, ltb, GoString, length,
  Option, none, some,
}
use metrics_server.Prelude.Int.{ltb_ℤ, pos}
use metrics_server.Prelude.Dict.{Dict}
use metrics_server.Go.Time.{Time, Duration, sub, second, is_zero}
use metrics_server.Go.Float.{Floats}
use metrics_server.Go.Result.{Result, ok, err}
use metrics_server.Storage.{Storage, ready, store}
use metrics_server.Storage.Types.{MetricsBatch}

-- `tick_last_start` is the zero time before the first tick.
pub record Server : Type 0 where
  pub storage : Storage
  pub resolution : Duration
  pub tick_last_start : Time

abbrev pub new_server : Storage → Duration → Server
new_server storage resolution = record {
  storage = storage;
  resolution = resolution;
  tick_last_start = 0;
}

-- A tick first notes its start; its scrape may take a while, in which probes are served.
pub begin_tick : Server → Time → Server
begin_tick s start_time = record s { tick_last_start = start_time }

pub finish_tick : Server → MetricsBatch → Server
finish_tick s batch = record s { storage = store s.storage batch }

-- `batch` is what `s.scraper.Scrape(ctx)` returns.
unfoldable pub tick : Server → Time → MetricsBatch → Server
unfolding begin_tick finish_tick
tick s start_time batch = finish_tick (begin_tick s start_time) batch

-- What the `select` of the loop receives: a tick, here with what its scrape will return, or the
-- end of the context.
pub data Event : Type 0 where
  ticked : Time → MetricsBatch → Event
  done : Event

scrape_loop : Server → List Event → Server
scrape_loop s [] = s
scrape_loop s (done ∷ events) = s
scrape_loop s (ticked start_time batch ∷ events) = scrape_loop (tick s start_time batch) events

-- The first tick is made at once.
unfoldable pub run_scrape : Server → Time → MetricsBatch → List Event → Server
unfolding scrape_loop
run_scrape s now batch events = scrape_loop (tick s now batch) events

pub data ProbeError : Type 0 where
  not_on_time no_metrics nodes_not_synced pods_not_synced : ProbeError
  not_started : List GoString → ProbeError

abbrev pub Probe : Type 0
Probe = Result ProbeError (Unit {0})

module _ {F : Type 0} (fl : Floats F) where
  open fl use {mul, div, constant, of_int64, to_int64}

  -- `time.Duration(1.5 * float64(s.resolution))`
  unfoldable pub max_tick_wait : Server → Duration
  max_tick_wait s = to_int64 (mul (constant 15 1) (of_int64 s.resolution))

  -- What a tick observes in the histogram tick_duration_seconds: how long it has taken.
  unfoldable pub tick_observed : Server → Time → MetricsBatch → Time → List F → Server × List F
  unfolding tick
  tick_observed s start_time batch end_time seen = (
    tick s start_time batch,
    seen ++ div (of_int64 (sub end_time start_time)) (of_int64 (pos second)) ∷ [],
  )

  unfoldable pub probe_metric_collection_timely : Server → Time → Probe
  probe_metric_collection_timely s now =
      let tick_wait = sub now s.tick_last_start in
      if not (is_zero s.tick_last_start) && ltb_ℤ (max_tick_wait s) tick_wait
      then err not_on_time
      else ok tt

unfoldable pub probe_metric_storage_ready : Server → Probe
probe_metric_storage_ready s = if not (ready s.storage) then err no_metrics else ok tt

-- The arguments are what HasSynced of the two informers returns.
unfoldable pub probe_metric_cache_has_synced : Bool → Bool → Probe
probe_metric_cache_has_synced nodes_synced pods_synced =
    if not nodes_synced
    then err nodes_not_synced
    else if not pods_synced
    then err pods_not_synced
    else ok tt

-- `informersByStarted[started]` after the loop over what WaitForCacheSync returns
informers_by_started : Bool → Dict GoString Bool → List GoString
informers_by_started b [] = []
informers_by_started true ((name, started) ∷ informers) =
    let rest = informers_by_started true informers in if started then name ∷ rest else rest
informers_by_started false ((name, started) ∷ informers) =
    let rest = informers_by_started false informers in if started then rest else name ∷ rest

-- `metadataInformerSync.Check`
unfoldable pub check_informers : Dict GoString Bool → Probe
unfolding informers_by_started
check_informers informers =
    let names = informers_by_started false informers in
    if ltb 0 (length names) then err (not_started names) else ok tt

-- RunUntil: `none` where it returns before it serves, since a cache was not synchronised.
unfoldable pub run_until : Bool → Bool → Server → Time → MetricsBatch → List Event → Option Server
unfolding run_scrape
run_until nodes_synced pods_synced s now batch events =
    if not nodes_synced
    then none
    else if not pods_synced
    then none
    else some (run_scrape s now batch events)
