-- ===== src/Server/Runs.antt =====
-- What a run of the scrape loop of pkg/server/server.go leaves in the storage.
use metrics_server.Prelude.{◌≡◌, refl, List, [], ◌∷◌, arith, ℕ}
use metrics_server.Go.Time.{Time}
use metrics_server.Go.Float.{Floats}
use metrics_server.Go.Result.{err}
use metrics_server.Kube.{Node, PartialObjectMetadata, Quantities}
use metrics_server.Storage.{get_node_metrics, get_pod_metrics}
use metrics_server.Storage.Served.{run, not_ready_empty}
use metrics_server.Storage.Types.{MetricsBatch}
use metrics_server.Server.{
  Server, tick, Event, ticked, done, scrape_loop, run_scrape, no_metrics,
  probe_metric_storage_ready,
}

-- The batches of the ticks that are received before the end of the context.
abbrev pub batches_until_done : List Event → List MetricsBatch
batches_until_done [] = []
batches_until_done (done ∷ events) = []
batches_until_done (ticked start_time batch ∷ events) = batch ∷ batches_until_done events

abbrev pub last_start : Time → List Event → Time
last_start before [] = before
last_start before (done ∷ events) = before
last_start before (ticked start_time batch ∷ events) = last_start start_time events

storage-scrape_loop :
    (s : Server) (events : List Event)
    → (scrape_loop s events).storage ≡ run s.storage (batches_until_done events)
unfolding scrape_loop run tick
storage-scrape_loop s [] = refl
storage-scrape_loop s (done ∷ events) = refl
storage-scrape_loop s (ticked t batch ∷ events) = storage-scrape_loop (tick s t batch) events

tick_last_start-scrape_loop :
    (s : Server) (events : List Event)
    → (scrape_loop s events).tick_last_start ≡ last_start s.tick_last_start events
unfolding scrape_loop tick
tick_last_start-scrape_loop s [] = refl
tick_last_start-scrape_loop s (done ∷ events) = refl
tick_last_start-scrape_loop s (ticked t batch ∷ events) =
    tick_last_start-scrape_loop (tick s t batch) events

resolution-scrape_loop :
    (s : Server) (events : List Event) → (scrape_loop s events).resolution ≡ s.resolution
unfolding scrape_loop tick
resolution-scrape_loop s [] = refl
resolution-scrape_loop s (done ∷ events) = refl
resolution-scrape_loop s (ticked t batch ∷ events) = resolution-scrape_loop (tick s t batch) events

-- A run stores the batches of the ticks that the `select` receives, the first at once and none after
-- the `select` has received the end of the context, and remembers the start of the last of these.
pub run_scrape-run :
    (s : Server) (now : Time) (batch : MetricsBatch) (events : List Event)
    → ((run_scrape s now batch events).storage ≡ run s.storage (batch ∷ batches_until_done events))
      × ((run_scrape s now batch events).tick_last_start ≡ last_start now events)
      × ((run_scrape s now batch events).resolution ≡ s.resolution)
unfolding run_scrape run tick
run_scrape-run s now batch events = (
  storage-scrape_loop (tick s now batch) events,
  tick_last_start-scrape_loop (tick s now batch) events,
  resolution-scrape_loop (tick s now batch) events,
)

-- While the storage probe reports that there are no metrics, the API has nothing to serve.
pub no_metrics-empty :
    {F Q : Type 0} (fl : Floats F) (qs : Quantities Q) (now : ℕ → Time) (s : Server)
    (nodes : List Node) (pods : List PartialObjectMetadata)
    → probe_metric_storage_ready s ≡ err no_metrics
    → (get_node_metrics fl qs s.storage now nodes ≡ [])
      × (get_pod_metrics fl qs s.storage now pods ≡ [])
unfolding probe_metric_storage_ready
no_metrics-empty fl qs now s nodes pods h =
    not_ready_empty fl qs now s.storage nodes pods (ground arith)
