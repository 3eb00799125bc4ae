-- ===== src/Server/Probes.antt =====
-- When the probes of pkg/server/server.go and health.go fail.
use metrics_server.Prelude.{
  ℕ, ◌+◌, ◌≤◌, ◌<◌, ◌≡◌, ◌↔◌, ◌∙◌, refl, ap, List, [], ◌∷◌, Bool, true, false, arith, GoString,
  keep, not, if◌then◌else◌, ltb, length,
}
use metrics_server.Prelude.Int.{pos}
use metrics_server.Prelude.Dict.{Dict, keys}
use metrics_server.Go.Time.{Time, max_duration, sub}
use metrics_server.Go.Float.{Floats}
use metrics_server.Go.Result.{ok, err}
use metrics_server.Storage.Types.{MetricsBatch}
use metrics_server.Server.{
  Server, tick, Probe, not_started, max_tick_wait, probe_metric_collection_timely,
  informers_by_started, check_informers,
}

max_tick_wait-tick :
    {F : Type 0} (fl : Floats F) (s : Server) (start_time : Time) (batch : MetricsBatch)
    → max_tick_wait fl (tick s start_time batch) ≡ max_tick_wait fl s
unfolding max_tick_wait tick
max_tick_wait-tick fl s start_time batch = refl

-- A start that is not the zero time is timely until the longest wait after it is over.
pub timely_iff :
    {F : Type 0} (fl : Floats F) (s : Server) (now : Time) (wait : ℕ)
    → 0 < s.tick_last_start
    → max_tick_wait fl s ≡ pos wait
    → wait < max_duration
    → (probe_metric_collection_timely fl s now ≡ ok tt) ↔ (now ≤ s.tick_last_start + wait)
unfolding probe_metric_collection_timely sub
timely_iff fl s now wait h w small = ground arith

-- After a tick that started at another time than the zero time, and before the next, the liveness
-- probe passes exactly until the longest wait after this start is over; the longest wait is
-- not negative and below the greatest duration.
pub timely-tick :
    {F : Type 0} (fl : Floats F) (s : Server) (start_time now : Time) (batch : MetricsBatch)
    (wait : ℕ)
    → 0 < start_time
    → max_tick_wait fl s ≡ pos wait
    → wait < max_duration
    → (probe_metric_collection_timely fl (tick s start_time batch) now ≡ ok tt)
      ↔ (now ≤ start_time + wait)
unfolding tick
timely-tick fl s start_time now batch wait h w small =
    timely_iff fl (tick s start_time batch) now wait h
      (max_tick_wait-tick fl s start_time batch ∙ w) small

informers_by_started-false :
    (informers : Dict GoString Bool)
    → informers_by_started false informers ≡ keys (keep (λ (_, started). not started) informers)
unfolding informers_by_started
informers_by_started-false [] = refl
informers_by_started-false ((name, true) ∷ informers) = informers_by_started-false informers
informers_by_started-false ((name, false) ∷ informers) =
    ap (λ names. name ∷ names) (informers_by_started-false informers)

-- What the check says of the informers that have not started.
unfoldable pub verdict : List GoString → Probe
verdict [] = ok tt
verdict (name ∷ names) = err (not_started (name ∷ names))

verdict_lem :
    (names : List GoString)
    → (if ltb 0 (length names) then err (not_started names) else ok tt) ≡ verdict names
unfolding verdict
verdict_lem [] = refl
verdict_lem (name ∷ names) = ground arith

-- The check of the metadata informer passes if all informers have started, and otherwise names
-- those that have not, in the order of the map.
pub check_informers_lem :
    (informers : Dict GoString Bool)
    → check_informers informers ≡ verdict (keys (keep (λ (_, started). not started) informers))
unfolding check_informers
check_informers_lem informers =
    verdict_lem (informers_by_started false informers)
    ∙ ap verdict (informers_by_started-false informers)
