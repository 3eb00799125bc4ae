-- ===== src/Command.antt =====
-- cmd/metrics-server/app/start.go: runCommand, from the parsed flags to the run of the server.
pub mod Launched
pub mod Main
pub mod Sound
use metrics_server.Prelude.{ℕ, Bool, Option, List, [], ◌∷◌, if◌then◌else◌}
use metrics_server.Go.Time.{Time}
use metrics_server.Go.Float.{Floats}
use metrics_server.Go.Result.{Result, ok, err, ◌>>=◌, map_err}
use metrics_server.Kube.{Quantities}
use metrics_server.Storage.Types.{MetricsBatch}
use metrics_server.Options.{Options, OptionError, RestConfigs, validate}
use metrics_server.Options.Served.{ApiserverOptions, Kubeconfigs, ConfigError, server_config}
use metrics_server.Server.{Server, Event, run_until}
use metrics_server.Server.Built.{Libraries, BuildError, MetricsServer, complete}

pub data CommandError (E : Type 0) : Type 0 where
  invalid : OptionError → CommandError E
  unconfigured : ConfigError E → CommandError E
  incomplete : BuildError E → CommandError E

-- What a run of the server meets: whether the caches are synchronised, the first tick, and what the
-- scrape loop receives after it.
pub record Surroundings : Type 0 where
  pub nodes_synced : Bool
  pub pods_synced : Bool
  pub start : Time
  pub first_batch : MetricsBatch
  pub events : List Event

module _ {E A O C F Q : Type 0} (fl : Floats F) (qs : Quantities Q) (now : ℕ → Time)
    (api : ApiserverOptions E A O) (kubeconfigs : Kubeconfigs E C) (rest : RestConfigs C)
    (libraries : Libraries E A C F Q fl) where
  -- The process ends after it prints its version, or the command returns: an error, or what is left of the
  -- server's state once it has run.
  pub data Outcome : Type 0 where
    version_shown : Outcome
    failed : CommandError E → Outcome
    launched : MetricsServer fl qs now libraries → Option Server → Outcome

  -- `config.Complete()` of `o.ServerConfig()`
  unfoldable pub built_server :
      Options → Result (CommandError E) (MetricsServer fl qs now libraries)
  built_server o = do
    config ← map_err unconfigured (server_config api kubeconfigs rest o)
    map_err incomplete (complete fl qs now libraries config)

  run_server : Surroundings → Result (CommandError E) (MetricsServer fl qs now libraries) → Outcome
  run_server w (err e) = failed e
  run_server w (ok s) =
      launched s (run_until w.nodes_synced w.pods_synced s.state w.start w.first_batch w.events)

  after_validation : Surroundings → Options → List OptionError → Outcome
  unfolding built_server run_server
  after_validation w o (e ∷ errors) = failed (invalid e)
  after_validation w o [] = run_server w (built_server o)

  -- The flag says whether logsapi.ValidateAndApply fails.
  unfoldable pub run_command : Bool → Surroundings → Options → Outcome
  unfolding after_validation
  run_command logging_fails w o =
      let run = after_validation w o (validate logging_fails o) in
      if o.show_version then version_shown else run
