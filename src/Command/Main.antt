-- ===== src/Command/Main.antt =====
-- NewMetricsServerCommand of cmd/metrics-server/app/start.go, and main of
-- cmd/metrics-server/metrics-server.go. Cobra, which parses the arguments, is a parameter.
pub mod Started
use metrics_server.Prelude.{ℕ, Bool, Option, none, some, List, [], ◌∷◌, ◌++◌, GoString, ◌>>=?◌}
use metrics_server.Go.Time.{Time}
use metrics_server.Go.Float.{Floats}
use metrics_server.Kube.{Quantities}
use metrics_server.Options.{Options, RestConfigs, new_options}
use metrics_server.Options.Flags.{FlagSets, declare_flags}
use metrics_server.Options.Served.{ApiserverOptions, Kubeconfigs}
use metrics_server.Server.Built.{Libraries}
use metrics_server.Command.{
  CommandError, Surroundings, Outcome, version_shown, failed, launched, run_command,
}

-- What cobra makes of the arguments: the options with the values given, a request for help, or an
-- error of its own.
pub data Parsed (E : Type 0) : Type 0 where
  parsed : Options → Parsed E
  help : Parsed E
  unparsed : E → Parsed E

-- cobra.Command and the flag sets of the libraries, with the Go flags of the logging library.
pub record Cobra (E G : Type 0) : Type 0 where
  pub flags : G
  pub add_flag_set : G → G → G
  pub library_flag_sets : List G
  pub add_go_flags : G → G
  pub parse : G → List GoString → Options → Parsed E

pub record Command (G : Type 0) : Type 0 where
  pub opts : Options
  pub flags : G

module _ {E G : Type 0} (cobra : Cobra E G) (sets : FlagSets G) where
  -- The loop over `nfs.FlagSets`
  pub add_flag_sets : List G → G → G
  add_flag_sets [] fs = fs
  add_flag_sets (f ∷ flag_sets) fs = add_flag_sets flag_sets (cobra.add_flag_set fs f)

  -- `none` is the panic of pflag.
  unfoldable pub new_metrics_server_command : Option (Command G)
  unfolding add_flag_sets
  new_metrics_server_command = declare_flags sets new_options >>=? λ (msfs, kcfs, opts).
      some (record {
        opts = opts;
        flags =
            cobra.add_go_flags (add_flag_sets (msfs ∷ kcfs ∷ cobra.library_flag_sets) cobra.flags);
      })

module _ {E G A O C F Q : Type 0} (cobra : Cobra E G) (sets : FlagSets G) (fl : Floats F)
    (qs : Quantities Q) (now : ℕ → Time) (api : ApiserverOptions E A O)
    (kubeconfigs : Kubeconfigs E C) (rest : RestConfigs C)
    (libraries : Libraries E A C F Q fl) where
  -- How the process ends: `main` panics on the error of the command.
  pub data Exit : Type 0 where
    flag_redefined : Exit
    help_shown : Exit
    unparsed_panic : E → Exit
    command_panic : CommandError E → Exit
    finished : Outcome fl qs now api kubeconfigs rest libraries → Exit

  abbrev pub exit_of : Outcome fl qs now api kubeconfigs rest libraries → Exit
  exit_of (failed e) = command_panic e
  exit_of version_shown = finished version_shown
  exit_of (launched s left) = finished (launched s left)

  -- `RunE` of the command, where the arguments could be parsed
  abbrev pub execute : Bool → Surroundings → Parsed E → Exit
  execute logging_fails w (parsed o) =
      exit_of (run_command fl qs now api kubeconfigs rest libraries logging_fails w o)
  execute logging_fails w help = help_shown
  execute logging_fails w (unparsed e) = unparsed_panic e

  unfoldable pub main : List GoString → Bool → Surroundings → Exit
  unfolding new_metrics_server_command
  main args logging_fails w = elim (new_metrics_server_command cobra sets) [
    | none ↦ flag_redefined
    | some cmd ↦ execute logging_fails w (cobra.parse cmd.flags args cmd.opts)
  ]
