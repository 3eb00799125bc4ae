-- ===== src/Command/Launched.antt =====
-- What cmd/metrics-server/app/start.go launches from the flags.
use mathlib.Core.Path.{subst}
use metrics_server.Prelude.{ℕ, ◌≡◌, refl, Bool, true, false, List, [], ◌∷◌, inl, inr, if◌then◌else◌}
use metrics_server.Go.Time.{Time}
use metrics_server.Go.Float.{Floats}
use metrics_server.Go.Result.{ok, err, bind_ok, ok_inj, Result-cases}
use metrics_server.Kube.{Quantities}
use metrics_server.Options.{Options, OptionError, RestConfigs, validate, config}
use metrics_server.Options.Served.{
  ApiserverOptions, Kubeconfigs, ServerConfig, ConfigError, apiserver_config, rest_config,
  server_config,
}
use metrics_server.Server.{run_until}
use metrics_server.Server.Built.{Libraries, MetricsServer, complete, BuildError}
use metrics_server.Server.Completed.{IsCompleted, complete-IsCompleted}
use metrics_server.Command.{
  Surroundings, Outcome, invalid, unconfigured, incomplete, version_shown, failed, launched,
  built_server, run_server, run_command, after_validation,
}

module _ {E A O C F Q : Type 0} (fl : Floats F) (qs : Quantities Q) (now : ℕ → Time)
    (api : ApiserverOptions E A O) (kubeconfigs : Kubeconfigs E C) (rest : RestConfigs C)
    (libraries : Libraries E A C F Q fl) where
  -- The configuration that flags ask for.
  pub record IsAsked (o : Options) (c : ServerConfig A C) : Type 0 where
    pub apiserver_ok : apiserver_config api o ≡ ok c.apiserver
    pub rest_ok : rest_config kubeconfigs o ≡ ok c.rest
    pub kubelet_made : c.kubelet ≡ config rest o.kubelet_client c.rest
    pub resolution_kept : c.metric_resolution ≡ o.metric_resolution
    pub timeout_kept : c.scrape_timeout ≡ o.kubelet_client.kubelet_request_timeout
    pub selector_kept : c.node_selector ≡ o.kubelet_client.node_selector

  server_config-IsAsked :
      (o : Options) (c : ServerConfig A C)
      → server_config api kubeconfigs rest o ≡ ok c
      → IsAsked o c
  unfolding server_config
  server_config-IsAsked o c h = bind_ok (apiserver_config api o) _ c h λ a e1 h1.
      bind_ok (rest_config kubeconfigs o) _ c h1 λ r e2 h2. subst (IsAsked o) (ok_inj h2) (record {
        apiserver_ok = e1;
        rest_ok = e2;
        kubelet_made = refl;
        resolution_kept = refl;
        timeout_kept = refl;
        selector_kept = refl;
      })

  -- The ends of the command.
  pub data IsOutcome (logging_fails : Bool) (w : Surroundings) (o : Options)
      : Outcome fl qs now api kubeconfigs rest libraries → Type 0 where
    shown : o.show_version ≡ true → IsOutcome logging_fails w o version_shown
    refused :
        (e : OptionError) (errors : List OptionError)
        → o.show_version ≡ false
        → validate logging_fails o ≡ e ∷ errors
        → IsOutcome logging_fails w o (failed (invalid e))
    not_configured :
        (e : ConfigError E)
        → o.show_version ≡ false
        → validate logging_fails o ≡ []
        → server_config api kubeconfigs rest o ≡ err e
        → IsOutcome logging_fails w o (failed (unconfigured e))
    not_completed :
        (c : ServerConfig A C) (e : BuildError E)
        → o.show_version ≡ false
        → validate logging_fails o ≡ []
        → IsAsked o c
        → complete fl qs now libraries c ≡ err e
        → IsOutcome logging_fails w o (failed (incomplete e))
    ran :
        (c : ServerConfig A C) (s : MetricsServer fl qs now libraries)
        → o.show_version ≡ false
        → validate logging_fails o ≡ []
        → IsAsked o c
        → IsCompleted fl qs now libraries c s
        → IsOutcome logging_fails w o (
            launched s
              (run_until w.nodes_synced w.pods_synced s.state w.start w.first_batch w.events))

  run_server-IsOutcome :
      (logging_fails : Bool) (w : Surroundings) (o : Options)
      → o.show_version ≡ false
      → validate logging_fails o ≡ []
      → IsOutcome logging_fails w o (
          run_server fl qs now api kubeconfigs rest libraries w
            (built_server fl qs now api kubeconfigs rest libraries o))
  unfolding built_server run_server
  run_server-IsOutcome logging_fails w o no_version valid =
      elim (Result-cases (server_config api kubeconfigs rest o)) [
        | inl (e, e1) ↦ rw (e1) (not_configured e no_version valid e1)
        | inr (c, e1) ↦
            let asked = server_config-IsAsked o c e1 in
            elim (Result-cases (complete fl qs now libraries c)) [
              | inl (e, e2) ↦ rw (e1, e2) (not_completed c e no_version valid asked e2)
              | inr (s, e2) ↦
                  rw (e1, e2)
                    (ran c s no_version valid asked
                      (complete-IsCompleted fl qs now libraries c s e2))
            ]
      ]

  flagged-IsOutcome :
      (logging_fails : Bool) (w : Surroundings) (o : Options) (show_version : Bool)
      (errors : List OptionError)
      → o.show_version ≡ show_version
      → validate logging_fails o ≡ errors
      → IsOutcome logging_fails w o (
          if show_version
          then version_shown
          else after_validation fl qs now api kubeconfigs rest libraries w o errors)
  unfolding after_validation
  flagged-IsOutcome logging_fails w o true errors h e = shown h
  flagged-IsOutcome logging_fails w o false [] h e = run_server-IsOutcome logging_fails w o h e
  flagged-IsOutcome logging_fails w o false (x ∷ errors) h e = refused x errors h e

  -- The command shows the version exactly if it is asked to. Otherwise it returns the first error of
  -- the flags if there is one, then that of the configuration, then that of the server, and if there
  -- is none it runs a server that is completed from the configuration that the flags ask for.
  pub run_command-IsOutcome :
      (logging_fails : Bool) (w : Surroundings) (o : Options)
      → IsOutcome logging_fails w o
          (run_command fl qs now api kubeconfigs rest libraries logging_fails w o)
  unfolding run_command
  run_command-IsOutcome logging_fails w o =
      flagged-IsOutcome logging_fails w o o.show_version (validate logging_fails o) refl refl
