-- ===== src/Command/Main/Started.antt =====
-- How the program of cmd/metrics-server starts: with the default options, which are valid.
use metrics_server.Prelude.{ℕ, ◌≡◌, refl, ap, ◌∙◌, List, [], ◌∷◌, false, GoString}
use metrics_server.Prelude.Int.{wrap_int64, ◌*ℤ◌}
use metrics_server.Go.Time.{Time}
use metrics_server.Go.Float.{Floats}
use metrics_server.Kube.{Quantities}
use metrics_server.Options.{
  RestConfigs, new_options, new_kubelet_client_options, validate, validate_kubelet,
  validate_resolution,
}
use metrics_server.Options.Flags.{FlagSets, declare_flags-keys}
use metrics_server.Options.Served.{ApiserverOptions, Kubeconfigs}
use metrics_server.Server.Built.{Libraries}
use metrics_server.Command.{Surroundings, run_command}
use metrics_server.Command.Main.{Cobra, parsed, add_flag_sets, exit_of, execute, main}

new_options-validate : validate false new_options ≡ []
unfolding validate validate_kubelet validate_resolution new_options wrap_int64 ◌*ℤ◌
    new_kubelet_client_options
new_options-validate = refl

module _ {E G A O C F Q : Type 0} (cobra : Cobra E G) (sets : FlagSets G) (fl : Floats F)
    (qs : Quantities Q) (now : ℕ → Time) (api : ApiserverOptions E A O)
    (kubeconfigs : Kubeconfigs E C) (rest : RestConfigs C)
    (libraries : Libraries E A C F Q fl) where
  -- No flag is declared twice, and cobra parses the arguments over the default options.
  pub main-parse :
      (args : List GoString) (w : Surroundings)
      → (flags : G) × (main cobra sets fl qs now api kubeconfigs rest libraries args false w
          ≡ execute cobra sets fl qs now api kubeconfigs rest libraries false w
              (cobra.parse flags args new_options))
  unfolding main new_options new_kubelet_client_options
  main-parse args w =
      let (g1, g2, e, _, _) = declare_flags-keys sets new_options in
      (
        cobra.add_go_flags
            (add_flag_sets cobra sets (g1 ∷ g2 ∷ cobra.library_flag_sets) cobra.flags),
        rw (e, main) refl,
      )

  -- The default options are valid, and if cobra changes none of them where there is no argument, the
  -- program that is started without any runs the command with them.
  pub main_without_arguments :
      (w : Surroundings)
      → ((flags : G) → cobra.parse flags [] new_options ≡ parsed new_options)
      → (validate false new_options ≡ [])
        × (main cobra sets fl qs now api kubeconfigs rest libraries [] false w
            ≡ exit_of cobra sets fl qs now api kubeconfigs rest libraries
                (run_command fl qs now api kubeconfigs rest libraries false w new_options))
  main_without_arguments w h =
      let (flags, e) = main-parse [] w in
      (
        new_options-validate,
        e ∙ ap (execute cobra sets fl qs now api kubeconfigs rest libraries false w) (h flags),
      )
