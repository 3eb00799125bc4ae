-- ===== src/Command/Sound.antt =====
-- What holds of every server that cmd/metrics-server/app/start.go runs.
use mathlib.Core.Path.{subst}
use metrics_server.Prelude.{
  arith, ℕ, ◌≡◌, sym, ap, ◌∙◌, Bool, true, false, Option, none, some, List, [], ◌∷◌, All,
}
use mathlib.Core.Option.{some-injective}
use metrics_server.Go.Time.{Time}
use metrics_server.Go.Float.{Floats}
use metrics_server.Go.Result.{ok, map_err}
use metrics_server.Kube.{Quantities, Node as KubeNode, PartialObjectMetadata}
use metrics_server.Storage.{Storage, new_storage, get_node_metrics, get_pod_metrics}
use metrics_server.Storage.Node.Reports as NodeReports
use metrics_server.Storage.Pod.Reports as PodReports
use metrics_server.Storage.Served.{run, served-Reports}
use metrics_server.Options.{Options, RestConfigs, validate, KubeletClientConfig}
use metrics_server.Options.Accepted.{validate-parts, validate_kubelet_iff, IsConsistent}
use metrics_server.Options.Configured.{IsSecuredAsAsked, config-IsSecuredAsAsked}
use metrics_server.Options.Served.{ApiserverOptions, Kubeconfigs, ServerConfig}
use metrics_server.Client.Built.{new_for_config}
use metrics_server.Api.{listing_failed}
use metrics_server.Api.Node.{NodeMetricsGetter, nodes}
use metrics_server.Api.Stored.{stored_nodes, stored_pods}
use metrics_server.Api.Install.{new_node_metrics, install}
use metrics_server.Server.{Server, run_until, Event}
use metrics_server.Server.Runs.{run_scrape-run, batches_until_done}
use metrics_server.Server.Built.{Libraries, MetricsServer, label_requirement}
use metrics_server.Server.Completed.{IsCompleted, same_nodes}
use metrics_server.Storage.Types.{MetricsBatch}
use metrics_server.Command.{Surroundings, Outcome, launched, run_command}
use metrics_server.Command.Launched.{
  IsAsked, IsOutcome, shown, refused, not_configured, not_completed, ran, run_command-IsOutcome,
}

-- A server that serves has stored the batches of its ticks.
run_until-run :
    (nodes_synced pods_synced : Bool) (s : Server) (t : Time) (batch : MetricsBatch)
    (events : List Event) (final : Server)
    → run_until nodes_synced pods_synced s t batch events ≡ some final
    → final.storage ≡ run s.storage (batch ∷ batches_until_done events)
unfolding run_until
run_until-run true true s t batch events final h =
    rw (sym (some-injective _ _ h)) (run_scrape-run s t batch events).0
run_until-run true false s t batch events final h = absurd (cc)
run_until-run false pods_synced s t batch events final h = absurd (cc)

run_until_synced :
    (nodes_synced pods_synced : Bool) (s : Server) (t : Time) (batch : MetricsBatch)
    (events : List Event) (final : Server)
    → run_until nodes_synced pods_synced s t batch events ≡ some final
    → (nodes_synced ≡ true) × (pods_synced ≡ true)
unfolding run_until
run_until_synced nodes_synced pods_synced s t batch events final h = ground arith

module _ {E A O C F Q : Type 0} (fl : Floats F) (qs : Quantities Q) (now : ℕ → Time)
    (api : ApiserverOptions E A O) (kubeconfigs : Kubeconfigs E C) (rest : RestConfigs C)
    (libraries : Libraries E A C F Q fl) where
  open libraries use {
    node_selectors, pod_selectors, transport_for, node_lister, pod_lister, install_api_group,
    Requirement, GenericServer,
  }

  abbrev pub Served : Storage → List KubeNode → List PartialObjectMetadata → Type 0
  Served storage nodes pods =
      All (NodeReports.Reports fl qs storage.nodes) (get_node_metrics fl qs storage now nodes)
      × All (PodReports.Reports fl qs storage.pods) (get_pod_metrics fl qs storage now pods)

  pub record IsSound (w : Surroundings) (o : Options) (s : MetricsServer fl qs now libraries)
      (final : Server) : Type 0 where
    pub consistent : IsConsistent o.kubelet_client
    -- the scraper's client and its time limit are those of the flags
    pub kubelet : KubeletClientConfig C
    pub secured : IsSecuredAsAsked rest o.kubelet_client kubelet
    pub client_built : new_for_config transport_for kubelet ≡ ok s.scraper.kubelet_client
    pub timeout_kept : s.scraper.scrape_timeout ≡ o.kubelet_client.kubelet_request_timeout
    -- the API group that is installed lists the nodes that are scraped, unless asked otherwise
    pub requirement : Option (List Requirement)
    pub required :
        label_requirement fl qs now libraries o.kubelet_client.node_selector ≡ ok requirement
    pub before_installed : GenericServer
    pub installed : GenericServer
    pub install_ok :
        install install_api_group node_selectors pod_selectors
          (stored_nodes fl qs now)
          (stored_pods fl qs now)
          (pod_lister s.pods)
          (node_lister s.nodes)
          before_installed
          requirement
        ≡ ok installed
    pub same_nodes :
        (metrics : NodeMetricsGetter E Q)
        → nodes (new_node_metrics node_selectors metrics (node_lister s.nodes) requirement) none
          ≡ map_err listing_failed (s.scraper.node_lister.list s.scraper.label_selector)
    -- it serves after both caches are synchronised, from the batches that its ticks have stored,
    -- and each usage is one between two stored points
    pub synced : (w.nodes_synced ≡ true) × (w.pods_synced ≡ true)
    pub stored :
        final.storage
        ≡ run (new_storage o.metric_resolution) (w.first_batch ∷ batches_until_done w.events)
    pub served :
        (nodes : List KubeNode) (pods : List PartialObjectMetadata)
        → Served final.storage nodes pods

  completed-IsSound :
      (logging_fails : Bool) (w : Surroundings) (o : Options) (c : ServerConfig A C)
      (s : MetricsServer fl qs now libraries) (final : Server)
      → validate logging_fails o ≡ []
      → IsAsked fl qs now api kubeconfigs rest libraries o c
      → IsCompleted fl qs now libraries c s
      → run_until w.nodes_synced w.pods_synced s.state w.start w.first_batch w.events ≡ some final
      → IsSound w o s final
  completed-IsSound logging_fails w o c s final valid asked m ended =
      let batches = w.first_batch ∷ batches_until_done w.events in
      let stored : final.storage ≡ run (new_storage o.metric_resolution) batches =
        run_until-run w.nodes_synced w.pods_synced s.state w.start w.first_batch w.events final
          ended
        ∙ ap (λ (state : Server). run state.storage batches) m.state_new
        ∙ ap (λ resolution. run (new_storage resolution) batches) asked.resolution_kept in
      let accepted = ((validate-parts logging_fails o).0 valid).0 in
      record {
        consistent = (validate_kubelet_iff o.kubelet_client).0 accepted;
        kubelet = c.kubelet;
        secured =
            rw (asked.kubelet_made) (config-IsSecuredAsAsked rest o.kubelet_client c.rest accepted);
        client_built = m.client_built;
        timeout_kept = m.scrape_timeout_kept ∙ asked.timeout_kept;
        requirement = m.requirement;
        required = rw (sym asked.selector_kept) m.required;
        before_installed = m.before_installed;
        installed = m.installed;
        install_ok = m.install_ok;
        same_nodes = same_nodes fl qs now libraries c s m;
        synced =
            run_until_synced w.nodes_synced w.pods_synced s.state w.start w.first_batch w.events
              final ended;
        stored = stored;
        served = λ nodes pods.
            subst (λ storage. Served storage nodes pods) (sym stored)
              (served-Reports fl qs now o.metric_resolution batches nodes pods);
      }

  outcome-IsSound :
      (logging_fails : Bool) (w : Surroundings) (o : Options)
      (outcome : Outcome fl qs now api kubeconfigs rest libraries)
      (s : MetricsServer fl qs now libraries) (final : Server)
      → IsOutcome fl qs now api kubeconfigs rest libraries logging_fails w o outcome
      → outcome ≡ launched s (some final)
      → IsSound w o s final
  outcome-IsSound logging_fails w o _ s final (shown h) e = absurd (cc)
  outcome-IsSound logging_fails w o _ s final (refused x errors h v) e = absurd (cc)
  outcome-IsSound logging_fails w o _ s final (not_configured x n v h) e = absurd (cc)
  outcome-IsSound logging_fails w o _ s final (not_completed c x n v asked h) e = absurd (cc)
  outcome-IsSound logging_fails w o _ s final (ran c s' h v asked m) e =
      let same : s' ≡ s = cc in
      let ended : run_until w.nodes_synced w.pods_synced s'.state w.start w.first_batch w.events
          ≡ some final =
        cc in
      subst (λ t. IsSound w o t final) same
        (completed-IsSound logging_fails w o c s' final v asked m ended)

  -- A server that has served was launched with flags that are consistent; its scraper asks kubelets
  -- with the security and the time limit of the flags; the API group that it installs lists, with
  -- no options, the nodes that are scraped; both caches were synchronised; and its storage, which the
  -- batches of its ticks have filled, serves usages between two stored points.
  pub run_command-IsSound :
      (logging_fails : Bool) (w : Surroundings) (o : Options)
      (s : MetricsServer fl qs now libraries) (final : Server)
      → run_command fl qs now api kubeconfigs rest libraries logging_fails w o
        ≡ launched s (some final)
      → IsSound w o s final
  run_command-IsSound logging_fails w o s final e =
      outcome-IsSound logging_fails w o _ s final
        (run_command-IsOutcome fl qs now api kubeconfigs rest libraries logging_fails w o) e
