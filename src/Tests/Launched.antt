-- ===== src/Tests/Launched.antt =====
-- A command with accepted flags, over libraries that never fail.
use metrics_server.Prelude.{
  ap, sym, ◌↔◌, All, Bool, ℕ, ◌*◌, ◌≡◌, refl, List, [], ◌∷◌, ◌++◌, GoString, gostring_eq, str, true,
  false, Option, none, some,
}
use metrics_server.Prelude.Int.{pos, wrap_int64, ◌*ℤ◌}
use metrics_server.Client.Built.{new_for_config}
use metrics_server.Monitoring.{register_metrics}
use metrics_server.Buckets.{buckets_for_scrape_duration}
use metrics_server.Api.Install.{install}
use metrics_server.Scraper.{new_scraper}
use metrics_server.Go.Time.{second}
use metrics_server.Go.Result.{ok_inj, ok}
use metrics_server.Storage.{new_storage, ready}
use metrics_server.Options.{
  TlsClientConfig, validate, validate_kubelet, validate_resolution, config,
}
use metrics_server.Options.Served.{ApiserverOptions, Kubeconfigs, server_config}
use metrics_server.Server.Ready.{Endpoints, register_probes_iff}
use metrics_server.Server.{
  probe_metric_collection_timely, Server, new_server, ticked, done, run_until, run_scrape,
}
use metrics_server.Server.Built.{
  register_probes, run_check, Libraries, MetricsServer, Check, metric_storage_ready,
  metric_cache_has_synced, metric_collection_timely, metadata_informer_sync, complete,
}
use metrics_server.Command.{Surroundings, launched, run_command}
use metrics_server.Command.Sound.{IsSound, run_command-IsSound}
use metrics_server.Command.Launched.{IsOutcome, run_command-IsOutcome}
use metrics_server.Tests.Asked.{by_name, lister_of}
use metrics_server.Tests.Configured.{options, tls_only, given, transport_for, flags_client}
use metrics_server.Tests.Registered.{decimals, metric_lists}
use metrics_server.Tests.Data.{
  Scaled, scaled, clock, node_a, node_b, pod_x, first_batch, second_batch,
}

-- The configuration of the API server is the list of what was applied to it.
abbrev willing : ApiserverOptions GoString (List GoString) GoString
willing = record {
  secure_serving = str "certs";
  maybe_default_with_self_signed_certs = λ serving host ips. ok (serving ++ host);
  new_config = [];
  apply_secure_serving = λ serving config. ok (serving ∷ config);
  apply_authentication = λ config. ok (str "authn" ∷ config);
  apply_authorization = λ config. ok (str "authz" ∷ config);
  apply_audit = λ config. ok (str "audit" ∷ config);
  git_version = str "v0.6.2-dirty";
  with_version = λ config. str "version" ∷ config;
  with_open_api_config = λ config. str "openapi" ∷ config;
  with_open_api_info = λ title version config. title ∷ version ∷ config;
}

abbrev loading : Kubeconfigs GoString TlsClientConfig
loading = record {
  client_config = λ path. ok given;
  in_cluster_config = ok given;
  with_content_type = λ type config. config;
  set_kubernetes_defaults = λ config. ok config;
}

-- A generic server is the checks of its endpoints readyz and livez.
abbrev agreeing : Libraries GoString (List GoString) TlsClientConfig ℕ Scaled decimals
agreeing = record {
  Selector = Option GoString;
  Requirement = GoString;
  FieldSelector = GoString;
  node_selectors = by_name (λ n. n.name);
  pod_selectors = by_name (λ p. p.name);
  parse_to_requirements = λ ns. ok (some (ns ∷ []));
  trim_space = λ ns. ns;
  MetadataClient = TlsClientConfig;
  KubernetesClient = TlsClientConfig;
  PodFactory = TlsClientConfig;
  NodeFactory = TlsClientConfig;
  metadata_new_for_config = λ config. ok config;
  new_filtered_factory = λ client resync namespace fields. client;
  kubernetes_new_for_config = λ config. ok config;
  new_factory = λ client resync. client;
  pod_lister = λ factory namespace. lister_of (λ p. p.name) (pod_x ∷ []);
  node_lister = λ factory. lister_of (λ n. n.name) (node_b ∷ node_a ∷ []);
  Transport = TlsClientConfig;
  transport_for = transport_for;
  Registry = _;
  registries = metric_lists;
  GenericServer = List Check × List Check;
  with_enable_metrics = λ enabled config. config;
  new_generic_server = λ config name. ok ([], []);
  handle_metrics = λ server path registry. server;
  install_api_group = λ server group. ok server;
  add_readyz_checks = λ server check. ok (server.0 ++ check ∷ [], server.1);
  add_livez_checks = λ server delay check. ok (server.0, server.1 ++ check ∷ []);
  add_health_checks = λ server check. ok (server.0 ++ check ∷ [], server.1 ++ check ∷ []);
}

abbrev world : Surroundings
world = record {
  nodes_synced = true;
  pods_synced = true;
  start = 100 * second;
  first_batch = first_batch;
  events = ticked (160 * second) second_batch ∷ done ∷ [];
}

run_command-IsOutcome_example :
    IsOutcome decimals scaled clock willing loading tls_only agreeing false world options
      (run_command decimals scaled clock willing loading tls_only agreeing false world options)
run_command-IsOutcome_example =
    run_command-IsOutcome decimals scaled clock willing loading tls_only agreeing false world
      options

abbrev checked : List Check × List Check
checked = (
  metric_storage_ready (str "metric-storage-ready")
      ∷ metric_cache_has_synced (str "metric-informer-sync")
      ∷ metadata_informer_sync (str "metadata-informer-sync")
      ∷ [],
  metric_collection_timely (str "metric-collection-timely")
      ∷ metadata_informer_sync (str "metadata-informer-sync")
      ∷ [],
)

abbrev server : MetricsServer decimals scaled clock agreeing
server = record {
  generic_api_server = checked;
  pods = given;
  nodes = given;
  scraper = record {
    node_lister = lister_of (λ n. n.name) (node_b ∷ node_a ∷ []);
    kubelet_client = flags_client;
    scrape_timeout = pos (10 * second);
    label_selector = none;
  };
  state = new_server (new_storage (pos (15 * second))) (pos (15 * second));
}

abbrev left : Server
left = run_scrape server.state (100 * second) first_batch world.events

launches :
    run_command decimals scaled clock willing loading tls_only agreeing false world options
    ≡ launched server (some left)
unfolding run_until run_command validate complete validate_kubelet validate_resolution wrap_int64
    ◌*ℤ◌ server_config new_for_config register_metrics buckets_for_scrape_duration install
    new_scraper config
launches = refl

run_command-IsSound_example :
    IsSound decimals scaled clock willing loading tls_only agreeing world options server left
run_command-IsSound_example =
    run_command-IsSound decimals scaled clock willing loading tls_only agreeing false world options
      server left launches

abbrev two_endpoints : Endpoints decimals scaled clock agreeing
two_endpoints = record {
  readyz = λ g. g.0;
  livez = λ g. g.1;
  readyz-add_readyz = λ g g' c e. (ap (λ x. x.0) (sym (ok_inj e)), ap (λ x. x.1) (sym (ok_inj e)));
  livez-add_livez =
      λ g g' delay c e. (ap (λ x. x.0) (sym (ok_inj e)), ap (λ x. x.1) (sym (ok_inj e)));
  both-add_health = λ g g' c e. (ap (λ x. x.0) (sym (ok_inj e)), ap (λ x. x.1) (sym (ok_inj e)));
}

probes-registered : register_probes decimals scaled clock agreeing ([], []) ≡ ok checked
unfolding register_probes
probes-registered = refl

register_probes_iff_example :
    let passes = λ (c : Check).
      run_check decimals left (170 * second) true true ((str "pods", true) ∷ []) c ≡ ok tt in
    (All passes checked.0 ↔ (
      (ready left.storage ≡ true)
      × (true ≡ true)
      × (true ≡ true)
      × All (λ (x : GoString × Bool). x.1 ≡ true) ((str "pods", true) ∷ [])))
    × (All passes checked.1 ↔ (
        (probe_metric_collection_timely decimals left (170 * second) ≡ ok tt)
        × All (λ (x : GoString × Bool). x.1 ≡ true) ((str "pods", true) ∷ [])))
register_probes_iff_example =
    register_probes_iff decimals scaled clock agreeing two_endpoints ([], []) checked left
      (170 * second) true true ((str "pods", true) ∷ []) probes-registered refl refl
