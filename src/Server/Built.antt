-- ===== src/Server/Built.antt =====
-- How pkg/server builds a server: Complete and metricsHandler of config.go, informer.go, NewServer
-- and RegisterProbes of server.go. The libraries that they call are parameters.
use metrics_server.Prelude.{ℕ, Bool, false, Option, none, List, [], GoString, str, if◌then◌else◌}
use metrics_server.Prelude.Dict.{Dict}
use metrics_server.Prelude.Int.{pos}
use metrics_server.Go.Time.{Time, Duration}
use metrics_server.Go.Float.{Floats}
use metrics_server.Go.Result.{Result, ok, ◌>>=◌, map_err}
use metrics_server.Kube.{Node as KubeNode, PartialObjectMetadata, Quantities}
use metrics_server.Storage.{Storage, new_storage}
use metrics_server.Options.{is_set}
use metrics_server.Options.Served.{ServerConfig}
use metrics_server.Client.Built.{new_for_config}
use metrics_server.Scraper.{Scraper, new_scraper}
use metrics_server.Api.{Lister, Selectors}
use metrics_server.Api.Stored.{stored_nodes, stored_pods}
use metrics_server.Api.Install.{ApiGroupInfo, install}
use metrics_server.Monitoring.{Registries, MetricsError, register_metrics}
use metrics_server.Server.{
  Server, new_server, Probe, probe_metric_collection_timely, probe_metric_storage_ready,
  probe_metric_cache_has_synced, check_informers,
}

-- A health check by its name, with the probe that it runs.
pub data Check : Type 0 where
  metric_storage_ready metric_cache_has_synced metric_collection_timely : GoString → Check
  metadata_informer_sync : GoString → Check

-- The libraries behind the server: client-go, the registry of metrics, and the API server. `C` is
-- rest.Config, `A` genericapiserver.Config, `E` any error; the other types are fields.
pub record Libraries (E A C F Q : Type 0) (fl : Floats F) : Type 1 where
  pub Selector : Type 0
  pub Requirement : Type 0
  pub FieldSelector : Type 0
  pub node_selectors : Selectors Selector Requirement FieldSelector KubeNode
  pub pod_selectors : Selectors Selector Requirement FieldSelector PartialObjectMetadata
  -- labels.ParseToRequirements, which may return nil, and strings.TrimSpace
  pub parse_to_requirements : GoString → Result E (Option (List Requirement))
  pub trim_space : GoString → GoString
  -- The clients, and the informer factories with their resync period, namespace and field selector
  pub MetadataClient : Type 0
  pub KubernetesClient : Type 0
  pub PodFactory : Type 0
  pub NodeFactory : Type 0
  pub metadata_new_for_config : C → Result E MetadataClient
  pub new_filtered_factory : MetadataClient → ℕ → GoString → GoString → PodFactory
  pub kubernetes_new_for_config : C → Result E KubernetesClient
  pub new_factory : KubernetesClient → ℕ → NodeFactory
  pub pod_lister : PodFactory → GoString → Lister E Selector PartialObjectMetadata
  pub node_lister : NodeFactory → Lister E Selector KubeNode
  -- rest.TransportFor
  pub Transport : Type 0
  pub transport_for : C → Result E Transport
  pub Registry : Type 0
  pub registries : Registries Registry E F fl
  -- genericapiserver.GenericAPIServer
  pub GenericServer : Type 0
  pub with_enable_metrics : Bool → A → A
  pub new_generic_server : A → GoString → Result E GenericServer
  pub handle_metrics : GenericServer → GoString → Registry → GenericServer
  pub install_api_group :
      GenericServer
      → (Storage → ApiGroupInfo E Selector Requirement FieldSelector Q)
      → Result E GenericServer
  pub add_readyz_checks : GenericServer → Check → Result E GenericServer
  pub add_livez_checks : GenericServer → Duration → Check → Result E GenericServer
  pub add_health_checks : GenericServer → Check → Result E GenericServer

pub data BuildError (E : Type 0) : Type 0 where
  no_lister_client no_kubelet_client failed : E → BuildError E
  no_metrics_registered : MetricsError E → BuildError E

abbrev default_resync : ℕ
default_resync = 0

module _ {E A C F Q : Type 0} (fl : Floats F) (qs : Quantities Q) (now : ℕ → Time)
    (libraries : Libraries E A C F Q fl) where
  open libraries use {
    Selector, Requirement, node_selectors, pod_selectors, parse_to_requirements, trim_space,
    PodFactory, NodeFactory, metadata_new_for_config, new_filtered_factory,
    kubernetes_new_for_config, new_factory, pod_lister, node_lister, transport_for, Registry,
    registries, GenericServer, with_enable_metrics, new_generic_server, handle_metrics,
    install_api_group, add_readyz_checks, add_livez_checks, add_health_checks,
  }

  -- `server`: `state` has the fields that its loop and its probes use.
  pub record MetricsServer : Type 0 where
    pub generic_api_server : GenericServer
    pub pods : PodFactory
    pub nodes : NodeFactory
    pub scraper : Scraper E Selector
    pub state : Server

  unfoldable pub informer_factory : C → Result (BuildError E) NodeFactory
  informer_factory rest = do
    client ← map_err no_lister_client (kubernetes_new_for_config rest)
    ok (new_factory client default_resync)

  unfoldable pub running_pod_metadata_informer : C → Result (BuildError E) PodFactory
  running_pod_metadata_informer rest = do
    client ← map_err no_lister_client (metadata_new_for_config rest)
    ok (new_filtered_factory client default_resync [] (str "status.phase=Running"))

  -- The handler serves the registry besides the library's own.
  unfoldable pub metrics_handler : Duration → Result (BuildError E) Registry
  metrics_handler resolution =
      map_err no_metrics_registered
        (register_metrics fl registries resolution registries.new_kube_registry)

  -- `labelRequirement`
  unfoldable pub label_requirement : GoString → Result (BuildError E) (Option (List Requirement))
  label_requirement node_selector =
      let ns = trim_space node_selector in
      let parsed = map_err failed (parse_to_requirements ns) in
      if is_set ns then parsed else ok none

  unfoldable pub register_probes : GenericServer → Result E GenericServer
  register_probes g = do
    g1 ← add_readyz_checks g (metric_storage_ready (str "metric-storage-ready"))
    g2 ← add_readyz_checks g1 (metric_cache_has_synced (str "metric-informer-sync"))
    g3 ← add_livez_checks g2 (pos 0) (metric_collection_timely (str "metric-collection-timely"))
    add_health_checks g3 (metadata_informer_sync (str "metadata-informer-sync"))

  -- Config.Complete
  unfoldable pub complete : ServerConfig A C → Result (BuildError E) MetricsServer
  unfolding informer_factory running_pod_metadata_informer metrics_handler label_requirement
      register_probes
  complete c = do
    pods ← running_pod_metadata_informer c.rest
    nodes ← informer_factory c.rest
    client ← map_err no_kubelet_client (new_for_config transport_for c.kubelet)
    requirement ← label_requirement c.node_selector
    handler ← metrics_handler c.metric_resolution
    generic ←
        map_err failed
          (new_generic_server (with_enable_metrics false c.apiserver) (str "metrics-server"))
    installed ← map_err failed (
        install install_api_group node_selectors pod_selectors (stored_nodes fl qs now)
          (stored_pods fl qs now) (pod_lister pods) (node_lister nodes)
          (handle_metrics generic (str "/metrics") handler) requirement)
    probed ← map_err failed (register_probes installed)
    ok (record {
      generic_api_server = probed;
      pods = pods;
      nodes = nodes;
      scraper = new_scraper node_selectors (node_lister nodes) client c.scrape_timeout requirement;
      state = new_server (new_storage c.metric_resolution) c.metric_resolution;
    })

-- The probe of a check, with what the informers have synchronised.
unfoldable pub run_check :
    {F : Type 0} → Floats F → Server → Time → Bool → Bool → Dict GoString Bool → Check → Probe
run_check fl s now nodes_synced pods_synced informers (metric_storage_ready name) =
    probe_metric_storage_ready s
run_check fl s now nodes_synced pods_synced informers (metric_cache_has_synced name) =
    probe_metric_cache_has_synced nodes_synced pods_synced
run_check fl s now nodes_synced pods_synced informers (metric_collection_timely name) =
    probe_metric_collection_timely fl s now
run_check fl s now nodes_synced pods_synced informers (metadata_informer_sync name) =
    check_informers informers
