-- ===== src/Server/Completed.antt =====
-- What pkg/server/config.go makes of a configuration.
use mathlib.Core.Path.{subst}
use metrics_server.Prelude.{ℕ, ◌≡◌, refl, false, Option, none, some, List, str}
use metrics_server.Go.Time.{Time}
use metrics_server.Go.Float.{Floats}
use metrics_server.Go.Result.{Result, ok, err, ◌>>=◌, map_err, bind_ok, map_err_ok, ok_inj}
use metrics_server.Kube.{Node as KubeNode, Quantities}
use metrics_server.Storage.{new_storage}
use metrics_server.Options.Served.{ServerConfig}
use metrics_server.Client.Built.{new_for_config}
use metrics_server.Scraper.{selector_of, new_scraper}
use metrics_server.Api.{Lister, listing_failed, label_selector_of, filter_listed}
use metrics_server.Api.Node.{NodeMetricsGetter, nodes}
use metrics_server.Api.Stored.{stored_nodes, stored_pods}
use metrics_server.Api.Install.{new_node_metrics, install}
use metrics_server.Server.{new_server}
use metrics_server.Server.Built.{
  Libraries, MetricsServer, label_requirement, register_probes, complete,
  running_pod_metadata_informer, informer_factory, metrics_handler, no_kubelet_client, failed,
}

module _ {E A C F Q : Type 0} (fl : Floats F) (qs : Quantities Q) (now : ℕ → Time)
    (libraries : Libraries E A C F Q fl) where
  open libraries use {
    Requirement, GenericServer, node_selectors, pod_selectors, transport_for, node_lister,
    pod_lister, install_api_group, new_generic_server, with_enable_metrics, handle_metrics,
  }

  -- A server made of a configuration.
  pub record IsCompleted (c : ServerConfig A C) (s : MetricsServer fl qs now libraries)
      : Type 0 where
    pub client_built : new_for_config transport_for c.kubelet ≡ ok s.scraper.kubelet_client
    pub scrape_timeout_kept : s.scraper.scrape_timeout ≡ c.scrape_timeout
    pub state_new : s.state ≡ new_server (new_storage c.metric_resolution) c.metric_resolution
    pub requirement : Option (List Requirement)
    pub required : label_requirement fl qs now libraries c.node_selector ≡ ok requirement
    pub selector_kept : s.scraper.label_selector ≡ selector_of node_selectors requirement
    pub lister_kept : s.scraper.node_lister ≡ node_lister s.nodes
    pub before_installed : GenericServer
    pub installed : GenericServer
    pub install_ok :
        install install_api_group node_selectors pod_selectors
          (stored_nodes fl qs now)
          (stored_pods fl qs now)
          (pod_lister s.pods)
          (node_lister s.nodes)
          before_installed
          requirement
        ≡ ok installed
    pub probes_ok : register_probes fl qs now libraries installed ≡ ok s.generic_api_server

  pub complete-IsCompleted :
      (c : ServerConfig A C) (s : MetricsServer fl qs now libraries)
      → complete fl qs now libraries c ≡ ok s
      → IsCompleted c s
  unfolding complete new_scraper
  complete-IsCompleted c s h =
      bind_ok (running_pod_metadata_informer fl qs now libraries c.rest) _ s h λ pods e1 h1.
        bind_ok (informer_factory fl qs now libraries c.rest) _ s h1 λ nodes e2 h2.
          bind_ok (map_err no_kubelet_client (new_for_config transport_for c.kubelet)) _ s h2
            λ client e3 h3.
              bind_ok (label_requirement fl qs now libraries c.node_selector) _ s h3
                λ requirement e4 h4.
                  bind_ok (metrics_handler fl qs now libraries c.metric_resolution) _ s h4
                    λ handler e5 h5.
                      bind_ok
                        (map_err failed (
                          new_generic_server (with_enable_metrics false c.apiserver)
                            (str "metrics-server")))
                        _ s h5
                        λ generic e6 h6.
                          let before = handle_metrics generic (str "/metrics") handler in
                          bind_ok
                            (map_err failed (
                              install install_api_group node_selectors pod_selectors
                                (stored_nodes fl qs now) (stored_pods fl qs now) (pod_lister pods)
                                (node_lister nodes) before requirement))
                            _ s h6
                            λ installed e7 h7.
                              bind_ok
                                (map_err failed (register_probes fl qs now libraries installed)) _ s
                                h7
                                λ probed e8 h8. subst (IsCompleted c) (ok_inj h8) (record {
                                  client_built =
                                      map_err_ok _ (new_for_config transport_for c.kubelet) client
                                        e3;
                                  scrape_timeout_kept = refl;
                                  state_new = refl;
                                  requirement = requirement;
                                  required = e4;
                                  selector_kept = refl;
                                  lister_kept = refl;
                                  before_installed = before;
                                  installed = installed;
                                  install_ok = map_err_ok _ _ installed e7;
                                  probes_ok = map_err_ok _ _ probed e8;
                                })

  unfiltered :
      (listed : Result E (List KubeNode))
      → (map_err listing_failed listed >>= λ found. ok (filter_listed node_selectors none found))
        ≡ map_err listing_failed listed
  unfolding filter_listed
  unfiltered (ok found) = refl
  unfiltered (err e) = refl

  api_nodes :
      (lister : Lister E _ KubeNode) (metrics : NodeMetricsGetter E Q)
      (requirement : Option (List Requirement))
      → nodes (new_node_metrics node_selectors metrics lister requirement) none
        ≡ map_err listing_failed (lister.list (selector_of node_selectors requirement))
  unfolding nodes label_selector_of
  api_nodes lister metrics none = unfiltered (lister.list node_selectors.everything)
  api_nodes lister metrics (some requirements) =
      unfiltered (lister.list (node_selectors.add node_selectors.everything requirements))

  -- What the API lists with no options is what the scraper scrapes.
  pub same_nodes :
      (c : ServerConfig A C) (s : MetricsServer fl qs now libraries) (m : IsCompleted c s)
      (metrics : NodeMetricsGetter E Q)
      → nodes (new_node_metrics node_selectors metrics (node_lister s.nodes) m.requirement) none
        ≡ map_err listing_failed (s.scraper.node_lister.list s.scraper.label_selector)
  same_nodes c s m metrics =
      rw (m.selector_kept, m.lister_kept) (api_nodes (node_lister s.nodes) metrics m.requirement)
