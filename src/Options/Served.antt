-- ===== src/Options/Served.antt =====
-- ServerConfig, ApiserverConfig and restConfig of cmd/metrics-server/app/options/options.go: what
-- the flags make of the configurations that the server is built from. The options structs of the
-- API server's library and the loading of a kubeconfig are parameters.
use metrics_server.Prelude.{Bool, List, [], ◌∷◌, GoString, str, if◌then◌else◌, eqb, not}
use metrics_server.Go.Time.{Duration}
use metrics_server.Go.Result.{Result, ok, ◌>>=◌, map_err}
use metrics_server.Options.{Options, KubeletClientConfig, RestConfigs, config, is_set}

-- genericapiserver.Config (`A`), SecureServingOptionsWithLoopback (`O`), and the calls of
-- the options structs with the values that the flags gave them.
pub record ApiserverOptions (E A O : Type 0) : Type 0 where
  pub secure_serving : O
  pub maybe_default_with_self_signed_certs : O → GoString → List GoString → Result E O
  pub new_config : A
  pub apply_secure_serving : O → A → Result E A
  pub apply_authentication : A → Result E A
  pub apply_authorization : A → Result E A
  pub apply_audit : A → Result E A
  -- version.Get().String()
  pub git_version : GoString
  pub with_version : A → A
  pub with_open_api_config : A → A
  pub with_open_api_info : GoString → GoString → A → A

-- clientcmd and rest: a configuration from a file, and that of a pod of the cluster.
pub record Kubeconfigs (E C : Type 0) : Type 0 where
  pub client_config : GoString → Result E C
  pub in_cluster_config : Result E C
  pub with_content_type : GoString → C → C
  pub set_kubernetes_defaults : C → Result E C

pub data ConfigError (E : Type 0) : Type 0 where
  no_self_signed_certs no_lister_client_config failed : E → ConfigError E

-- server.Config
pub record ServerConfig (A C : Type 0) : Type 0 where
  pub apiserver : A
  pub rest : C
  pub kubelet : KubeletClientConfig C
  pub metric_resolution : Duration
  pub scrape_timeout : Duration
  pub node_selector : GoString

-- `strings.Split(s, "-")[0]`
before_dash : GoString → GoString
before_dash [] = []
before_dash (c ∷ cs) = let rest = before_dash cs in if eqb c 45 then [] else c ∷ rest

module _ {E A O : Type 0} (api : ApiserverOptions E A O) where
  open api use {
    secure_serving, maybe_default_with_self_signed_certs, new_config, apply_secure_serving,
    apply_authentication, apply_authorization, apply_audit, git_version, with_version,
    with_open_api_config, with_open_api_info,
  }

  -- `if !o.DisableAuthForTesting`
  unfoldable pub apply_auth : Bool → A → Result E A
  apply_auth disabled server_config =
      let applied = apply_authentication server_config >>= apply_authorization in
      if not disabled then applied else ok server_config

  unfoldable pub apiserver_config : Options → Result (ConfigError E) A
  unfolding before_dash apply_auth
  apiserver_config o = do
    serving ← map_err no_self_signed_certs (
        maybe_default_with_self_signed_certs secure_serving (str "localhost")
          (str "127.0.0.1" ∷ []))
    served ← map_err failed (apply_secure_serving serving new_config)
    authorized ← map_err failed (apply_auth o.disable_auth_for_testing served)
    audited ← map_err failed (apply_audit authorized)
    ok (
        with_open_api_info (str "Kubernetes metrics-server") (before_dash git_version)
          (with_open_api_config (with_version audited)))

module _ {E C : Type 0} (kubeconfigs : Kubeconfigs E C) where
  open kubeconfigs use {
    client_config, in_cluster_config, with_content_type, set_kubernetes_defaults,
  }

  unfoldable pub rest_config : Options → Result (ConfigError E) C
  rest_config o = do
    loaded ←
        map_err no_lister_client_config
          (if is_set o.kubeconfig then client_config o.kubeconfig else in_cluster_config)
    map_err failed (
        set_kubernetes_defaults
          (with_content_type (str "application/vnd.kubernetes.protobuf") loaded))

module _ {E A O C : Type 0} (api : ApiserverOptions E A O) (kubeconfigs : Kubeconfigs E C)
    (rest : RestConfigs C) where
  unfoldable pub server_config : Options → Result (ConfigError E) (ServerConfig A C)
  unfolding apiserver_config rest_config
  server_config o = do
    apiserver ← apiserver_config api o
    c ← rest_config kubeconfigs o
    ok (record {
      apiserver = apiserver;
      rest = c;
      kubelet = config rest o.kubelet_client c;
      metric_resolution = o.metric_resolution;
      scrape_timeout = o.kubelet_client.kubelet_request_timeout;
      node_selector = o.kubelet_client.node_selector;
    })
