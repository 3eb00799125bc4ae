-- ===== src/Options.antt =====
-- cmd/metrics-server/app/options/kubelet_client.go and options.go: the flags of the scraper, when
-- they are refused, and the client configuration made of them. rest.Config is a parameter.
pub mod Accepted
pub mod Configured
pub mod Served
pub mod Flags
use metrics_server.Prelude.{
  ℕ, ◌*◌, ◌/◌, suc, ◌≡◌, List, [], ◌∷◌, ◌++◌, map, Bool, true, false, not, ◌&&◌, Option, none, some,
  GoString, gostring_eq, str, ◌==◌, if◌then◌else◌,
}
use metrics_server.Prelude.Int.{ℤ, pos, negsuc, sub_ℕ, ◌*ℤ◌, ltb_ℤ, leb_ℤ, wrap_int64}
use metrics_server.Go.Time.{Duration, second}
use metrics_server.Resolver.{AddressType, default_address_type_priority}

pub record KubeletClientOptions : Type 0 where
  pub kubelet_use_node_status_port : Bool
  pub kubelet_port : ℤ
  pub insecure_kubelet_tls : Bool
  pub kubelet_preferred_address_types : List GoString
  pub kubelet_ca_file : GoString
  pub kubelet_client_key_file : GoString
  pub kubelet_client_cert_file : GoString
  pub deprecated_completely_insecure_kubelet : Bool
  pub kubelet_request_timeout : Duration
  pub node_selector : GoString

pub data OptionError : Type 0 where
  ca_and_insecure_tls key_without_cert key_and_completely_insecure : OptionError
  cert_and_completely_insecure insecure_tls_and_completely_insecure : OptionError
  ca_and_completely_insecure timeout_not_positive : OptionError
  resolution_too_small resolution_not_above_timeout : OptionError
  logging_error : OptionError

-- `s != ""`
abbrev pub is_set : GoString → Bool
is_set [] = false
is_set (c ∷ cs) = true

-- `a != b`
abbrev pub differ : Bool → Bool → Bool
differ true b = not b
differ false b = b

-- `if refused { errors = append(errors, e) }`
abbrev refuse : Bool → OptionError → List OptionError
refuse refused e = if refused then e ∷ [] else []

unfoldable pub validate_kubelet : KubeletClientOptions → List OptionError
validate_kubelet o =
    refuse (is_set o.kubelet_ca_file && o.insecure_kubelet_tls) ca_and_insecure_tls
    ++ refuse (differ (is_set o.kubelet_client_key_file) (is_set o.kubelet_client_cert_file))
        key_without_cert
    ++ refuse (is_set o.kubelet_client_key_file && o.deprecated_completely_insecure_kubelet)
        key_and_completely_insecure
    ++ refuse (is_set o.kubelet_client_cert_file && o.deprecated_completely_insecure_kubelet)
        cert_and_completely_insecure
    ++ refuse (o.insecure_kubelet_tls && o.deprecated_completely_insecure_kubelet)
        insecure_tls_and_completely_insecure
    ++ refuse (is_set o.kubelet_ca_file && o.deprecated_completely_insecure_kubelet)
        ca_and_completely_insecure
    ++ refuse (leb_ℤ o.kubelet_request_timeout (pos 0)) timeout_not_positive

-- `corev1.NodeAddressType` and its conversions to string and back do not change the bytes.
unfoldable pub address_resolver_config : KubeletClientOptions → List AddressType
address_resolver_config o = map (λ type. type) o.kubelet_preferred_address_types

-- NewKubeletClientOptions
unfoldable pub new_kubelet_client_options : KubeletClientOptions
new_kubelet_client_options = record {
  kubelet_use_node_status_port = false;
  kubelet_port = pos 10250;
  insecure_kubelet_tls = false;
  kubelet_preferred_address_types = map (λ type. type) default_address_type_priority;
  kubelet_ca_file = [];
  kubelet_client_key_file = [];
  kubelet_client_cert_file = [];
  deprecated_completely_insecure_kubelet = false;
  kubelet_request_timeout = pos (10 * second);
  node_selector = [];
}

-- The division of Go's integers, which drops the fraction.
abbrev pub quot_ℤ : ℤ → ℕ → ℤ
quot_ℤ (ℤ.pos n) k = pos (n / k)
quot_ℤ (ℤ.negsuc n) k = sub_ℕ 0 (suc n / k)

-- The fields of Options that the program itself reads; those that it only passes to the libraries,
-- from SecureServing to Logging, stand behind the calls with them.
pub record Options : Type 0 where
  pub kubelet_client : KubeletClientOptions
  pub metric_resolution : Duration
  pub show_version : Bool
  pub kubeconfig : GoString
  pub disable_auth_for_testing : Bool

-- NewOptions
unfoldable pub new_options : Options
unfolding new_kubelet_client_options
new_options = record {
  kubelet_client = new_kubelet_client_options;
  metric_resolution = pos (60 * second);
  show_version = false;
  kubeconfig = [];
  disable_auth_for_testing = false;
}

unfoldable pub validate_resolution : Options → List OptionError
validate_resolution o =
    refuse (ltb_ℤ o.metric_resolution (pos (10 * second))) resolution_too_small
    ++ refuse
        (ltb_ℤ (quot_ℤ (wrap_int64 (o.metric_resolution *ℤ pos 9)) 10)
          o.kubelet_client.kubelet_request_timeout)
        resolution_not_above_timeout

-- The argument is whether logsapi.ValidateAndApply returns an error.
unfoldable pub validate : Bool → Options → List OptionError
validate logging_fails o =
    validate_kubelet o.kubelet_client
    ++ validate_resolution o
    ++ (if logging_fails then logging_error ∷ [] else [])

-- rest.TLSClientConfig
pub record TlsClientConfig : Type 0 where
  pub insecure : Bool
  pub server_name : GoString
  pub cert_file : GoString
  pub key_file : GoString
  pub ca_file : GoString
  pub cert_data : Option GoString
  pub key_data : Option GoString
  pub ca_data : Option GoString
  pub next_protos : List GoString

abbrev pub empty_tls : TlsClientConfig
empty_tls = record {
  insecure = false;
  server_name = [];
  cert_file = [];
  key_file = [];
  ca_file = [];
  cert_data = none;
  key_data = none;
  ca_data = none;
  next_protos = [];
}

-- rest.Config: CopyConfig, AnonymousClientConfig, and the field TLSClientConfig with its
-- assignment, which is read back.
pub record RestConfigs (C : Type 0) : Type 0 where
  pub copy_config : C → C
  pub anonymous_client_config : C → C
  pub tls_client_config : C → TlsClientConfig
  pub with_tls_client_config : C → TlsClientConfig → C
  pub tls-with_tls :
      (c : C) (t : TlsClientConfig) → tls_client_config (with_tls_client_config c t) ≡ t

pub record KubeletClientConfig (C : Type 0) : Type 0 where
  pub client : C
  pub address_type_priority : List AddressType
  pub scheme : GoString
  pub default_port : ℤ
  pub use_node_status_port : Bool

abbrev drop_ca : Bool → TlsClientConfig → TlsClientConfig
drop_ca wanted tls =
    if wanted then record tls { insecure = true; ca_data = none; ca_file = [] } else tls

abbrev use_ca_file : GoString → TlsClientConfig → TlsClientConfig
use_ca_file file tls = if is_set file then record tls { ca_file = file; ca_data = none } else tls

abbrev use_cert_file : GoString → TlsClientConfig → TlsClientConfig
use_cert_file file tls =
    if is_set file then record tls { cert_file = file; cert_data = none } else tls

abbrev use_key_file : GoString → TlsClientConfig → TlsClientConfig
use_key_file file tls = if is_set file then record tls { key_file = file; key_data = none } else tls

-- The assignments to fields of `config.Client.TLSClientConfig`
unfoldable pub tls_of : KubeletClientOptions → TlsClientConfig → TlsClientConfig
tls_of o tls = use_key_file o.kubelet_client_key_file (
    use_cert_file o.kubelet_client_cert_file
      (use_ca_file o.kubelet_ca_file (drop_ca o.insecure_kubelet_tls tls)))

module _ {C : Type 0} (rest : RestConfigs C) where
  open rest use {copy_config, anonymous_client_config, tls_client_config, with_tls_client_config}

  abbrev with_tls : (TlsClientConfig → TlsClientConfig) → C → C
  with_tls f c = with_tls_client_config c (f (tls_client_config c))

  abbrev go_anonymous : Bool → KubeletClientConfig C → KubeletClientConfig C
  go_anonymous wanted config =
      if wanted
      then record config {
        scheme = str "http";
        client = with_tls_client_config (anonymous_client_config config.client) empty_tls;
      }
      else config

  unfoldable pub config : KubeletClientOptions → C → KubeletClientConfig C
  unfolding tls_of address_resolver_config
  config o rest_config =
      let base = go_anonymous o.deprecated_completely_insecure_kubelet (record {
        scheme = str "https";
        default_port = o.kubelet_port;
        address_type_priority = address_resolver_config o;
        use_node_status_port = o.kubelet_use_node_status_port;
        client = copy_config rest_config;
      }) in
      record base { client = with_tls (tls_of o) base.client }
