-- ===== src/Tests/Configured.antt =====
-- Flags of a metrics-server with a CA file and a client certificate.
use metrics_server.Prelude.{
  GoString, gostring_eq, ◌*◌, ◌≤◌, ◌≡◌, ◌↔◌, refl, [], ◌∷◌, str, true, false, some, arith,
}
use metrics_server.Prelude.Int.{pos, ◌≤ℤ◌, ◌*ℤ◌, wrap_int64}
use metrics_server.Prelude.Dict.{insert}
use metrics_server.Go.Time.{second, unix, millis_to_nanos}
use metrics_server.Go.Float.{fractions}
use metrics_server.Go.Result.{Result, ok}
use metrics_server.Bytes.{has_prefix}
use metrics_server.Resolver.{node_address}
use metrics_server.Series.{timeseries_matches_name}
use metrics_server.Decode.{decode_batch}
use metrics_server.Client.{KubeletClient, get_metrics}
use metrics_server.Client.Built.{
  new_for_config, new_client, built, IsAskedFor, new_for_config-IsAskedFor,
}
use metrics_server.Tests.Data.{node_a}
use metrics_server.Tests.Scraped.{network, answered}
use metrics_server.Options.{
  KubeletClientOptions, address_resolver_config, validate_kubelet, Options, validate,
  TlsClientConfig, empty_tls, RestConfigs, config,
}
use metrics_server.Options.Accepted.{IsConsistent, validate_iff}
use metrics_server.Options.Configured.{IsSecuredAsAsked, config-IsSecuredAsAsked}

abbrev pub flags : KubeletClientOptions
flags = record {
  kubelet_use_node_status_port = true;
  kubelet_port = pos 10250;
  insecure_kubelet_tls = false;
  kubelet_preferred_address_types = str "InternalIP" ∷ [];
  kubelet_ca_file = str "/ca.crt";
  kubelet_client_key_file = str "/client.key";
  kubelet_client_cert_file = str "/client.crt";
  deprecated_completely_insecure_kubelet = false;
  kubelet_request_timeout = pos (10 * second);
  node_selector = [];
}

-- A configuration that has TLS settings and nothing else.
abbrev pub tls_only : RestConfigs TlsClientConfig
tls_only = record {
  copy_config = λ c. c;
  anonymous_client_config = λ c. empty_tls;
  tls_client_config = λ c. c;
  with_tls_client_config = λ c t. t;
  tls-with_tls = λ c t. refl;
}

abbrev pub given : TlsClientConfig
given = record empty_tls { ca_data = some (str "PEM") }

config-IsSecuredAsAsked_example : IsSecuredAsAsked tls_only flags (config tls_only flags given)
unfolding validate_kubelet
config-IsSecuredAsAsked_example = config-IsSecuredAsAsked tls_only flags given refl

abbrev pub options : Options
options = record {
  kubelet_client = flags;
  metric_resolution = pos (15 * second);
  show_version = false;
  kubeconfig = str "/etc/kubeconfig";
  disable_auth_for_testing = false;
}

validate_iff_example : (validate false options ≡ []) ↔ (
    IsConsistent flags
    × (10 * second ≤ 15 * second)
    × (pos (10 * second) *ℤ pos 10 ≤ℤ pos (9 * (15 * second)))
    × (false ≡ false))
validate_iff_example = validate_iff false options (15 * second) refl (omega arith)

abbrev pub transport_for : TlsClientConfig → Result GoString TlsClientConfig
transport_for c = ok c

abbrev pub flags_client : KubeletClient
flags_client = built tls_only transport_for flags given

flags_client-made : new_for_config transport_for (config tls_only flags given) ≡ ok flags_client
unfolding new_for_config config new_client address_resolver_config
flags_client-made = refl

flags_client-answered :
    get_metrics network fractions flags_client node_a (100 * second) ≡ ok answered
unfolding get_metrics decode_batch node_address gostring_eq timeseries_matches_name has_prefix unix
    millis_to_nanos wrap_int64 ◌*ℤ◌ insert
flags_client-answered = refl

new_for_config-IsAskedFor_example : IsAskedFor tls_only transport_for flags given network node_a
new_for_config-IsAskedFor_example =
    new_for_config-IsAskedFor tls_only transport_for flags given network fractions flags_client
      node_a (100 * second) answered flags_client-made flags_client-answered
