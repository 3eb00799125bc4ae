-- ===== src/Options/Configured.antt =====
-- The client configuration made of accepted flags (cmd/metrics-server/app/options).
use metrics_server.Prelude.{
  ◌≡◌, ap, ◌∙◌, Bool-cases, inl, inr, if◌then◌else◌, [], true, false, none, str, arith,
}
use metrics_server.Options.{
  KubeletClientOptions, is_set, validate_kubelet, RestConfigs, KubeletClientConfig, TlsClientConfig,
  empty_tls, tls_of, config,
}
use metrics_server.Options.Accepted.{validate_kubelet_iff}

-- What an administrator who sets one of the flags on transport security expects.
pub record IsSecuredAsAsked {C : Type 0} (rest : RestConfigs C) (o : KubeletClientOptions)
    (made : KubeletClientConfig C) : Type 0 where
  pub plain :
      o.deprecated_completely_insecure_kubelet ≡ true
      → (made.scheme ≡ str "http") × (rest.tls_client_config made.client ≡ empty_tls)
  pub encrypted : o.deprecated_completely_insecure_kubelet ≡ false → made.scheme ≡ str "https"
  pub unchecked :
      o.insecure_kubelet_tls ≡ true
      → let tls = rest.tls_client_config made.client in
        (tls.insecure ≡ true) × (tls.ca_file ≡ []) × (tls.ca_data ≡ none)
  pub own_ca :
      is_set o.kubelet_ca_file ≡ true
      → let tls = rest.tls_client_config made.client in
        (made.scheme ≡ str "https") × (tls.ca_file ≡ o.kubelet_ca_file) × (tls.ca_data ≡ none)
  pub own_certificate :
      is_set o.kubelet_client_cert_file ≡ true
      → let tls = rest.tls_client_config made.client in
        (made.scheme ≡ str "https")
        × (tls.cert_file ≡ o.kubelet_client_cert_file)
        × (tls.cert_data ≡ none)
        × (tls.key_file ≡ o.kubelet_client_key_file)
        × (tls.key_data ≡ none)

module _ {C : Type 0} (rest : RestConfigs C) (o : KubeletClientOptions) (c : C) where
  abbrev tls_before : TlsClientConfig
  tls_before =
      if o.deprecated_completely_insecure_kubelet
      then empty_tls
      else rest.tls_client_config (rest.copy_config c)

  config-tls : rest.tls_client_config (config rest o c).client ≡ tls_of o tls_before
  unfolding config
  config-tls = elim (Bool-cases o.deprecated_completely_insecure_kubelet) [
    | inl e ↦ rw (e) (
        rest.tls-with_tls _ _
        ∙ ap (tls_of o)
            (rest.tls-with_tls (rest.anonymous_client_config (rest.copy_config c)) empty_tls))
    | inr e ↦ rw (e) (rest.tls-with_tls _ _)
  ]

  config-scheme :
      (config rest o c).scheme
      ≡ (if o.deprecated_completely_insecure_kubelet then str "http" else str "https")
  unfolding config
  config-scheme = ground arith

  -- Flags that are accepted are obeyed: plain HTTP goes with no TLS settings, and otherwise each
  -- file that is set replaces what the given configuration has, its data included.
  pub config-IsSecuredAsAsked : validate_kubelet o ≡ [] → IsSecuredAsAsked rest o (config rest o c)
  unfolding tls_of
  config-IsSecuredAsAsked accepted =
      let k = (validate_kubelet_iff o).0 accepted in
      record {
        plain = ground (
          arith, config-tls, config-scheme, k.ca_or_insecure, k.plain_without_tls, k.key_with_cert,
        );
        encrypted = ground (arith, config-scheme);
        unchecked =
            ground (arith, config-tls, k.ca_or_insecure, k.plain_without_tls, k.key_with_cert);
        own_ca = ground (
          arith, config-tls, config-scheme, k.ca_or_insecure, k.plain_without_tls, k.key_with_cert,
        );
        own_certificate = ground (
          arith, config-tls, config-scheme, k.ca_or_insecure, k.plain_without_tls, k.key_with_cert,
        );
      }
