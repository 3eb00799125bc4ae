-- ===== src/Client/Built.antt =====
-- NewForConfig and newClient of pkg/scraper/client/resource/client.go, and what a client built from
-- flags asks for. rest.TransportFor is a parameter; the HTTP client over the transport is one too.
use metrics_server.Prelude.{
  ◌≡◌, refl, ap, List, [], ◌∷◌, map, Bool, not, ◌&&◌, if◌then◌else◌, GoString, str, arith, inl, inr,
}
use metrics_server.Prelude.Int.{ℤ}
use metrics_server.Go.Time.{Time}
use metrics_server.Go.Float.{Floats}
use metrics_server.Go.Result.{Result, ok, ◌>>=◌, Result-cases}
use metrics_server.Kube.{Node}
use metrics_server.Resolver.{AddressType}
use metrics_server.Resolver.Preferred.{IsPreferred}
use metrics_server.Storage.Types.{MetricsBatch}
use metrics_server.Client.{
  Http, HttpResponse, Url, KubeletClient, choose_port, is_zero_port, get_metrics,
}
use metrics_server.Client.Answers.{get_metrics-IsAnswer}
use metrics_server.Options.{
  KubeletClientOptions, KubeletClientConfig, RestConfigs, config, address_resolver_config,
}

unfoldable pub new_client : List AddressType → ℤ → GoString → Bool → KubeletClient
new_client priority default_port scheme use_node_status_port = record {
  default_port = default_port;
  use_node_status_port = use_node_status_port;
  scheme = scheme;
  address_type_priority = priority;
}

unfoldable pub new_for_config :
    {C E T : Type 0} → (C → Result E T) → KubeletClientConfig C → Result E KubeletClient
unfolding new_client
new_for_config transport_for made = do
  transport ← transport_for made.client
  ok (new_client made.address_type_priority made.default_port made.scheme made.use_node_status_port)

map-id : {A : Type 0} (xs : List A) → map (λ x. x) xs ≡ xs
map-id [] = refl
map-id (x ∷ xs) = ap (λ ys. x ∷ ys) (map-id xs)

module _ {C E T : Type 0} (rest : RestConfigs C) (transport_for : C → Result E T)
    (o : KubeletClientOptions) (c : C) where
  abbrev pub built : KubeletClient
  built = record {
    default_port = o.kubelet_port;
    use_node_status_port = o.kubelet_use_node_status_port;
    scheme = if o.deprecated_completely_insecure_kubelet then str "http" else str "https";
    address_type_priority = o.kubelet_preferred_address_types;
  }

  -- A client that is built from flags has the flags' port, its use, the priority, and the scheme
  -- http exactly where the flags ask for no encryption.
  pub new_for_config-built :
      (kc : KubeletClient) → new_for_config transport_for (config rest o c) ≡ ok kc → kc ≡ built
  unfolding new_for_config config address_resolver_config
  new_for_config-built kc e = elim (Result-cases (transport_for (config rest o c).client)) [
    | inl (x, failed) ↦ absurd (ground arith)
    | inr (transport, made) ↦ ground (arith, map-id o.kubelet_preferred_address_types)
  ]

  -- The one request behind a batch, as the flags ask for it.
  pub record IsAskedFor {F : Type 0} (http : Http E F) (node : Node) : Type 0 where
    pub address : GoString
    pub preferred : IsPreferred o.kubelet_preferred_address_types node.addresses address
    pub request : Url
    pub requested :
        http.new_request (record {
          scheme = if o.deprecated_completely_insecure_kubelet then str "http" else str "https";
          host = address;
          port =
              if o.kubelet_use_node_status_port && not (is_zero_port node.kubelet_port)
              then node.kubelet_port
              else o.kubelet_port;
          path = str "/metrics/resource";
        })
        ≡ ok request
    pub response : HttpResponse
    pub sent : http.send request ≡ ok response

  -- A batch that comes from a client built from flags was asked for at the address that the flags
  -- prefer, at the port of the node's status if the flags say so and it is not zero and at the
  -- flags' port otherwise, and in plain HTTP exactly where the flags ask for no encryption.
  pub new_for_config-IsAskedFor :
      {F : Type 0} (http : Http E F) (fl : Floats F) (kc : KubeletClient) (node : Node) (t : Time)
      (batch : MetricsBatch)
      → new_for_config transport_for (config rest o c) ≡ ok kc
      → get_metrics http fl kc node t ≡ ok batch
      → IsAskedFor http node
  unfolding choose_port
  new_for_config-IsAskedFor http fl kc node t batch e h =
      let h' : get_metrics http fl built node t ≡ ok batch = rw (new_for_config-built kc e) at h in
      let a = (get_metrics-IsAnswer http fl built node t batch h').0 in
      record {
        address = a.address;
        preferred = a.preferred;
        request = a.request;
        requested = a.requested;
        response = a.response;
        sent = a.sent;
      }
