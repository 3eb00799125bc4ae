-- ===== src/Client/Answers.antt =====
-- What a request of pkg/scraper/client/resource/client.go that succeeds has done.
use metrics_server.Prelude.{◌≡◌, arith, GoString, str, Bool-cases, inl, inr, eqb}
use metrics_server.Go.Time.{Time}
use metrics_server.Go.Float.{Floats}
use metrics_server.Go.Result.{ok, Result-cases}
use metrics_server.Kube.{Node}
use metrics_server.Resolver.{node_address}
use metrics_server.Resolver.Preferred.{IsPreferred, node_address-IsPreferred}
use metrics_server.Storage.Types.{MetricsBatch}
use metrics_server.Decode.{decode_batch}
use metrics_server.Decode.Kept.{AllPoints, AllPods}
use metrics_server.Decode.Complete.{IsComplete, decode_batch-AllComplete}
use metrics_server.Client.{
  Http, HttpResponse, Url, KubeletClient, choose_port, get_url, get_metrics,
}

abbrev pub url_of : KubeletClient → Node → GoString → Url
url_of kc node address = record {
  scheme = kc.scheme;
  host = address;
  port = choose_port kc node;
  path = str "/metrics/resource";
}

module _ {E F : Type 0} (http : Http E F) (fl : Floats F) where
  get_url_inv :
      (url : Url) (node_name : GoString) (t : Time) (batch : MetricsBatch)
      → get_url http fl url node_name t ≡ ok batch
      → (request : Url) × (response : HttpResponse) × (body : GoString) × (http.new_request url
          ≡ ok request)
        × (http.send request ≡ ok response)
        × (response.status_code ≡ 200)
        × (response.body ≡ ok body)
        × (decode_batch fl (http.parse body) (http.from_time t) node_name ≡ ok batch)
  unfolding get_url
  get_url_inv url node_name t batch h = elim (Result-cases (http.new_request url)) [
    | inl (e, bad) ↦ absurd (ground arith)
    | inr (request, made) ↦ elim (Result-cases (http.send request)) [
      | inl (e, bad) ↦ absurd (ground arith)
      | inr (response, sent) ↦ elim (Bool-cases (eqb response.status_code 200)) [
        | inr bad ↦ absurd (ground arith)
        | inl good ↦ elim (Result-cases response.body) [
          | inl (e, bad) ↦ absurd (ground arith)
          | inr (body, read) ↦
              (request, response, body, made, sent, ground arith, read, ground arith)
        ]
      ]
    ]
  ]

module _ {E F : Type 0} (http : Http E F) (fl : Floats F) (kc : KubeletClient) (node : Node)
    (t : Time) where
  -- The exchange behind a batch: one request to the preferred address, which is answered with
  -- status 200 and a body that decodes to the batch.
  pub record IsAnswer (batch : MetricsBatch) : Type 0 where
    pub address : GoString
    pub preferred : IsPreferred kc.address_type_priority node.addresses address
    pub request : Url
    pub requested : http.new_request (url_of kc node address) ≡ ok request
    pub response : HttpResponse
    pub sent : http.send request ≡ ok response
    pub status_ok : response.status_code ≡ 200
    pub body : GoString
    pub read : response.body ≡ ok body
    pub decoded : decode_batch fl (http.parse body) (http.from_time t) node.name ≡ ok batch

  -- A batch that GetMetrics returns comes from one request to the preferred address of the node,
  -- at the chosen port, which is answered with status 200 and a body that decodes to the batch; the
  -- points of the batch are complete.
  pub get_metrics-IsAnswer :
      (batch : MetricsBatch)
      → get_metrics http fl kc node t ≡ ok batch
      → IsAnswer batch × (AllPoints IsComplete batch.nodes × AllPods IsComplete batch.pods)
  unfolding get_metrics
  get_metrics-IsAnswer batch h = elim (Result-cases (node_address kc.address_type_priority node)) [
    | inl (e, missing) ↦ absurd (ground arith)
    | inr (addr, found) ↦
        let x = get_url_inv http fl (url_of kc node addr) node.name t batch (ground arith) in
        (
          record {
            address = addr;
            preferred = (node_address-IsPreferred kc.address_type_priority node).0 addr found;
            request = x.0;
            requested = x.3;
            response = x.1;
            sent = x.4;
            status_ok = x.5;
            body = x.2;
            read = x.6;
            decoded = x.7;
          },
          decode_batch-AllComplete fl (http.parse x.2) (http.from_time t) node.name batch x.7,
        )
  ]
