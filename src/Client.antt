-- ===== src/Client.antt =====
-- pkg/scraper/client/resource/client.go: one request to a kubelet. The HTTP client, the reading of
-- a body and the parser of the text format are parameters.
pub mod Answers
pub mod Buffers
pub mod Built
use metrics_server.Prelude.{ℕ, List, Bool, false, not, ◌&&◌, if◌then◌else◌, eqb, GoString, str}
use metrics_server.Prelude.Int.{ℤ}
use metrics_server.Go.Time.{Time}
use metrics_server.Go.Float.{Floats}
use metrics_server.Go.Result.{Result, ok, err, ◌>>=◌, map_err}
use metrics_server.Kube.{Node}
use metrics_server.Resolver.{AddressType, AddressError, node_address}
use metrics_server.Storage.Types.{MetricsBatch}
use metrics_server.Decode.{Response, DecodeError, decode_batch}

-- The parts of a url.URL that the program fills.
pub record Url : Type 0 where
  pub scheme : GoString
  pub host : GoString
  pub port : ℤ
  pub path : GoString

pub data ReadFailure : Type 0 where
  read_failure : ReadFailure

pub record HttpResponse : Type 0 where
  pub status_code : ℕ
  pub body : Result ReadFailure GoString

-- What is not implemented here: http.NewRequest, client.Do, textparse, timestamp.FromTime.
pub record Http (E F : Type 0) : Type 0 where
  pub new_request : Url → Result E Url
  pub send : Url → Result E HttpResponse
  pub parse : GoString → Response F
  pub from_time : Time → ℤ

pub data ClientError (E : Type 0) : Type 0 where
  no_address : AddressError → ClientError E
  transport : E → ClientError E
  bad_status : ℕ → ClientError E
  unreadable : ReadFailure → ClientError E
  -- also a panic of decodeBatch, at which the program would end
  undecodable : DecodeError → ClientError E

-- `kubeletClient`; its pool of buffers is in Buffers.
pub record KubeletClient : Type 0 where
  pub default_port : ℤ
  pub use_node_status_port : Bool
  pub scheme : GoString
  pub address_type_priority : List AddressType

abbrev status_ok : ℕ
status_ok = 200

abbrev pub is_zero_port : ℤ → Bool
is_zero_port (ℤ.pos n) = eqb n 0
is_zero_port (ℤ.negsuc n) = false

unfoldable pub choose_port : KubeletClient → Node → ℤ
choose_port kc node =
    if kc.use_node_status_port && not (is_zero_port node.kubelet_port)
    then node.kubelet_port
    else kc.default_port

module _ {E F : Type 0} (http : Http E F) (fl : Floats F) where
  open http use {new_request, send, parse, from_time}

  abbrev check_status : HttpResponse → Result (ClientError E) HttpResponse
  check_status response =
      if eqb response.status_code status_ok
      then ok response
      else err (bad_status response.status_code)

  -- `request_time` is the reading of `time.Now()` before the request.
  unfoldable pub get_url : Url → GoString → Time → Result (ClientError E) MetricsBatch
  get_url url node_name request_time = do
    request ← map_err transport (new_request url)
    response ← map_err transport (send request)
    good ← check_status response
    body ← map_err unreadable good.body
    map_err undecodable (decode_batch fl (parse body) (from_time request_time) node_name)

  unfoldable pub get_metrics : KubeletClient → Node → Time → Result (ClientError E) MetricsBatch
  unfolding get_url
  get_metrics kc node request_time = do
    addr ← map_err no_address (node_address kc.address_type_priority node)
    get_url
        (record {
          scheme = kc.scheme;
          host = addr;
          port = choose_port kc node;
          path = str "/metrics/resource";
        })
        node.name request_time
