-- ===== src/Hermes/Client/State.antt =====
-- internal/hermes/client.go: the client's state. A pointer to a PendingClientRequest is an index
-- into `heap`, which the two maps and the waiting goroutines share. Counters do not wrap;
-- durations are nanoseconds. The average latency, a float64, is the fraction that it rounds.
use lucas.Base.{
  ℕ, ◌+◌, ◌*◌, Bool, true, false, ◌||◌, String, List, [], ◌∷◌, ◌++◌, Option, none, some, Map,
  if◌then◌else◌, get_or, modify, length, drop, ltb, decimal, contains_text,
}
use Prim.Native.String
use lucas.Hermes.Protocol.{Bytes, second}
use lucas.Hermes.Wire.{Msg}
use lucas.Hermes.Client.Channel.{Channel, open_channel}

-- What a caller gets; `failed_after` carries the retries.
pub data ClientError : Type 0 where
  client_shutting_down request_timeout socket_not_initialized : ClientError
  timeout_after failed_after : ℕ → ClientError
  service_error send_failed dial_failed : String → ClientError

-- What goes to the error loop.
pub data LoopError : Type 0 where
  received : String → LoopError
  malformed_message : ℕ → LoopError
  missing_delimiter : LoopError

pub record PendingClientRequest : Type 0 where
  pub message_id : String
  pub service : String
  pub body : Bytes
  pub response : Option (Channel Bytes)
  pub error : Option (Channel ClientError)
  pub timestamp : ℕ
  pub timeout : ℕ
  pub nonce : String
  pub fire_and_forget : Bool

pub record ClientStats : Type 0 where
  pub requests_sent : ℕ
  pub responses_received : ℕ
  pub requests_failed : ℕ
  pub requests_timeout : ℕ
  pub last_request : ℕ
  pub last_response : ℕ
  pub start_time : ℕ
  pub average_latency : ℕ × ℕ

-- `sent` are the messages that the sockets took, oldest first; `calls` and `dials` count the calls
-- of `Send` and `Dial`. `messages` and `errors` are the contents of messagesCh and errorsCh, and
-- `asked` says that reconnectCh, of capacity 1, is full. `cancelled`: the context is done.
pub record HermesClient : Type 0 where
  pub has_socket : Bool
  pub sent : List Msg
  pub calls : ℕ
  pub dials : ℕ
  pub timeout : ℕ
  pub retries : ℕ
  pub pending : Map ℕ
  pub pending_nonces : Map ℕ
  pub heap : List PendingClientRequest
  pub stats : ClientStats
  pub latencies : List ℕ
  pub cancelled : Bool
  pub messages : List Msg
  pub errors : List LoopError
  pub asked : Bool

unfoldable pub new_client : ℕ → HermesClient
new_client now = record {
  has_socket = false;
  sent = [];
  calls = 0;
  dials = 0;
  timeout = 30 * second;
  retries = 3;
  pending = [];
  pending_nonces = [];
  heap = [];
  stats = record {
    requests_sent = 0;
    responses_received = 0;
    requests_failed = 0;
    requests_timeout = 0;
    last_request = 0;
    last_response = 0;
    start_time = now;
    average_latency = (0, 1);
  };
  latencies = [];
  cancelled = false;
  messages = [];
  errors = [];
  asked = false;
}

unfoldable pub set_timeout : HermesClient → ℕ → HermesClient
set_timeout c timeout = record c { timeout = timeout }

unfoldable pub set_retries : HermesClient → ℕ → HermesClient
set_retries c retries = record c { retries = retries }

unfoldable pub get_stats : HermesClient → ClientStats
get_stats c = c.stats

unfoldable pub is_connected : HermesClient → Bool
is_connected c = c.has_socket

unfoldable pub get_pending_count : HermesClient → ℕ
get_pending_count c = length c.pending

-- A request as its callers make it, with both channels open and empty.
abbrev pub waiting_request : String → String → Bytes → ℕ → ℕ → PendingClientRequest
waiting_request message_id service body now timeout = record {
  message_id = message_id;
  service = service;
  body = body;
  response = some (open_channel Bytes);
  error = some (open_channel ClientError);
  timestamp = now;
  timeout = timeout;
  nonce = "";
  fire_and_forget = false;
}

-- A request that nobody waits for: it has no channels.
abbrev pub forgotten_request : String → String → Bytes → ℕ → String → PendingClientRequest
forgotten_request message_id service body now nonce = record {
  message_id = message_id;
  service = service;
  body = body;
  response = none;
  error = none;
  timestamp = now;
  timeout = 5 * second;
  nonce = nonce;
  fire_and_forget = true;
}

-- What an index outside the heap reads as; no operation makes such a pointer.
abbrev pub zero_request : PendingClientRequest
zero_request = forgotten_request "" "" "" 0 ""

abbrev pub deref : HermesClient → ℕ → PendingClientRequest
deref c p = get_or c.heap p zero_request

abbrev pub assign : HermesClient → ℕ → PendingClientRequest → HermesClient
assign c p r = record c { heap = modify c.heap p (λ _. r) }

abbrev pub sum : List ℕ → ℕ
sum [] = 0
sum (n ∷ ns) = n + sum ns

-- The oldest latency goes when there are more than 100.
abbrev pub trim : List ℕ → List ℕ
trim ls = if ltb 100 (length ls) then drop 1 ls else ls

unfoldable pub record_latency : HermesClient → ℕ → HermesClient
record_latency c latency =
    let kept = trim (c.latencies ++ latency ∷ []) in
    record c {
      latencies = kept;
      stats = record (c.stats) { average_latency = (sum kept, length kept) };
    }

-- `err.Error()`.
unfoldable pub error_text : LoopError → String
error_text (received text) = text
error_text (malformed_message n) =
    String.◌++◌ "received malformed message (insufficient parts): " (decimal n)
error_text missing_delimiter = "received message without empty delimiter"

unfoldable pub is_connection_error : String → Bool
is_connection_error text =
    contains_text text "connection"
    || contains_text text "network"
    || contains_text text "broken pipe"
    || contains_text text "socket"
    || contains_text text "peer"
    || contains_text text "closed"
    || contains_text text "reset"
