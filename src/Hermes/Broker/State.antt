-- ===== src/Hermes/Broker/State.antt =====
-- internal/hermes/broker.go: the broker's state.
-- A `*BrokerWorker` is an index into `heap`: the map `workers` and the lists of the services share
-- the workers that it holds. An operation returns the new broker beside Go's `error`. Counters do not
-- wrap.
use lucas.Base.{ℕ, ◌*◌, Bool, false, String, List, [], Option, Map, get_or}
use lucas.Hermes.Protocol.{Bytes, BrokerStats, second, get_mdp_heartbeat_expiry}
use lucas.Hermes.Wire.{Msg}

pub record PendingRequest : Type 0 where
  pub client_id : String
  pub message_id : String
  pub service : String
  pub body : Bytes
  pub timestamp : ℕ

pub record BrokerWorker : Type 0 where
  pub identity : String
  pub service : String
  pub address : String
  pub expiry : ℕ
  pub last_ping : ℕ
  pub status : String
  pub liveness : ℕ
  pub requests : ℕ

pub record BrokerService : Type 0 where
  pub name : String
  pub description : String
  pub workers : List ℕ
  pub requests : List PendingRequest
  pub waiting : List ℕ

-- `has_socket`: the socket is not nil. `sent` are the messages that it took,
-- oldest first, and `calls` counts the calls of `Send`.
-- `has_gateway`: the gateway's broker service is set; `handed` are the device lists it was given.
pub record Broker : Type 0 where
  pub address : String
  pub has_socket : Bool
  pub sent : List Msg
  pub calls : ℕ
  pub services : Map BrokerService
  pub heap : List BrokerWorker
  pub workers : Map ℕ
  pub clients : Map ℕ
  pub heartbeat : ℕ
  pub stats : BrokerStats
  pub has_gateway : Bool
  pub handed : List (String × Bytes)

pub data BrokerError : Type 0 where
  empty_message_parts unknown_message_format : BrokerError
  worker_event_channel_full client_event_channel_full : BrokerError
  unknown_worker_command unknown_client_command worker_not_found : String → BrokerError
  client_send_failed worker_send_failed : String → BrokerError
  heartbeat_failed reregistration_failed : String → BrokerError
  missing_delimiter unknown_sender_format : String → BrokerError
  unknown_worker_event unknown_client_event : String → BrokerError
  insufficient_parts : ℕ → BrokerError
  forward_failed : BrokerError → BrokerError

abbrev pub Outcome : Type 0
Outcome = Broker × Option BrokerError

abbrev pub no_stats : ℕ → BrokerStats
no_stats now = record {
  services = 0;
  workers = 0;
  requests = 0;
  responses = 0;
  heartbeats_received = 0;
  heartbeats_sent = 0;
  start_time = now;
  last_request = 0;
  last_heartbeat = 0;
}

unfoldable pub new_broker : String → ℕ → Broker
new_broker address now = record {
  address = address;
  has_socket = false;
  sent = [];
  calls = 0;
  services = [];
  heap = [];
  workers = [];
  clients = [];
  heartbeat = get_mdp_heartbeat_expiry;
  stats = no_stats now;
  has_gateway = false;
  handed = [];
}

-- What an index outside the heap reads as; no operation makes such a pointer.
abbrev pub zero_worker : BrokerWorker
zero_worker = record {
  identity = "";
  service = "";
  address = "";
  expiry = 0;
  last_ping = 0;
  status = "";
  liveness = 0;
  requests = 0;
}

abbrev pub deref : Broker → ℕ → BrokerWorker
deref b p = get_or b.heap p zero_worker

abbrev pub hub_control : String
hub_control = "hub.control"

abbrev pub gateway_main : String
gateway_main = "gateway_main"

abbrev pub grace_period : ℕ
grace_period = 30 * second
