-- ===== src/Hermes/Worker/State.antt =====
-- internal/hermes/worker.go: the worker's state. Counters do not wrap; durations are nanoseconds.
use lucas.Base.{ℕ, ◌*◌, Bool, true, false, String, List, [], Option, ℤ, pos}
use lucas.Hermes.Protocol.{mdp_heartbeat_liveness, get_mdp_heartbeat_interval, second}
use lucas.Hermes.Wire.{Msg}

pub data WorkerState : Type 0 where
  disconnected connecting ready working reconnecting : WorkerState

pub record WorkerStats : Type 0 where
  pub requests_handled : ℕ
  pub requests_failed : ℕ
  pub last_request : ℕ
  pub start_time : ℕ
  pub reconnections : ℕ
  pub current_liveness : ℤ
  pub state : String
  pub heartbeats_sent : ℕ
  pub heartbeats_received : ℕ
  pub last_heartbeat_sent : ℕ
  pub last_heartbeat_received : ℕ

-- `has_socket`: the socket is not nil. `sent` are the messages that its sockets took, oldest
-- first; `calls` and `dials` count the calls of `Send` and `Dial`. `queued` is what waits in
-- `heartbeatCh`, of capacity 10, and `blocked` says that the heartbeat loop waits for room in it;
-- `asked` says that `reconnectCh`, of capacity 1, is full.
pub record HermesWorker : Type 0 where
  pub service : String
  pub identity : String
  pub has_socket : Bool
  pub sent : List Msg
  pub calls : ℕ
  pub dials : ℕ
  pub heartbeat : ℕ
  pub reconnect : ℕ
  pub liveness : ℤ
  pub state : WorkerState
  pub stats : WorkerStats
  pub request_count : ℕ
  pub reconnect_attempt : ℕ
  pub max_reconnect_delay : ℕ
  pub queued : ℕ
  pub blocked : Bool
  pub asked : Bool

pub data WorkerError : Type 0 where
  empty_message_parts malformed_message missing_delimiter unparsed : WorkerError
  no_socket : WorkerError
  invalid_protocol unknown_broker_command : String → WorkerError
  send_failed dial_failed : String → WorkerError
  connect_failed ready_failed : WorkerError → WorkerError

abbrev pub Outcome : Type 0
Outcome = HermesWorker × Option WorkerError

abbrev pub no_stats : ℕ → WorkerStats
no_stats now = record {
  requests_handled = 0;
  requests_failed = 0;
  last_request = 0;
  start_time = now;
  reconnections = 0;
  current_liveness = pos 0;
  state = "";
  heartbeats_sent = 0;
  heartbeats_received = 0;
  last_heartbeat_sent = 0;
  last_heartbeat_received = 0;
}

unfoldable pub new_worker : String → String → ℕ → HermesWorker
new_worker service identity now = record {
  service = service;
  identity = identity;
  has_socket = false;
  sent = [];
  calls = 0;
  dials = 0;
  heartbeat = get_mdp_heartbeat_interval;
  reconnect = 5 * second;
  liveness = pos mdp_heartbeat_liveness;
  state = disconnected;
  stats = no_stats now;
  request_count = 0;
  reconnect_attempt = 0;
  max_reconnect_delay = 60 * second;
  queued = 0;
  blocked = false;
  asked = false;
}

unfoldable pub set_heartbeat : HermesWorker → ℕ → HermesWorker
set_heartbeat w interval = record w { heartbeat = interval }

unfoldable pub set_reconnect_interval : HermesWorker → ℕ → HermesWorker
set_reconnect_interval w interval = record w { reconnect = interval }

unfoldable pub get_state_string : WorkerState → String
get_state_string disconnected = "disconnected"
get_state_string connecting = "connecting"
get_state_string ready = "ready"
get_state_string working = "working"
get_state_string reconnecting = "reconnecting"

unfoldable pub get_stats : HermesWorker → WorkerStats
unfolding get_state_string
get_stats w = record (w.stats) { current_liveness = w.liveness; state = get_state_string w.state }

is_up : WorkerState → Bool
is_up ready = true
is_up working = true
is_up _ = false

unfoldable pub is_connected : HermesWorker → Bool
unfolding is_up
is_connected w = is_up w.state
