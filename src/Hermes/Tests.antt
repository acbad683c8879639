-- ===== src/Hermes/Tests.antt =====
-- internal/hermes: the theorems at concrete inputs, and runs of the code.
use lucas.Base.{
  inl, delete, ◌+◌, arith, str_dec, ◌≤◌, ◌↔◌, insert, false, ◌++◌, true, lookup, ◌≡◌, refl, List,
  [], ◌∷◌, none, some, ◌==◌, if◌then◌else◌,
}
use lucas.Hermes.Wire.{Wire}
use lucas.Hermes.Message.Validity
use lucas.Hermes.Message.Validity.{validate_message_iff}
use lucas.Hermes.Broker.Invariant.{IsWellFormed}
use lucas.Hermes.Message.{validate_message, worker}
use lucas.Hermes.Broker.State.{
  no_stats, PendingRequest, BrokerWorker, BrokerService, Broker, new_broker,
}
use lucas.Hermes.Broker.Routing.{
  client_event, worker_event, route_message_to_channels, WorkerEvent, route_message,
}
use lucas.Hermes.Broker.Handlers.{
  handle_client_request, handle_worker_message, handle_worker_heartbeat, drain,
  handle_client_message,
}
use lucas.Hermes.Broker.Delivery.{take_events-route_message, no_events, take_events}
use lucas.Hermes.Broker.Ticker.{heartbeat_capacity, Manager}
use lucas.Hermes.Broker.Run.{liveness_turn, client_turn, worker_turn, run, Event, managed}
use lucas.Hermes.Broker.Idle.{waiting}
use lucas.Hermes.Protocol.{
  member, hermes_req, hermes_ready, get_mdp_heartbeat_expiry, hermes_client, hermes_heartbeat,
  hermes_worker, WorkerMessage, ClientMessage,
}
use lucas.Hermes.Broker.Invariant.Runs.{run-new_broker-IsWellFormed}
use lucas.Hermes.Broker.Reports.{start}
use lucas.Hermes.Broker.Registry.{check_worker_liveness}
use lucas.Hermes.Broker.Stall.{managed-first_looks, first_looks}
use lucas.Hermes.Broker.Queue.{drain-sent, assignments}
use lucas.Hermes.Broker.Liveness.{lookup-check_worker_liveness, heartbeat_keeps_worker, is_expired}
use lucas.Hermes.Broker.Idle.Runs.{waiting-run, readies}

-- A wire with a few texts: "R" is a READY for the service "job", "B" a reply to "c1" and "Q" a
-- request for "job". The socket takes everything.
abbrev ready_job : WorkerMessage
ready_job = record {
  protocol = hermes_worker;
  command = hermes_ready;
  service = "job";
  body = "";
  client_id = "";
}

abbrev request_job : ClientMessage
request_job = record {
  protocol = hermes_client;
  command = hermes_req;
  service = "job";
  body = "work";
  message_id = "m1";
}

abbrev wire : Wire
wire = record {
  encode_worker = λ m. m.body;
  encode_client = λ m. m.body;
  encode_request = λ r. r.action;
  encode_response = λ r. r.error;
  decode_worker = λ s. if s == "R" then some ready_job else none;
  decode_client = λ s. if s == "Q" then some request_job else none;
  decode_response = λ s. none;
  send = λ n msg. none;
  dial = λ n. none;
}

abbrev one_worker : BrokerWorker
one_worker = record {
  identity = "w1";
  service = "job";
  address = "";
  expiry = 75000000000;
  last_ping = 0;
  status = "ready";
  liveness = 10;
  requests = 0;
}

abbrev pending_job : PendingRequest
pending_job = record {
  client_id = "c1";
  message_id = "m1";
  service = "job";
  body = "work";
  timestamp = 5;
}

abbrev job_service : BrokerService
job_service = record {
  name = "job";
  description = "Service job";
  workers = 0 ∷ [];
  requests = [];
  waiting = 0 ∷ [];
}

-- A broker with a socket after the READY of "w1" for "job" at time 0.
abbrev one : Broker
one = record {
  address = "tcp://*:5555";
  has_socket = true;
  sent = [];
  calls = 0;
  services = ("job", job_service) ∷ [];
  heap = one_worker ∷ [];
  workers = ("w1", 0) ∷ [];
  clients = [];
  heartbeat = get_mdp_heartbeat_expiry;
  stats = no_stats 0;
  has_gateway = false;
  handed = [];
}

program : Unit {0}
unfolding new_broker lookup insert delete str_dec handle_worker_message handle_client_message start
    handle_client_request route_message route_message_to_channels member
program = tt

-- The READY of a new worker makes that broker.
ready_makes_one :
    (route_message wire 0 "id" (start (new_broker "tcp://*:5555" 0) none).0 "w1" ("R" ∷ [])).0 ≡ one
unfolding program
ready_makes_one = refl

-- A request goes to the worker that waits, and a second one is queued.
request_once :
    (handle_client_message wire 5 one "c1" request_job).0.sent ≡ ("w1" ∷ "" ∷ "work" ∷ []) ∷ []
unfolding program
request_once = refl

one-IsWellFormed : IsWellFormed one
unfolding lookup str_dec
one-IsWellFormed = record {
  registered = ((omega arith, refl, λ e. cc), tt);
  listed = ((refl, (omega arith, tt), (omega arith, tt), inl refl), tt);
  distinct = (refl, tt);
}

abbrev heartbeat_event : WorkerEvent
heartbeat_event = record {
  kind = hermes_heartbeat;
  worker_id = "w1";
  service = "";
  client_id = "";
  body = "";
  extra_parts = [];
}

abbrev ready_event : WorkerEvent
ready_event = worker_event "w1" ready_job []

abbrev events : List Event
events =
    worker_turn 0 "id" ready_event
    ∷ client_turn 5 (client_event "c1" request_job)
    ∷ client_turn 6 (client_event "c2" request_job)
    ∷ worker_turn 9 "id" heartbeat_event
    ∷ liveness_turn 200000000000
    ∷ []

validate_message_iff_example :
    (validate_message (worker ready_job) ≡ none) ↔ Validity.IsWellFormed (worker ready_job)
validate_message_iff_example = validate_message_iff (worker ready_job)

run-new_broker-IsWellFormed_example :
    IsWellFormed (run wire (start (new_broker "tcp://*:5555" 0) none).0 events)
run-new_broker-IsWellFormed_example = run-new_broker-IsWellFormed wire "tcp://*:5555" 0 events

take_events-route_message_example :
    take_events wire 0 "id" one (route_message_to_channels wire no_events ("c1" ∷ "" ∷ "Q" ∷ [])).0
    ≡ (route_message wire 0 "id" one "c1" ("Q" ∷ [])).0
take_events-route_message_example = take_events-route_message wire 0 "id" one "c1" "Q"

lookup-check_worker_liveness_example :
    (lookup "w1" (check_worker_liveness 200000000000 one).workers ≡ (
      if is_expired 200000000000 one (lookup "w1" one.workers)
      then none
      else lookup "w1" one.workers))
    × ((check_worker_liveness 200000000000 one).heap ≡ one.heap)
lookup-check_worker_liveness_example =
    lookup-check_worker_liveness 200000000000 one "w1" one-IsWellFormed

heartbeat_keeps_worker_example :
    let b' = (handle_worker_heartbeat wire 60000000000 one "w1").0 in
    lookup "w1" (check_worker_liveness 165000000000 b').workers ≡ some 0
unfolding lookup str_dec
heartbeat_keeps_worker_example =
    heartbeat_keeps_worker wire 60000000000 165000000000 one "w1" 0 one-IsWellFormed refl
      (omega arith)

drain-sent_example :
    let (b', rs', ps') = drain wire (pending_job ∷ pending_job ∷ []) (0 ∷ []) one in
    (b'.sent ≡ one.sent ++ assignments wire one (pending_job ∷ pending_job ∷ []) (0 ∷ []))
    × (rs' ≡ pending_job ∷ [])
    × (ps' ≡ [])
drain-sent_example =
    drain-sent wire (λ n msg. refl) (pending_job ∷ pending_job ∷ []) (0 ∷ []) one refl

waiting-run_example : waiting (run wire one events) "job" ≤ waiting one "job" + readies "job" events
waiting-run_example = waiting-run wire one events "job"

abbrev manager : Manager
manager = record { broker = one; queued = 0; blocked = false }

managed-first_looks_example :
    (managed wire manager events).broker ≡ run wire one (first_looks heartbeat_capacity events)
managed-first_looks_example = managed-first_looks wire manager events refl refl
