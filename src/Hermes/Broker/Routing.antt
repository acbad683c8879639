-- ===== src/Hermes/Broker/Routing.antt =====
-- internal/hermes/broker.go: from a raw message to its handler, over the two event channels and
-- directly. A channel is the list of what waits in it; a `select` with a default never blocks.
use lucas.Base.{
  ℕ, String, List, [], ◌∷◌, ◌++◌, Option, none, some, ◌==◌, if◌then◌else◌, length, ltb,
}
use lucas.Hermes.Protocol.{
  Bytes, WorkerMessage, ClientMessage, hermes_worker, hermes_client, hermes_ready, hermes_reply,
  hermes_heartbeat, hermes_disconnect, hermes_req,
}
use lucas.Hermes.Wire.{Wire, Msg}
use lucas.Hermes.Broker.State.{
  Broker, BrokerError, Outcome, empty_message_parts, unknown_message_format, insufficient_parts,
  missing_delimiter, unknown_sender_format, worker_event_channel_full, client_event_channel_full,
  unknown_worker_event, unknown_client_event,
}
use lucas.Hermes.Broker.Registry.{remove_worker}
use lucas.Hermes.Broker.Handlers.{
  handle_worker_ready, handle_worker_reply, handle_worker_heartbeat, handle_worker_disconnect,
  handle_worker_message, handle_client_message,
}

pub record WorkerEvent : Type 0 where
  pub kind : String
  pub worker_id : String
  pub service : String
  pub client_id : String
  pub body : Bytes
  pub extra_parts : List Bytes

pub record ClientEvent : Type 0 where
  pub kind : String
  pub client_id : String
  pub service : String
  pub message_id : String
  pub body : Bytes

-- `workerEventsCh` and `clientEventsCh`, each of capacity 100, oldest first.
pub record Channels : Type 0 where
  pub worker_events : List WorkerEvent
  pub client_events : List ClientEvent

abbrev pub event_capacity : ℕ
event_capacity = 100

-- A text that parses as a worker's message of the right protocol.
unfoldable pub worker_of : Wire → Bytes → Option WorkerMessage
worker_of w content = elim (w.decode_worker content) [
  | none ↦ none
  | some m ↦ if m.protocol == hermes_worker then some m else none
]

unfoldable pub client_of : Wire → Bytes → Option ClientMessage
client_of w content = elim (w.decode_client content) [
  | none ↦ none
  | some m ↦ if m.protocol == hermes_client then some m else none
]

abbrev pub worker_event : String → WorkerMessage → List Bytes → WorkerEvent
worker_event sender m extra = record {
  kind = m.command;
  worker_id = sender;
  service = m.service;
  client_id = m.client_id;
  body = m.body;
  extra_parts = extra;
}

abbrev pub client_event : String → ClientMessage → ClientEvent
client_event sender m = record {
  kind = m.command;
  client_id = sender;
  service = m.service;
  message_id = m.message_id;
  body = m.body;
}

abbrev pub Routed : Type 0
Routed = Channels × Option BrokerError

unfoldable pub offer_worker : Channels → WorkerEvent → Routed
offer_worker ch e =
    if ltb (length ch.worker_events) event_capacity
    then (record ch { worker_events = ch.worker_events ++ e ∷ [] }, none)
    else (ch, some worker_event_channel_full)

unfoldable pub offer_client : Channels → ClientEvent → Routed
offer_client ch e =
    if ltb (length ch.client_events) event_capacity
    then (record ch { client_events = ch.client_events ++ e ∷ [] }, none)
    else (ch, some client_event_channel_full)

abbrev pub message_of : ClientEvent → ClientMessage
message_of e = record {
  protocol = hermes_client;
  command = e.kind;
  service = e.service;
  body = e.body;
  message_id = e.message_id;
}

module _ (w : Wire) where
  unfoldable pub route_content : Channels → String → Bytes → List Bytes → Routed
  unfolding worker_of client_of offer_worker offer_client
  route_content ch sender content extra = elim (worker_of w content) [
    | some m ↦ offer_worker ch (worker_event sender m extra)
    | none ↦ elim (client_of w content) [
      | some m ↦ offer_client ch (client_event sender m)
      | none ↦ (ch, some (unknown_sender_format sender))
    ]
  ]

  unfoldable pub route_message_to_channels : Channels → Msg → Routed
  unfolding route_content
  route_message_to_channels ch (sender ∷ delimiter ∷ content ∷ extra) =
      if delimiter == ""
      then route_content ch sender content extra
      else (ch, some (missing_delimiter sender))
  route_message_to_channels ch raw = (ch, some (insufficient_parts (length raw)))

  -- The direct way, without the channels.
  unfoldable pub route_message : ℕ → String → Broker → String → List Bytes → Outcome
  unfolding worker_of client_of handle_worker_message handle_client_message
  route_message now message_id b sender [] = (b, some empty_message_parts)
  route_message now message_id b sender (content ∷ parts) = elim (worker_of w content) [
    | some m ↦ handle_worker_message w now message_id b sender m parts
    | none ↦ elim (client_of w content) [
      | some m ↦ handle_client_message w now b sender m
      | none ↦ (b, some unknown_message_format)
    ]
  ]

  unfoldable pub process_worker_event : ℕ → String → Broker → WorkerEvent → Outcome
  unfolding handle_worker_ready handle_worker_reply handle_worker_heartbeat remove_worker
  process_worker_event now message_id b e =
      if e.kind == hermes_ready
      then handle_worker_ready w now message_id b e.worker_id e.service
      else if e.kind == hermes_reply
      then handle_worker_reply w now b e.worker_id e.client_id e.body
      else if e.kind == hermes_heartbeat
      then handle_worker_heartbeat w now b e.worker_id
      else if e.kind == hermes_disconnect
      then handle_worker_disconnect b e.worker_id
      else (b, some (unknown_worker_event e.kind))

  unfoldable pub process_client_event : ℕ → Broker → ClientEvent → Outcome
  unfolding handle_client_message
  process_client_event now b e =
      if e.kind == hermes_req
      then handle_client_message w now b e.client_id (message_of e)
      else (b, some (unknown_client_event e.kind))
