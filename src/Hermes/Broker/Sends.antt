-- ===== src/Hermes/Broker/Sends.antt =====
-- internal/hermes/broker.go: what the broker sends, and how a failed send shows.
use lucas.Base.{◌+◌, String, [], ◌∷◌, ◌++◌, none, some, if◌then◌else◌}
use lucas.Hermes.Protocol.{
  Bytes, WorkerMessage, hermes_worker, hermes_request, hermes_heartbeat, hermes_disconnect,
}
use lucas.Hermes.Message.{create_service_request}
use lucas.Hermes.Wire.{Msg, Wire}
use lucas.Hermes.Broker.State.{
  Broker, BrokerError, Outcome, client_send_failed, worker_send_failed, heartbeat_failed,
  reregistration_failed, hub_control, gateway_main,
}

-- A message from the broker to a worker, with the fields that the literals leave out.
abbrev pub worker_message : String → String → Bytes → WorkerMessage
worker_message command client_id body = record {
  protocol = hermes_worker;
  command = command;
  service = "";
  body = body;
  client_id = client_id;
}

-- The frames of a message to one peer: its address, the empty delimiter, the content.
abbrev pub envelope : String → Bytes → Msg
envelope peer content = peer ∷ "" ∷ content ∷ []

abbrev counting_heartbeat : Broker → Broker
counting_heartbeat b = record b {
  stats = record (b.stats) { heartbeats_sent = b.stats.heartbeats_sent + 1 };
}

abbrev counting_response : Broker → Broker
counting_response b = record b { stats = record (b.stats) { responses = b.stats.responses + 1 } }

abbrev calling : Broker → Broker
calling b = record b { calls = b.calls + 1 }

abbrev appending : Broker → Msg → Broker
appending b msg = record b { sent = b.sent ++ msg ∷ [] }

module _ (w : Wire) where
  -- Sends through the socket if there is one; `after` is what a message that was sent counts, and
  -- `wrap` the error that a failure becomes.
  unfoldable pub post : Broker → Msg → (Broker → Broker) → (String → BrokerError) → Outcome
  post b msg after wrap =
      if b.has_socket
      then (elim (w.send b.calls msg) [
        | none ↦ (after (appending (calling b) msg), none)
        | some e ↦ (calling b, some (wrap e))
      ])
      else (b, none)

  unfoldable pub send_heartbeat_response : Broker → String → Outcome
  unfolding post
  send_heartbeat_response b worker_id =
      post b (envelope worker_id (w.encode_worker (worker_message hermes_heartbeat "" "")))
        counting_heartbeat heartbeat_failed

  -- A DISCONNECT, at which the worker sends READY again.
  unfoldable pub send_reregistration_request : Broker → String → Outcome
  unfolding post
  send_reregistration_request b worker_id =
      post b (envelope worker_id (w.encode_worker (worker_message hermes_disconnect "" "")))
        (λ c. c) reregistration_failed

  unfoldable pub send_to_worker : Broker → String → String → Bytes → Outcome
  unfolding post
  send_to_worker b worker_id client_id body =
      post b (envelope worker_id (w.encode_worker (worker_message hermes_request client_id body)))
        (λ c. c) worker_send_failed

  unfoldable pub send_to_client : Broker → String → Bytes → Outcome
  unfolding post
  send_to_client b client_id body =
      post b (envelope client_id body) counting_response client_send_failed

  -- The request for the hub's devices; its id comes from the clock. A failure is only logged.
  unfoldable pub send_immediate_device_list_request : String → Broker → String → Broker
  unfolding send_to_worker
  send_immediate_device_list_request message_id b hub_id =
      (send_to_worker b hub_id gateway_main
        (w.encode_request (create_service_request message_id hub_control "list" "{}"))).0
