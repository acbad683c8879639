-- ===== src/Hermes/Broker/Handlers.antt =====
-- internal/hermes/broker.go: what the broker does with the messages of workers and clients.
-- A handler runs from start to end, and `now` is what its calls of `time.Now` return.
use Prim.Native.String.{◌++◌ as append}
use lucas.Base.{
  ℕ, ◌+◌, false, ◌&&◌, String, List, [], ◌∷◌, ◌++◌, Option, none, some, ◌==◌, if◌then◌else◌, lookup,
  insert,
}
use lucas.Hermes.Protocol.{
  Bytes, null, WorkerMessage, ClientMessage, hermes_ready, hermes_reply, hermes_heartbeat,
  hermes_disconnect, hermes_req,
}
use lucas.Hermes.Message.{create_service_response}
use lucas.Hermes.Wire.{Wire}
use lucas.Hermes.Broker.State.{
  Broker, BrokerService, PendingRequest, Outcome, forward_failed, deref, hub_control, gateway_main,
  unknown_worker_command, unknown_client_command,
}
use lucas.Hermes.Broker.Sends.{
  send_heartbeat_response, send_reregistration_request, send_to_worker, send_to_client,
  send_immediate_device_list_request,
}
use lucas.Hermes.Broker.Registry.{
  register_worker, enlist, remove_worker, is_device_list_response, actual_hub_id,
  process_device_list, count_reply, refresh_worker,
}

-- The first worker of the hub service that is ready.
unfoldable pub ready_hub : Broker → List ℕ → Option ℕ
ready_hub b [] = none
ready_hub b (p ∷ ps) =
    if (deref b p).service == hub_control && (deref b p).status == "ready"
    then some p
    else ready_hub b ps

unfoldable pub pending : ℕ → String → ClientMessage → PendingRequest
pending now client_id msg = record {
  client_id = client_id;
  message_id = msg.message_id;
  service = msg.service;
  body = msg.body;
  timestamp = now;
}

-- The client is known, and its request counted.
unfoldable pub note_client : ℕ → Broker → String → Broker
note_client now b client_id = record b {
  clients = insert client_id now b.clients;
  stats = record (b.stats) { requests = b.stats.requests + 1; last_request = now };
}

abbrev pub wrap_forward : Outcome → (Broker → Outcome) → Outcome
wrap_forward (b, none) k = k b
wrap_forward (b, some e) k = (b, some (forward_failed e))

abbrev pub handle_worker_disconnect : Broker → String → Outcome
handle_worker_disconnect b worker_id = remove_worker b worker_id

-- With the reply in a frame of its own, that frame is the body.
abbrev pub reply_body : WorkerMessage → List Bytes → Bytes
reply_body msg [] = msg.body
reply_body msg (part ∷ parts) = part

module _ (w : Wire) where
  -- While both lists have an element, the first request goes to the first worker, whether or not
  -- the send works. What is left of the lists is returned.
  unfoldable pub drain :
      List PendingRequest → List ℕ → Broker → Broker × List PendingRequest × List ℕ
  unfolding send_to_worker
  drain [] ps b = (b, [], ps)
  drain (r ∷ rs) [] b = (b, r ∷ rs, [])
  drain (r ∷ rs) (p ∷ ps) b =
      drain rs ps (send_to_worker w b (deref b p).identity r.client_id r.body).0

  unfoldable pub process_pending_requests : Broker → String → Broker
  unfolding drain
  process_pending_requests b name = elim (lookup name b.services) [
    | none ↦ b
    | some s ↦
        let (b', requests, waiting) = drain s.requests s.waiting b in
        record b' {
          services = insert name (record s { requests = requests; waiting = waiting }) b'.services;
        }
  ]

  unfoldable pub handle_worker_ready : ℕ → String → Broker → String → String → Outcome
  unfolding register_worker enlist process_pending_requests send_immediate_device_list_request
  handle_worker_ready now message_id b worker_id name =
      let (b', p) = register_worker now b worker_id name in
      let served = process_pending_requests (enlist b' name p) name in
      (
        if name == hub_control
            then send_immediate_device_list_request w message_id served worker_id
            else served,
        none,
      )

  -- A reply of a known worker, once it is counted.
  unfoldable pub route_reply : Broker → ℕ → String → String → Bytes → Outcome
  unfolding is_device_list_response actual_hub_id process_device_list send_to_client
  route_reply b p worker_id client_id reply =
      if client_id == gateway_main
        && ((deref b p).service == hub_control && is_device_list_response (w.decode_response reply))
      then (process_device_list b (actual_hub_id worker_id (w.decode_response reply)) reply, none)
      else send_to_client w b client_id reply

  unfoldable pub handle_worker_reply : ℕ → Broker → String → String → Bytes → Outcome
  unfolding route_reply count_reply send_to_client send_reregistration_request
  handle_worker_reply now b worker_id client_id reply = elim (lookup worker_id b.workers) [
    | none ↦
        wrap_forward (send_to_client w b client_id reply)
          (λ b'. send_reregistration_request w b' worker_id)
    | some p ↦ route_reply (count_reply now b p) p worker_id client_id reply
  ]

  unfoldable pub handle_worker_heartbeat : ℕ → Broker → String → Outcome
  unfolding refresh_worker send_heartbeat_response send_reregistration_request
  handle_worker_heartbeat now b worker_id = elim (lookup worker_id b.workers) [
    | none ↦ send_reregistration_request w b worker_id
    | some p ↦ send_heartbeat_response w (refresh_worker now b p) worker_id
  ]

  -- The error response that a client gets instead of an answer.
  unfoldable pub refuse : Broker → String → ClientMessage → String → Outcome
  unfolding create_service_response send_to_client
  refuse b client_id msg text = send_to_client w b client_id (
      w.encode_response (create_service_response msg.message_id msg.service false null (some text)))

  -- A request to a service other than the hub's: queued, or sent to the first waiting worker.
  unfoldable pub assign : ℕ → Broker → BrokerService → String → ClientMessage → Outcome
  unfolding pending send_to_worker
  assign now b s client_id msg = elim s.waiting [
    | [] ↦ (
      record b {
        services =
            insert msg.service
              (record s { requests = s.requests ++ pending now client_id msg ∷ [] }) b.services;
      },
      none,
    )
    | p ∷ ps ↦
        send_to_worker w
          (record b { services = insert msg.service (record s { waiting = ps }) b.services })
          (deref b p).identity client_id msg.body
  ]

  -- A request to the hub's service goes straight to the worker that is ready, if there is one.
  unfoldable pub ask_hub : Broker → BrokerService → String → ClientMessage → Outcome
  unfolding ready_hub refuse send_to_worker
  ask_hub b s client_id msg = elim (ready_hub b s.workers) [
    | none ↦ refuse b client_id msg "hub worker not available"
    | some p ↦ send_to_worker w b (deref b p).identity client_id msg.body
  ]

  unfoldable pub serve : ℕ → Broker → BrokerService → String → ClientMessage → Outcome
  unfolding ask_hub assign
  serve now b s client_id msg =
      if msg.service == hub_control then ask_hub b s client_id msg else assign now b s client_id msg

  unfoldable pub handle_client_request : ℕ → Broker → String → ClientMessage → Outcome
  unfolding note_client refuse serve
  handle_client_request now b client_id msg =
      let b' = note_client now b client_id in
      elim (lookup msg.service b.services) [
        | none ↦ refuse b' client_id msg (append "service not available: " msg.service)
        | some s ↦ serve now b' s client_id msg
      ]

  unfoldable pub handle_worker_message :
      ℕ → String → Broker → String → WorkerMessage → List Bytes → Outcome
  unfolding handle_worker_ready handle_worker_reply handle_worker_heartbeat remove_worker
  handle_worker_message now message_id b worker_id msg parts =
      if msg.command == hermes_ready
      then handle_worker_ready now message_id b worker_id msg.service
      else if msg.command == hermes_reply
      then handle_worker_reply now b worker_id msg.client_id (reply_body msg parts)
      else if msg.command == hermes_heartbeat
      then handle_worker_heartbeat now b worker_id
      else if msg.command == hermes_disconnect
      then handle_worker_disconnect b worker_id
      else (b, some (unknown_worker_command msg.command))

  unfoldable pub handle_client_message : ℕ → Broker → String → ClientMessage → Outcome
  unfolding handle_client_request
  handle_client_message now b client_id msg =
      if msg.command == hermes_req
      then handle_client_request now b client_id msg
      else (b, some (unknown_client_command msg.command))
