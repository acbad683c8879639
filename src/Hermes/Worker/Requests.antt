-- ===== src/Hermes/Worker/Requests.antt =====
-- internal/hermes/worker.go: what the worker does with the messages of the broker.
use lucas.Base.{ℕ, ◌+◌, false, String, List, [], ◌∷◌, Option, none, some, ◌==◌, if◌then◌else◌, pos}
use lucas.Hermes.Protocol.{
  Bytes, WorkerMessage, null, hermes_worker, hermes_request, hermes_heartbeat, hermes_disconnect,
  mdp_heartbeat_liveness,
}
use lucas.Hermes.Message.{create_service_response}
use lucas.Hermes.Wire.{Wire, Msg}
use lucas.Hermes.Worker.State.{
  HermesWorker, Outcome, ready, working, empty_message_parts, unparsed, malformed_message,
  missing_delimiter, invalid_protocol, unknown_broker_command,
}
use lucas.Hermes.Worker.Connection.{
  Reconnection, panicked, already, connected, failed, send_reply, reconnect_to_broker,
}

-- What `Handle` of the request handler returns: a response, or the text of an error.
pub data Reply : Type 0 where
  response : Bytes → Reply
  failure : String → Reply

abbrev pub Handler : Type 0
Handler = Option (Bytes → Reply)

-- A message is handled, with Go's `error`, or the program has panicked.
pub data Handled : Type 0 where
  handled : Outcome → Handled
  crashed : Handled

unfoldable pub ask : Handler → Bytes → Reply
ask none body = failure "no request handler configured"
ask (some handle) body = handle body

unfoldable pub begin_request : ℕ → HermesWorker → HermesWorker
begin_request now v = record v {
  state = working;
  request_count = v.request_count + 1;
  stats = record (v.stats) { last_request = now };
}

count_handled : Reply → HermesWorker → HermesWorker
count_handled (response body) v = record v {
  stats = record (v.stats) { requests_handled = v.stats.requests_handled + 1 };
}
count_handled (failure text) v = record v {
  stats = record (v.stats) { requests_failed = v.stats.requests_failed + 1 };
}

unfoldable pub end_request : Reply → HermesWorker → HermesWorker
unfolding count_handled
end_request reply v = record (count_handled reply v) { state = ready }

-- A frame of its own, if it is not empty, is the body.
unfoldable pub request_body : Bytes → List Bytes → Bytes
request_body body [] = body
request_body body (part ∷ parts) = if part == "" then body else part

module _ (w : Wire) where
  unfoldable pub reply_content : HermesWorker → Reply → Bytes
  unfolding create_service_response
  reply_content v (response body) = body
  reply_content v (failure text) =
      w.encode_response (create_service_response "" v.service false null (some text))

  unfoldable pub handle_request : ℕ → Handler → HermesWorker → String → Bytes → List Bytes → Outcome
  unfolding ask begin_request end_request request_body reply_content send_reply
  handle_request now handler v client_id body parts =
      let reply = ask handler (request_body body parts) in
      send_reply w (end_request reply (begin_request now v)) client_id (reply_content v reply)

  unfoldable pub handle_heartbeat : ℕ → HermesWorker → Outcome
  handle_heartbeat now v = (
    record v {
      stats = record (v.stats) {
        heartbeats_received = v.stats.heartbeats_received + 1;
        last_heartbeat_received = now;
      };
      liveness = pos 10;
    },
    none,
  )

  after_reconnection : Reconnection → Handled
  after_reconnection panicked = crashed
  after_reconnection (already v) = handled (v, none)
  after_reconnection (connected v) = handled (v, none)
  after_reconnection (failed v) = handled (v, none)

  unfoldable pub handle_disconnect : HermesWorker → Handled
  unfolding after_reconnection reconnect_to_broker
  handle_disconnect v = after_reconnection (reconnect_to_broker w v)

  unfoldable pub handle_command : ℕ → Handler → HermesWorker → WorkerMessage → List Bytes → Handled
  unfolding handle_request handle_heartbeat handle_disconnect
  handle_command now handler v msg parts =
      if msg.command == hermes_request
      then handled (handle_request now handler v msg.client_id msg.body parts)
      else if msg.command == hermes_heartbeat
      then handled (handle_heartbeat now v)
      else if msg.command == hermes_disconnect
      then handle_disconnect v
      else handled (v, some (unknown_broker_command msg.command))

  unfoldable pub handle_message : ℕ → Handler → HermesWorker → List Bytes → Handled
  unfolding handle_command
  handle_message now handler v [] = handled (v, some empty_message_parts)
  handle_message now handler v (content ∷ parts) = elim (w.decode_worker content) [
    | none ↦ handled (v, some unparsed)
    | some msg ↦
        if msg.protocol == hermes_worker
        then handle_command now handler v msg parts
        else handled (v, some (invalid_protocol msg.protocol))
  ]

  unfoldable pub process_message : ℕ → Handler → HermesWorker → Msg → Handled
  unfolding handle_message
  process_message now handler v (delimiter ∷ content ∷ parts) =
      if delimiter == ""
      then handle_message now handler (record v { liveness = pos mdp_heartbeat_liveness })
          (content ∷ parts)
      else handled (v, some missing_delimiter)
  process_message now handler v raw = handled (v, some malformed_message)
