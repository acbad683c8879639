-- ===== src/Hermes/Message.antt =====
-- internal/hermes/message.go: the builders of messages and their validation. An error is a value
-- that carries what its text prints. What `encoding/json` does is a parameter of the broker, and
-- message ids and random nonces come from the clock and the system: they are arguments.
pub mod Validity
use lucas.Base.{pos, Bool, true, false, String, Option, none, some, ◌==◌, str_dec, if◌then◌else◌}
use lucas.Hermes.Protocol.{
  Bytes, Json, WorkerMessage, ClientMessage, ServiceRequest, ServiceResponse, hermes_worker,
  hermes_client, hermes_ready, hermes_reply, hermes_heartbeat, hermes_disconnect, hermes_req,
}

pub build_worker_ready : String → WorkerMessage
build_worker_ready service = record {
  protocol = hermes_worker;
  command = hermes_ready;
  service = service;
  body = "";
  client_id = "";
}

pub build_worker_reply : String → Bytes → WorkerMessage
build_worker_reply client_id body = record {
  protocol = hermes_worker;
  command = hermes_reply;
  service = "";
  body = body;
  client_id = client_id;
}

pub build_worker_heartbeat : WorkerMessage
build_worker_heartbeat = record {
  protocol = hermes_worker;
  command = hermes_heartbeat;
  service = "";
  body = "";
  client_id = "";
}

pub build_worker_disconnect : WorkerMessage
build_worker_disconnect = record {
  protocol = hermes_worker;
  command = hermes_disconnect;
  service = "";
  body = "";
  client_id = "";
}

pub build_client_request : String → String → Bytes → ClientMessage
build_client_request service message_id body = record {
  protocol = hermes_client;
  command = hermes_req;
  service = service;
  body = body;
  message_id = message_id;
}

-- The id that `GenerateMessageID` draws from the clock, and the payload that `json.Marshal`
-- returns, are arguments.
unfoldable pub create_service_request : String → String → String → Bytes → ServiceRequest
create_service_request message_id service action payload = record {
  message_id = message_id;
  service = service;
  action = action;
  payload = payload;
  nonce = "";
  timeout = pos 0;
}

-- `err.Error()`, or no text without an error.
unfoldable pub error_text : Option String → String
error_text none = ""
error_text (some text) = text

unfoldable pub create_service_response :
    String → String → Bool → Json → Option String → ServiceResponse
unfolding error_text
create_service_response message_id service success content err = record {
  message_id = message_id;
  service = service;
  success = success;
  content = content;
  error = error_text err;
  nonce = "";
}

unfoldable pub create_service_response_with_nonce :
    String → String → String → Bool → Json → Option String → ServiceResponse
unfolding error_text
create_service_response_with_nonce message_id service nonce success content err = record {
  message_id = message_id;
  service = service;
  success = success;
  content = content;
  error = error_text err;
  nonce = nonce;
}

pub data MessageError : Type 0 where
  unknown_message_type service_required_ready client_id_required : MessageError
  service_required_req message_id_required_req : MessageError
  message_id_required service_required action_required : MessageError
  invalid_protocol unknown_worker_command unknown_client_command : String → MessageError

unfoldable pub validate_worker_message : WorkerMessage → Option MessageError
validate_worker_message msg =
    if msg.protocol == hermes_worker
    then (if msg.command == hermes_ready
        then (if msg.service == "" then some service_required_ready else none)
        else if msg.command == hermes_reply
        then (if msg.client_id == "" then some client_id_required else none)
        else if msg.command == hermes_heartbeat
        then none
        else if msg.command == hermes_disconnect
        then none
        else some (unknown_worker_command msg.command))
    else some (invalid_protocol msg.protocol)

unfoldable pub validate_client_message : ClientMessage → Option MessageError
validate_client_message msg =
    if msg.protocol == hermes_client
    then (if msg.command == hermes_req
        then (if msg.service == ""
            then some service_required_req
            else if msg.message_id == ""
            then some message_id_required_req
            else none)
        else some (unknown_client_command msg.command))
    else some (invalid_protocol msg.protocol)

unfoldable pub validate_service_request : ServiceRequest → Option MessageError
validate_service_request req =
    if req.message_id == ""
    then some message_id_required
    else if req.service == ""
    then some service_required
    else if req.action == ""
    then some action_required
    else none

-- The types that `ValidateMessage` switches on.
pub data AnyMessage : Type 0 where
  worker : WorkerMessage → AnyMessage
  client : ClientMessage → AnyMessage
  request : ServiceRequest → AnyMessage
  other : AnyMessage

unfoldable pub validate_message : AnyMessage → Option MessageError
unfolding validate_worker_message validate_client_message validate_service_request
validate_message (worker m) = validate_worker_message m
validate_message (client m) = validate_client_message m
validate_message (request m) = validate_service_request m
validate_message other = some unknown_message_type
