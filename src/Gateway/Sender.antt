-- ===== src/Gateway/Sender.antt =====
-- internal/gateway/broker_service.go: SendDeviceCommand. The client's sending is its own model.
use lucas.Base.{pos, ℕ, true, String, Option, none, some}
use lucas.Hermes.Protocol.{Bytes, Json, bool, str, obj, end, field, ServiceRequest}
use lucas.Hermes.Wire.{Wire}
use lucas.Hermes.Client.State.{HermesClient, ClientError}
use lucas.Hermes.Client.Requests.{request_fire_and_forget}
use lucas.Hub.Codec.{Codec}
use lucas.Gateway.Store.{DbError, good, bad, Faults}
use lucas.Gateway.Devices.{find_device_by_id}
use lucas.Gateway.Service.{BrokerService, with_database}

pub data CommandResult : Type 0 where
  accepted : Json → CommandResult
  device_not_found : DbError → CommandResult
  client_not_initialized : CommandResult
  not_encoded : String → CommandResult
  not_sent : ClientError → CommandResult

-- The request that a command becomes.
abbrev pub command_request : Codec → String → String → String → Bytes → ServiceRequest
command_request codec message_id nonce device_id action = record {
  message_id = message_id;
  service = "hub.control";
  action = "execute";
  payload = codec.encode_command device_id action;
  nonce = nonce;
  timeout = pos 0;
}

abbrev pub acceptance : String → String → String → Json
acceptance device_id nonce message_id = obj (
    field "device_id" (str device_id) (
      field "message" (str "Command sent to device") (
        field "message_id" (str message_id)
          (field "nonce" (str nonce) (field "success" (bool true) end)))))

module _ (faults : Faults) where
  module _ (w : Wire) (codec : Codec) where
    abbrev sent_command :
        String
        → String
        → String
        → HermesClient × Option ClientError
        → BrokerService
        → CommandResult × BrokerService
    sent_command device_id nonce message_id (c, none) bs =
        (accepted (acceptance device_id nonce message_id), record bs { client = some c })
    sent_command device_id nonce message_id (c, some e) bs =
        (not_sent e, record bs { client = some c })

    -- `client_id` is the id that the client gives its own message. The hub that is asked for is not
    -- looked at.
    unfoldable pub send_device_command :
        ℕ
        → String
        → String
        → String
        → String
        → Bytes
        → String
        → BrokerService
        → CommandResult × BrokerService
    unfolding find_device_by_id request_fire_and_forget
    send_device_command now nonce message_id client_id hub_id action device_id bs =
        let (r, d) = find_device_by_id faults device_id bs.database in
        elim r [
          | bad e ↦ (device_not_found e, with_database bs d)
          | good found ↦ elim (codec.command_error device_id action) [
            | some e ↦ (not_encoded e, with_database bs d)
            | none ↦ elim bs.client [
              | none ↦ (client_not_initialized, with_database bs d)
              | some c ↦
                  sent_command device_id nonce message_id
                    (request_fire_and_forget w now c client_id "hub.control"
                      (w.encode_request (command_request codec message_id nonce device_id action))
                      nonce)
                    (with_database bs d)
            ]
          ]
        ]
