-- ===== src/Gateway/Commands.antt =====
-- internal/gateway/broker_service.go with internal/hub/worker_service.go: a command of the gateway at
-- the hub.
use lucas.Base.{String, none, some, true, ◌≡◌, ◌≢◌, refl, arith}
use lucas.Hermes.Protocol.{Bytes}
use lucas.Hermes.Message.{validate_message}
use lucas.Hermes.Wire.{Wire}
use lucas.Hub.Codec.{Codec, decoded, response_json}
use lucas.Hub.Lru.{Lru}
use lucas.Hub.NonceCache.{NonceResponse}
use lucas.Hub.DeviceManager.{Devices, process_device_action_with_nonce}
use lucas.Hub.Service.{Times, HubServiceHandler, done, handle, respond}
use lucas.Hub.Resent.{IsExecute, handle-execute}
use lucas.Gateway.Sender.{command_request}

module _ (w : Wire) (codec : Codec) (message_id nonce device_id : String) (action : Bytes) where
  command_request-IsExecute :
      message_id ≢ ""
      → device_id ≢ ""
      → let req = command_request codec message_id nonce device_id action in
        codec.decode_request (w.encode_request req) ≡ some req
        → codec.decode_command (codec.encode_command device_id action) ≡ decoded (device_id, action)
        → IsExecute codec (w.encode_request req) req device_id action
  unfolding validate_message
  command_request-IsExecute identified named reads reads' =
      let service : ◌≢◌ {A = String} "hub.control" "" = λ e. cc in
      let execute : ◌≢◌ {A = String} "execute" "" = λ e. cc in
      record {
        decodes = reads;
        valid = ground (arith, identified, service, execute);
        executes = refl;
        command = reads';
        named = named;
      }

  module _ (l : Lru NonceResponse) (ds : Devices) (t : Times) (h : HubServiceHandler l ds) where
    -- The request that the gateway makes of a command, with an id, a nonce and a device id that are
    -- not empty, reaches the hub's handler, which reads JSON as it was written: the device manager
    -- gets the action for that device under that nonce, and its response is the content of the
    -- hub's answer.
    pub handle-command_request :
        message_id ≢ ""
        → nonce ≢ ""
        → device_id ≢ ""
        → codec.decode_request
            (w.encode_request (command_request codec message_id nonce device_id action))
          ≡ some (command_request codec message_id nonce device_id action)
        → codec.decode_command (codec.encode_command device_id action) ≡ decoded (device_id, action)
        → let req = command_request codec message_id nonce device_id action in
          let o = handle l ds codec w t h (w.encode_request req) in
          let p =
            process_device_action_with_nonce l ds t.looked t.stored h.device_mgr device_id nonce
              action in
          (o.0 ≡ done (w.encode_response (respond req true (response_json p.0) none)))
          × (o.1.device_mgr ≡ p.1)
    handle-command_request identified unique named reads reads' =
        let req = command_request codec message_id nonce device_id action in
        handle-execute l ds codec w t h (w.encode_request req) req device_id action
          (command_request-IsExecute identified named reads reads') unique
