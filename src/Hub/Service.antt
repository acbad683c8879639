-- ===== src/Hub/Service.antt =====
-- internal/hub/worker_service.go: the handler of the service "hub.control". Latencies are kept as
-- they are recorded; their moving average, a float, is their text alone. The error that Handle returns for
-- an answer that cannot be encoded is left out: an answer holds texts and JSON, which encode.
use Prim.Native.String
use lucas.Base.{
  ltb, ℕ, ◌+◌, ◌-◌, Bool, true, false, String, List, [], ◌∷◌, ◌++◌, Option, none, some,
  if◌then◌else◌, ◌==◌, length, contains, decimal,
}
use lucas.Hermes.Protocol.{
  Bytes, Json, null, num, str, arr, obj, Items, nil, cons, end, field, ServiceRequest,
  ServiceResponse,
}
use lucas.Hermes.Message.{
  MessageError, request, validate_message, create_service_response_with_nonce,
}
use lucas.Hermes.Wire.{Wire}
use lucas.Hub.Codec.{Codec, decoded, undecodable, response_json}
use lucas.Hub.Lru.{Lru}
use lucas.Hub.NonceCache.{NonceResponse}
use lucas.Hub.DeviceManager.{
  Devices, DeviceManager, DeviceConfig, process_device_action, process_device_action_with_nonce,
}

-- The parts of the configuration that the service reads.
pub record HubConfig : Type 0 where
  pub hub_id : String
  pub devices : List DeviceConfig

-- `error_rate` is failed over processed.
pub record ServiceHandlerStats : Type 0 where
  pub requests_processed : ℕ
  pub requests_failed : ℕ
  pub last_request : ℕ
  pub latencies : List ℕ
  pub error_rate : ℕ × ℕ

pub data ServiceError : Type 0 where
  bad_request device_id_required : ServiceError
  bad_command : String → ServiceError
  invalid_request : MessageError → ServiceError
  unknown_action : String → ServiceError

-- `err.Error()` where it becomes part of a response.
abbrev pub service_error_text : ServiceError → String
service_error_text (bad_command e) = String.◌++◌ "failed to parse device command: " e
service_error_text device_id_required = "device_id is required"
service_error_text e = ""

pub data Handled (A : Type 0) : Type 0 where
  done : A → Handled A
  failed : ServiceError → Handled A

abbrev pub items_of : List String → Items
items_of [] = nil
items_of (s ∷ rest) = cons (str s) (items_of rest)

-- A device of the list, from its configuration alone.
abbrev pub device_json : DeviceConfig → Json
device_json c = obj (
    field "address" (str c.address) (
      field "capabilities" (arr (items_of c.capabilities)) (
        field "id" (str c.id) (
          field "model" (str c.model) (
            field "name" (str c.model)
              (field "status" (str "unknown") (field "type" (str c.kind) end)))))))

abbrev pub device_items : List DeviceConfig → Items
device_items [] = nil
device_items (c ∷ cs) = cons (device_json c) (device_items cs)

abbrev pub list_json : HubConfig → Json
list_json config = obj (
    field "count" (num (decimal (length config.devices))) (
      field "devices" (arr (device_items config.devices)) (field "hub_id" (str config.hub_id) end)))

-- The keys of a Go map that was used as a set.
abbrev add_once : String → List String → List String
add_once s seen = if contains s seen then seen else s ∷ seen

abbrev add_all : List String → List String → List String
add_all [] seen = seen
add_all (s ∷ rest) seen = add_once s (add_all rest seen)

unfoldable pub all_capabilities : List DeviceConfig → List String
unfolding contains
all_capabilities [] = []
all_capabilities (c ∷ cs) = add_all c.capabilities (all_capabilities cs)

unfoldable pub all_types : List DeviceConfig → List String
unfolding contains
all_types [] = []
all_types (c ∷ cs) = add_once c.kind (all_types cs)

abbrev ids : List DeviceConfig → List String
ids [] = []
ids (c ∷ cs) = c.id ∷ ids cs

abbrev pub info_json : HubConfig → Json
info_json config = obj (
    field "capabilities" (arr (items_of (all_capabilities config.devices))) (
      field "description" (str (String.◌++◌ "Hub control service for " config.hub_id)) (
        field "device_count" (num (decimal (length config.devices))) (
          field "device_ids" (arr (items_of (ids config.devices))) (
            field "device_types" (arr (items_of (all_types config.devices))) (
              field "hub_id" (str config.hub_id)
                (field "service_name" (str "hub.control") (field "version" (str "1.0.0") end))))))))

-- A response to the request, with its id, its service and its nonce.
abbrev pub respond : ServiceRequest → Bool → Json → Option String → ServiceResponse
respond req success content err =
    create_service_response_with_nonce req.message_id req.service req.nonce success content err

-- The times of a call: its start, the look into the cache of nonces, the store there, its end.
pub record Times : Type 0 where
  pub started : ℕ
  pub looked : ℕ
  pub stored : ℕ
  pub ended : ℕ

module _ (l : Lru NonceResponse) (ds : Devices) where
  pub record HubServiceHandler : Type 0 where
    pub device_mgr : DeviceManager l ds
    pub config : HubConfig
    pub stats : ServiceHandlerStats

  unfoldable pub record_error : HubServiceHandler → HubServiceHandler
  record_error h =
      let failures = h.stats.requests_failed + 1 in
      record h {
        stats = record (h.stats) {
          requests_failed = failures;
          error_rate =
              if ltb 0 h.stats.requests_processed
              then (failures, h.stats.requests_processed)
              else h.stats.error_rate;
        };
      }

  abbrev pub record_latency : ℕ → HubServiceHandler → HubServiceHandler
  record_latency latency h = record h {
    stats = record (h.stats) { latencies = h.stats.latencies ++ latency ∷ [] };
  }

  abbrev pub count_processed : ℕ → HubServiceHandler → HubServiceHandler
  count_processed now h = record h {
    stats = record (h.stats) {
      requests_processed = h.stats.requests_processed + 1;
      last_request = now;
    };
  }

  abbrev with_manager : HubServiceHandler → DeviceManager l ds → HubServiceHandler
  with_manager h dm = record h { device_mgr = dm }

  abbrev pub Outcome : Type 0
  Outcome = Handled ServiceResponse × HubServiceHandler

  module _ (codec : Codec) where
    -- Whatever the device answers, the response counts as a success.
    unfoldable pub execute_command :
        Times → HubServiceHandler → ServiceRequest → String → Bytes → Outcome
    execute_command t h req device_id action =
        if req.nonce == ""
        then (let (r, dm) = process_device_action l ds h.device_mgr device_id action in
            (done (respond req true (response_json r) none), with_manager h dm))
        else (let (r, dm) =
              process_device_action_with_nonce l ds t.looked t.stored h.device_mgr device_id
                req.nonce action in
            (done (respond req true (response_json r) none), with_manager h dm))

    unfoldable pub handle_execute_action : Times → HubServiceHandler → ServiceRequest → Outcome
    unfolding execute_command
    handle_execute_action t h req = elim (codec.decode_command req.payload) [
      | undecodable e ↦ (failed (bad_command e), h)
      | decoded (device_id, action) ↦
          if device_id == ""
          then (failed device_id_required, h)
          else execute_command t h req device_id action
    ]

    unfoldable pub handle_list_action : HubServiceHandler → ServiceRequest → Outcome
    handle_list_action h req = (done (respond req true (list_json h.config) none), h)

    abbrev pub status_json : HubServiceHandler → Json
    status_json h = obj (
        field "average_latency_ms" (num (codec.average_text h.stats.latencies)) (
          field "device_count" (num (decimal (length h.config.devices))) (
            field "error_rate" (num (codec.rate_text h.stats.error_rate)) (
              field "hub_id" (str h.config.hub_id) (
                field "last_request" (str (codec.time_text h.stats.last_request)) (
                  field "requests_failed" (num (decimal h.stats.requests_failed)) (
                    field "requests_processed" (num (decimal h.stats.requests_processed))
                      (field "status" (str "healthy") end))))))))

    unfoldable pub handle_status_action : HubServiceHandler → ServiceRequest → Outcome
    handle_status_action h req = (done (respond req true (status_json h) none), h)

    unfoldable pub handle_info_action : HubServiceHandler → ServiceRequest → Outcome
    handle_info_action h req = (done (respond req true (info_json h.config) none), h)

    -- The switch on the action; an unknown one ends the call at once.
    unfoldable pub dispatch : Times → HubServiceHandler → ServiceRequest → Option Outcome
    unfolding handle_execute_action handle_list_action handle_status_action handle_info_action
    dispatch t h req =
        if req.action == "execute"
        then some (handle_execute_action t h req)
        else if req.action == "list"
        then some (handle_list_action h req)
        else if req.action == "status"
        then some (handle_status_action h req)
        else if req.action == "info"
        then some (handle_info_action h req)
        else none

    -- An action's error becomes a response.
    abbrev pub answered : ServiceRequest → Outcome → ServiceResponse × HubServiceHandler
    answered req (done r, h) = (r, h)
    answered req (failed e, h) =
        (respond req false null (some (service_error_text e)), record_error h)

    module _ (w : Wire) where
      abbrev pub reply :
          Times → ServiceResponse × HubServiceHandler → Handled Bytes × HubServiceHandler
      reply t (r, h) = (done (w.encode_response r), record_latency (t.ended - t.started) h)

      -- A request that was decoded and validated.
      unfoldable pub perform :
          Times → HubServiceHandler → ServiceRequest → Handled Bytes × HubServiceHandler
      unfolding dispatch record_error
      perform t h req = elim (dispatch t h req) [
        | none ↦ (failed (unknown_action req.action), record_error h)
        | some o ↦ reply t (answered req o)
      ]

      -- `Handle`: the bytes of the response, or an error.
      unfoldable pub handle : Times → HubServiceHandler → Bytes → Handled Bytes × HubServiceHandler
      unfolding perform record_error
      handle t h bytes =
          let h = count_processed t.started h in
          elim (codec.decode_request bytes) [
            | none ↦ (failed bad_request, record_error h)
            | some req ↦ elim (validate_message (request req)) [
              | some e ↦ (failed (invalid_request e), record_error h)
              | none ↦ perform t h req
            ]
          ]
