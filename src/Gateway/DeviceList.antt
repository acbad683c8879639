-- ===== src/Gateway/DeviceList.antt =====
-- internal/gateway/broker_service.go: what the gateway does with the list of devices that a hub
-- sends, and with a hub that appears.
use lucas.Base.{
  not, ◌&&◌, ℕ, Bool, true, false, String, List, [], ◌∷◌, Option, none, some, Map, if◌then◌else◌,
  ◌==◌, ◌||◌, insert, after_prefix,
}
use lucas.Hermes.Protocol.{Bytes, Json, bool, str, arr, obj, Items, nil, cons, Fields, member}
use lucas.Hermes.Wire.{Wire}
use lucas.Gateway.Store.{Database, Answer, good, bad, Action, pure, ◌>>◌, handle, Faults}
use lucas.Gateway.Hubs.{get_hub_by_hub_id}
use lucas.Gateway.Presence.{ensure_hub_exists, update_hub_status}
use lucas.Gateway.Devices.{create_device, update_device_status}

-- The id of a hub in the identity of its worker.
unfoldable pub extract_hub_id_from_worker_identity : String → String
extract_hub_id_from_worker_identity worker_id = elim (after_prefix "hub_" worker_id) [
  | some rest ↦ rest
  | none ↦ worker_id
]

-- `text, _ := m[key].(string)`.
abbrev pub as_text : Option Json → String
as_text (some (str s)) = s
as_text _ = ""

unfoldable pub text_member : String → Fields → String
unfolding member
text_member key fields = as_text (member key fields)

-- The texts among the items.
unfoldable pub texts : Items → List String
texts nil = []
texts (cons (str s) rest) = s ∷ texts rest
texts (cons j rest) = texts rest

abbrev pub as_texts : Option Json → List String
as_texts (some (arr items)) = texts items
as_texts _ = []

abbrev is_given : Option Json → Bool
is_given none = false
is_given (some v) = true

-- An object with "data" and without "devices".
unfoldable pub is_action_response : Json → Bool
unfolding member
is_action_response (obj fields) =
    is_given (member "data" fields) && not (is_given (member "devices" fields))
is_action_response j = false

abbrev is_false : Option Json → Bool
is_false (some (bool false)) = true
is_false _ = false

abbrev as_items : Option Json → Option Items
as_items (some (arr items)) = some items
as_items _ = none

-- The items of the field "devices", unless the object tells of an error.
unfoldable pub listed_devices : Json → Option Items
unfolding member
listed_devices (obj fields) =
    if is_given (member "error" fields) || is_false (member "success" fields)
    then none
    else as_items (member "devices" fields)
listed_devices j = none

-- The status that is stored for a device that its hub lists.
abbrev pub final_status : String → String
final_status status =
    if status == "" then "online" else if status == "unknown" then "online" else status

-- The handlers of the hubs are their ids.
pub record HubDirectory : Type 0 where
  pub database : Database
  pub hub_handlers : Map String

abbrev pub with_database : HubDirectory → Database → HubDirectory
with_database bs d = record bs { database = d }

abbrev registered : String → String → Answer (Unit {0}) × Database → HubDirectory → HubDirectory
registered hub_id actual (good u, d) bs = record bs {
  database = d;
  hub_handlers = insert hub_id actual bs.hub_handlers;
}
registered hub_id actual (bad e, d) bs = with_database bs d

module _ (faults : Faults) where
  -- One device; an error ends its turn, and the loop goes on.
  unfoldable pub register_device : ℕ → ℕ → Fields → Action (Unit {0})
  unfolding text_member texts create_device update_device_status
  register_device now hub_row fields =
      let id = text_member "id" fields in
      let kind = text_member "type" fields in
      let status = final_status (text_member "status" fields) in
      if id == "" || kind == ""
      then pure tt
      else handle
          (create_device faults now hub_row id kind (text_member "name" fields)
            (text_member "model" fields) (text_member "address" fields)
            (as_texts (member "capabilities" fields)))
          (λ device. handle (update_device_status faults id status) pure (λ e. pure tt))
          (λ e. pure tt)

  -- An item that is no object is skipped.
  unfoldable pub register_item : ℕ → ℕ → Json → Action (Unit {0})
  unfolding register_device
  register_item now hub_row (obj fields) = register_device now hub_row fields
  register_item now hub_row j = pure tt

  unfoldable pub register_items : ℕ → ℕ → Items → Action (Unit {0})
  unfolding register_item
  register_items now hub_row nil = pure tt
  register_items now hub_row (cons j rest) =
      register_item now hub_row j >> register_items now hub_row rest

  unfoldable pub register_listed : ℕ → ℕ → Option Items → Action (Unit {0})
  unfolding register_items
  register_listed now hub_row none = pure tt
  register_listed now hub_row (some items) = register_items now hub_row items

  -- An error of the status update is only logged.
  unfoldable pub process_hub_worker_registration : ℕ → String → HubDirectory → HubDirectory
  unfolding extract_hub_id_from_worker_identity ensure_hub_exists update_hub_status
  process_hub_worker_registration now hub_id bs =
      let actual = extract_hub_id_from_worker_identity hub_id in
      registered hub_id actual
        ((ensure_hub_exists faults now actual
            >> handle (update_hub_status faults now actual "online") pure (λ e. pure tt))
          bs.database)
        bs

  -- The devices of a response that is a success and no answer to an action. The hub's row is read
  -- before the data is looked at.
  unfoldable pub store_device_list : ℕ → String → Json → Action (Unit {0})
  unfolding is_action_response listed_devices get_hub_by_hub_id register_listed
  store_device_list now actual content =
      if is_action_response content
      then pure tt
      else handle (get_hub_by_hub_id faults actual)
          (λ hub. register_listed now hub.id (listed_devices content)) (λ e. pure tt)

  module _ (w : Wire) where
    unfoldable pub process_device_list_response : ℕ → String → Bytes → HubDirectory → HubDirectory
    process_device_list_response now hub_id response bs =
        let actual = extract_hub_id_from_worker_identity hub_id in
        let after = process_hub_worker_registration now hub_id bs in
        elim (w.decode_response response) [
          | none ↦ after
          | some resp ↦
              if resp.success
              then with_database after (store_device_list now actual resp.content after.database).1
              else after
        ]
