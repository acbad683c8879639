-- ===== src/Gateway/Operations.antt =====
-- internal/gateway: every operation that writes to the database keeps its keys.
use lucas.Base.{none, some, Option, ℕ, String, List, [], ◌∷◌}
use lucas.Hermes.Protocol.{Items, nil, cons, Json, null, obj, Fields}
use lucas.Gateway.Store.{Device, Database, Faults}
use lucas.Gateway.Hubs.{create_hub, register_hub, claim_hub}
use lucas.Gateway.Presence.{ensure_hub_exists, update_hub_status}
use lucas.Gateway.Devices.{
  create_device, get_device, get_hub_devices, update_device_status, update_devices_user_id,
  delete_device,
}
use lucas.Gateway.Users.{create_user_with_password, get_user}
use lucas.Gateway.DeviceList.{
  register_listed, register_items, register_item, register_device, store_device_list,
}
use lucas.Gateway.Service.{update_all, update_hub_devices_status, update_active_hubs}
use lucas.Gateway.Integrity.{IsKeyed, Keeps, pure-Keeps, >>-Keeps}
use lucas.Gateway.Writes.{
  insert_user-Keeps, update_devices-Keeps, replace_device-Keeps, delete_devices-Keeps,
}
use lucas.Gateway.HubKeeping.{
  rules, get_hub_by_hub_id-Keeps, create_hub-Keeps, register_hub-Keeps, claim_hub-Keeps,
  ensure_hub_exists-Keeps, update_hub_status-Keeps,
}

module _ (faults : Faults) where
  get_device-Keeps : (id : ℕ) → Keeps (get_device faults id)
  unfolding get_device
  get_device-Keeps id = search rules

  create_device-Keeps :
      (now hub_id : ℕ) (device_id kind name model address : String) (capabilities : List String)
      → Keeps (create_device faults now hub_id device_id kind name model address capabilities)
  unfolding create_device
  create_device-Keeps now hub_id device_id kind name model address capabilities =
      search (rules, replace_device-Keeps, get_device-Keeps)

  update_device_status-Keeps :
      (device_id status : String) → Keeps (update_device_status faults device_id status)
  unfolding update_device_status
  update_device_status-Keeps device_id status = search (rules, update_devices-Keeps)

  update_devices_user_id-Keeps :
      (hub_id user_id : ℕ) → Keeps (update_devices_user_id faults hub_id user_id)
  unfolding update_devices_user_id
  update_devices_user_id-Keeps hub_id user_id = search (rules, update_devices-Keeps)

  delete_device-Keeps : (id : ℕ) → Keeps (delete_device faults id)
  unfolding delete_device
  delete_device-Keeps id = search (rules, delete_devices-Keeps)

  get_user-Keeps : (id : ℕ) → Keeps (get_user faults id)
  unfolding get_user
  get_user-Keeps id = search rules

  create_user_with_password-Keeps :
      (now : ℕ) (api_key username email password_hash : String)
      → Keeps (create_user_with_password faults now api_key username email password_hash)
  unfolding create_user_with_password
  create_user_with_password-Keeps now api_key username email password_hash =
      search (rules, insert_user-Keeps, get_user-Keeps)

  register_device-Keeps :
      (now hub_row : ℕ) (fields : Fields) → Keeps (register_device faults now hub_row fields)
  unfolding register_device
  register_device-Keeps now hub_row fields =
      search (rules, create_device-Keeps, update_device_status-Keeps)

  register_item-Keeps : (now hub_row : ℕ) (j : Json) → Keeps (register_item faults now hub_row j)
  unfolding register_item
  register_item-Keeps now hub_row (obj fields) = register_device-Keeps now hub_row fields
  register_item-Keeps now hub_row null = pure-Keeps tt
  register_item-Keeps now hub_row j = pure-Keeps tt

  register_items-Keeps :
      (now hub_row : ℕ) (items : Items) → Keeps (register_items faults now hub_row items)
  unfolding register_items
  register_items-Keeps now hub_row nil = pure-Keeps tt
  register_items-Keeps now hub_row (cons j rest) =
      search (rules, register_item-Keeps now hub_row j, register_items-Keeps now hub_row rest)

  register_listed-Keeps :
      (now hub_row : ℕ) (o : Option Items) → Keeps (register_listed faults now hub_row o)
  unfolding register_listed
  register_listed-Keeps now hub_row none = pure-Keeps tt
  register_listed-Keeps now hub_row (some items) = register_items-Keeps now hub_row items

  store_device_list-Keeps :
      (now : ℕ) (hub_id : String) (content : Json)
      → Keeps (store_device_list faults now hub_id content)
  unfolding store_device_list
  store_device_list-Keeps now hub_id content =
      search (rules, register_listed-Keeps, get_hub_by_hub_id-Keeps)

  get_hub_devices-Keeps : (id : ℕ) → Keeps (get_hub_devices faults id)
  unfolding get_hub_devices
  get_hub_devices-Keeps id = search rules

  update_all-Keeps : (status : String) (vs : List Device) → Keeps (update_all faults status vs)
  unfolding update_all
  update_all-Keeps status [] = pure-Keeps tt
  update_all-Keeps status (v ∷ vs) =
      >>-Keeps _ _ (search (rules, update_device_status-Keeps)) (update_all-Keeps status vs)

  update_hub_devices_status-Keeps :
      (hub_id status : String) → Keeps (update_hub_devices_status faults hub_id status)
  unfolding update_hub_devices_status
  update_hub_devices_status-Keeps hub_id status =
      search (rules, get_hub_by_hub_id-Keeps, get_hub_devices-Keeps, update_all-Keeps)

  update_active_hubs-Keeps :
      (now : ℕ) (ids : List String) → Keeps (update_active_hubs faults now ids)
  unfolding update_active_hubs
  update_active_hubs-Keeps now [] = pure-Keeps tt
  update_active_hubs-Keeps now (id ∷ ids) =
      >>-Keeps _ _ (search (rules, update_hub_status-Keeps)) (update_active_hubs-Keeps now ids)

-- What the gateway does to its database: the API's writes, a device list, a hub that leaves, and
-- the check of the active hubs.
pub data Operation : Type 0 where
  creates_user : ℕ → String → String → String → String → Operation
  creates_hub : ℕ → ℕ → String → String → String → String → Operation
  registers_hub : ℕ → String → String → String → String → Operation
  claims_hub : String → ℕ → Operation
  ensures_hub : ℕ → String → Operation
  updates_hub_status : ℕ → String → String → Operation
  creates_device : ℕ → ℕ → String → String → String → String → String → List String → Operation
  updates_device_status : String → String → Operation
  updates_devices_user_id : ℕ → ℕ → Operation
  deletes_device : ℕ → Operation
  stores_device_list : ℕ → String → Json → Operation
  updates_hub_devices_status : String → String → Operation
  updates_active_hubs : ℕ → List String → Operation

module _ (faults : Faults) where
  unfoldable pub apply : Operation → Database → Database
  apply (creates_user now key name email hash) d =
      (create_user_with_password faults now key name email hash d).1
  apply (creates_hub now user id name key endpoint) d =
      (create_hub faults now user id name key endpoint d).1
  apply (registers_hub now id key name product) d =
      (register_hub faults now id key name product d).1
  apply (claims_hub id user) d = (claim_hub faults id user d).1
  apply (ensures_hub now id) d = (ensure_hub_exists faults now id d).1
  apply (updates_hub_status now id status) d = (update_hub_status faults now id status d).1
  apply (creates_device now hub id kind name model address caps) d =
      (create_device faults now hub id kind name model address caps d).1
  apply (updates_device_status id status) d = (update_device_status faults id status d).1
  apply (updates_devices_user_id hub user) d = (update_devices_user_id faults hub user d).1
  apply (deletes_device id) d = (delete_device faults id d).1
  apply (stores_device_list now id content) d = (store_device_list faults now id content d).1
  apply (updates_hub_devices_status id status) d = (update_hub_devices_status faults id status d).1
  apply (updates_active_hubs now ids) d = (update_active_hubs faults now ids d).1

  unfoldable pub apply_all : List Operation → Database → Database
  unfolding apply
  apply_all [] d = d
  apply_all (o ∷ os) d = apply_all os (apply o d)

  apply-IsKeyed : (o : Operation) (d : Database) → IsKeyed d → IsKeyed (apply o d)
  unfolding apply
  apply-IsKeyed (creates_user now key name email hash) d k =
      (create_user_with_password-Keeps faults now key name email hash).kept d k
  apply-IsKeyed (creates_hub now user id name key endpoint) d k =
      (create_hub-Keeps faults now user id name key endpoint).kept d k
  apply-IsKeyed (registers_hub now id key name product) d k =
      (register_hub-Keeps faults now id key name product).kept d k
  apply-IsKeyed (claims_hub id user) d k = (claim_hub-Keeps faults id user).kept d k
  apply-IsKeyed (ensures_hub now id) d k = (ensure_hub_exists-Keeps faults now id).kept d k
  apply-IsKeyed (updates_hub_status now id status) d k =
      (update_hub_status-Keeps faults now id status).kept d k
  apply-IsKeyed (creates_device now hub id kind name model address caps) d k =
      (create_device-Keeps faults now hub id kind name model address caps).kept d k
  apply-IsKeyed (updates_device_status id status) d k =
      (update_device_status-Keeps faults id status).kept d k
  apply-IsKeyed (updates_devices_user_id hub user) d k =
      (update_devices_user_id-Keeps faults hub user).kept d k
  apply-IsKeyed (deletes_device id) d k = (delete_device-Keeps faults id).kept d k
  apply-IsKeyed (stores_device_list now id content) d k =
      (store_device_list-Keeps faults now id content).kept d k
  apply-IsKeyed (updates_hub_devices_status id status) d k =
      (update_hub_devices_status-Keeps faults id status).kept d k
  apply-IsKeyed (updates_active_hubs now ids) d k =
      (update_active_hubs-Keeps faults now ids).kept d k

  -- Whatever statements fail: any operations, in any order, keep the keys of the tables. The row
  -- ids of users, hubs and devices ascend up to the last that was given; no two users have one name
  -- or one API key, no two hubs one hub id, and no two devices of a hub one device id.
  pub apply_all-IsKeyed :
      (os : List Operation) (d : Database) → IsKeyed d → IsKeyed (apply_all os d)
  unfolding apply_all
  apply_all-IsKeyed [] d k = k
  apply_all-IsKeyed (o ∷ os) d k = apply_all-IsKeyed os (apply o d) (apply-IsKeyed o d k)
