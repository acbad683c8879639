-- ===== src/Gateway/Devices.antt =====
-- internal/gateway/database.go: the operations on devices and on users. The capabilities, which the
-- table holds as JSON text, are read back as they were written.
use lucas.Base.{ℕ, ◌+◌, Bool, ◌&&◌, String, List, [], ◌∷◌, ◌++◌, nat_eq, if◌then◌else◌, ◌==◌}
use lucas.Gateway.Store.{
  Hub, Device, no_rows, Answer, good, bad, Action, pure, ◌>>=◌, wrap, Faults, statement,
  first_where, select_where, update_where, any_where, delete_where, newest_first,
}
use lucas.Gateway.Hubs.{owned_by}

abbrev pub with_device_id : String → Device → Bool
with_device_id device_id v = v.device_id == device_id

abbrev pub of_hub : ℕ → Device → Bool
of_hub id v = nat_eq v.hub_id id

-- UNIQUE(hub_id, device_id).
abbrev pub same_device : ℕ → String → Device → Bool
same_device hub_id device_id v = nat_eq v.hub_id hub_id && v.device_id == device_id

-- `INSERT OR REPLACE`: the row in the way is deleted first.
unfoldable pub replace_device : Device → Action ℕ
replace_device v d = pure (d.last_device + 1) (record d {
  devices =
      delete_where (same_device v.hub_id v.device_id) d.devices
      ++ record v { id = d.last_device + 1 } ∷ [];
  last_device = d.last_device + 1;
})

abbrev pub with_status : String → Device → Device
with_status status v = record v { status = status }

unfoldable pub update_devices : (Device → Bool) → (Device → Device) → Action (Unit {0})
update_devices p f d = pure tt (record d { devices = update_where p f d.devices })

unfoldable pub delete_devices : (Device → Bool) → Action (Unit {0})
delete_devices p d = pure tt (record d { devices = delete_where p d.devices })

-- The row of the joined table for a device whose hub has that row id.
abbrev pub joined : List Hub → Device → Answer (Device × Hub)
joined hubs v = elim (first_where (λ h. nat_eq h.id v.hub_id) hubs) [
  | bad e ↦ bad e
  | good h ↦ good (v, h)
]

-- The first row of `devices JOIN hubs` for a device id.
unfoldable pub first_joined : String → List Device → List Hub → Answer (Device × Hub)
first_joined device_id [] hubs = bad no_rows
first_joined device_id (v ∷ rest) hubs =
    let later = first_joined device_id rest hubs in
    if with_device_id device_id v
    then (elim (joined hubs v) [ good found ↦ good found | bad e ↦ later ])
    else later

module _ (faults : Faults) where
  unfoldable pub get_device : ℕ → Action Device
  unfolding first_where
  get_device id =
      wrap "failed to get device"
        (statement faults (λ d. (first_where (λ v. nat_eq v.id id) d.devices, d)))

  unfoldable pub create_device :
      ℕ → ℕ → String → String → String → String → String → List String → Action Device
  unfolding delete_where get_device
  create_device now hub_id device_id device_type name model address capabilities = do
    id ← wrap "failed to create/update device" (
        statement faults (
          replace_device (record {
            id = 0;
            hub_id = hub_id;
            device_id = device_id;
            device_type = device_type;
            name = name;
            model = model;
            address = address;
            capabilities = capabilities;
            status = "unknown";
            created_at = now;
          })))
    get_device id

  unfoldable pub get_hub_devices : ℕ → Action (List Device)
  unfolding newest_first select_where
  get_hub_devices hub_id = wrap "failed to query hub devices" (
      statement faults
        (λ d. pure (newest_first (λ v. v.created_at) (select_where (of_hub hub_id) d.devices)) d))

  -- The join with the hubs that the user owns.
  unfoldable pub get_user_devices : ℕ → Action (List Device)
  unfolding newest_first select_where any_where
  get_user_devices user_id = wrap "failed to query user devices" (
      statement faults (λ d.
        pure
          (newest_first (λ v. v.created_at)
            (select_where (λ v. any_where (λ h. nat_eq h.id v.hub_id && owned_by user_id h) d.hubs)
              d.devices))
          d))

  -- The condition names the device alone, not its hub.
  unfoldable pub update_device_status : String → String → Action (Unit {0})
  unfolding update_where
  update_device_status device_id status =
      wrap "failed to update device status"
        (statement faults (update_devices (with_device_id device_id) (with_status status)))

  unfoldable pub update_devices_user_id : ℕ → ℕ → Action (Unit {0})
  unfolding update_where
  update_devices_user_id hub_id user_id =
      wrap "failed to update device ownership"
        (statement faults (update_devices (of_hub hub_id) (with_status "claimed")))

  unfoldable pub delete_device : ℕ → Action (Unit {0})
  unfolding delete_where
  delete_device id =
      wrap "failed to delete device" (statement faults (delete_devices (λ v. nat_eq v.id id)))

  unfoldable pub find_device_by_id : String → Action (Device × Hub)
  unfolding first_joined
  find_device_by_id device_id =
      wrap "failed to find device and hub"
        (statement faults (λ d. (first_joined device_id d.devices d.hubs, d)))
