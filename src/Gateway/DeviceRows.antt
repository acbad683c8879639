-- ===== src/Gateway/DeviceRows.antt =====
-- internal/gateway/database.go: which row the table of devices has for a device of a hub.
use lucas.Base.{
  inr, inl, ℕ, ◌+◌, Bool, ◌&&◌, String, List, [], ◌∷◌, ◌++◌, Option, none, some, ◌≡◌, refl, arith,
  if◌then◌else◌, ◌==◌, nat_eq,
}
use lucas.Gateway.Store.{
  Device, Database, good, Faults, update_where, delete_where, statement, wrap, handle, pure, fail,
  ◌>>=◌,
}
use lucas.Gateway.Devices.{
  same_device, with_device_id, with_status, create_device, get_device, replace_device,
}
use lucas.Gateway.Rows.{first_where-cases, any_where-append}

-- No statement fails.
abbrev pub no_faults : Faults
no_faults n = none

-- Without the row's own id.
abbrev pub shown : Device → Device
shown v = record v { id = 0 }

unfoldable pub device_at : ℕ → String → List Device → Option Device
device_at r k [] = none
device_at r k (v ∷ vs) = if same_device r k v then some (shown v) else device_at r k vs

abbrev pub restatus : String → Option Device → Option Device
restatus status none = none
restatus status (some v) = some (with_status status v)

abbrev or_else : Option Device → Option Device → Option Device
or_else (some v) o = some v
or_else none o = o

device_at-delete :
    (r row : ℕ) (k id : String) (vs : List Device)
    → device_at r k (delete_where (same_device row id) vs)
      ≡ (if nat_eq row r && id == k then none else device_at r k vs)
unfolding device_at delete_where
device_at-delete r row k id [] = ground arith
device_at-delete r row k id (v ∷ vs) = ground (arith, device_at-delete r row k id vs)

device_at-append :
    (r : ℕ) (k : String) (vs : List Device) (v : Device)
    → device_at r k (vs ++ v ∷ [])
      ≡ or_else (device_at r k vs) (if same_device r k v then some (shown v) else none)
unfolding device_at
device_at-append r k [] v = refl
device_at-append r k (u ∷ vs) v = ground (arith, device_at-append r k vs v)

pub device_at-update :
    (r : ℕ) (k id status : String) (vs : List Device)
    → device_at r k (update_where (with_device_id id) (with_status status) vs)
      ≡ (if id == k then restatus status (device_at r k vs) else device_at r k vs)
unfolding device_at update_where
device_at-update r k id status [] = ground arith
device_at-update r k id status (v ∷ vs) = ground (arith, device_at-update r k id status vs)

-- The rows after `INSERT OR REPLACE` and the update of the status.
abbrev pub replaced : Device → String → Database → List Device
replaced v status d = update_where (with_device_id v.device_id) (with_status status) (
    delete_where (same_device v.hub_id v.device_id) d.devices
    ++ record v { id = d.last_device + 1 } ∷ [])

pub device_at-replaced :
    (r : ℕ) (k : String) (v : Device) (status : String) (d : Database)
    → device_at r k (replaced v status d) ≡ (
        if v.device_id == k
        then (if nat_eq v.hub_id r
            then some (shown (with_status status v))
            else restatus status (device_at r k d.devices))
        else device_at r k d.devices)
device_at-replaced r k v status d =
    let rest = delete_where (same_device v.hub_id v.device_id) d.devices in
    let new = record v { id = d.last_device + 1 } in
    ground (
      arith,
      device_at-update r k v.device_id status (rest ++ new ∷ []),
      device_at-append r k rest new,
      device_at-delete r v.hub_id k v.device_id d.devices,
    )

abbrev pub new_device : ℕ → ℕ → String → String → String → String → String → List String → Device
new_device now hub_id device_id kind name model address capabilities = record {
  id = 0;
  hub_id = hub_id;
  device_id = device_id;
  device_type = kind;
  name = name;
  model = model;
  address = address;
  capabilities = capabilities;
  status = "unknown";
  created_at = now;
}

-- Without failing statements a device is stored, and its new row is read.
pub create_device-no_faults :
    (now hub_id : ℕ) (device_id kind name model address : String) (capabilities : List String)
    (d : Database)
    → let v = new_device now hub_id device_id kind name model address capabilities in
      let o = create_device no_faults now hub_id device_id kind name model address capabilities d in
      (stored : Device) × (o.0 ≡ good stored)
      × (o.1.hubs ≡ d.hubs)
      × (o.1.devices
          ≡ delete_where (same_device hub_id device_id) d.devices
            ++ record v { id = d.last_device + 1 } ∷ [])
unfolding create_device get_device replace_device statement wrap handle pure fail ◌>>=◌
create_device-no_faults now hub_id device_id kind name model address capabilities d =
    let v = new_device now hub_id device_id kind name model address capabilities in
    let new = record v { id = d.last_device + 1 } in
    let rest = delete_where (same_device hub_id device_id) d.devices in
    let p : Device → Bool = λ v. nat_eq v.id (d.last_device + 1) in
    elim (first_where-cases p (rest ++ new ∷ [])) [
      | inl (e, absent) ↦ ground (arith, any_where-append p rest new)
      | inr (a, e, there, q) ↦ (a, ground arith, refl, refl)
    ]
