-- ===== src/Gateway/Listing.antt =====
-- internal/gateway/broker_service.go: what the table of devices has after a list of devices.
use lucas.Base.{
  ap, ◌∙◌, ℕ, ◌||◌, String, Option, none, some, ◌≡◌, refl, arith, if◌then◌else◌, ◌==◌, nat_eq,
  Bool-cases, inl, inr,
}
use lucas.Hermes.Protocol.{Items, nil, cons, Json, null, obj, member}
use lucas.Gateway.Store.{Device, Database, good, statement, wrap, handle, pure, fail, ◌>>=◌}
use lucas.Gateway.Devices.{with_status, update_device_status, update_devices}
use lucas.Gateway.DeviceList.{
  text_member, texts, as_texts, final_status, register_device, register_item, register_items,
}
use lucas.Gateway.DeviceRows.{
  no_faults, device_at, restatus, replaced, device_at-replaced, new_device, create_device-no_faults,
}

-- The row that an item of a list asks for, if it is an object with an id and a type.
abbrev pub item_row : ℕ → ℕ → Json → Option Device
item_row now row (obj fields) =
    let id = text_member "id" fields in
    let kind = text_member "type" fields in
    if id == "" || kind == ""
    then none
    else some (
        with_status (final_status (text_member "status" fields)) (
          new_device now row id kind (text_member "name" fields) (text_member "model" fields)
            (text_member "address" fields) (as_texts (member "capabilities" fields))))
item_row now row j = none

abbrev pub if_named : String → Option Device → Option Device
if_named k none = none
if_named k (some v) = if v.device_id == k then some v else none

abbrev pub last_of : Option Device → Option Device → Option Device
last_of o (some v) = some v
last_of o none = o

-- The last item for a device id.
unfoldable pub last_listed : ℕ → ℕ → String → Items → Option Device
unfolding text_member texts member
last_listed now row k nil = none
last_listed now row k (cons j rest) =
    last_of (if_named k (item_row now row j)) (last_listed now row k rest)

-- The hub's own row is the listed one; a row of another hub with that device id gets its status.
abbrev pub listed_onto : ℕ → ℕ → Option Device → Option Device → Option Device
listed_onto row r none old = old
listed_onto row r (some v) old = if nat_eq row r then some v else restatus v.status old

register_item_lem :
    (now row r : ℕ) (k : String) (j : Json) (d : Database)
    → let o = register_item no_faults now row j d in
      (o.0 ≡ good tt)
      × (o.1.hubs ≡ d.hubs)
      × (device_at r k o.1.devices
          ≡ listed_onto row r (if_named k (item_row now row j)) (device_at r k d.devices))
unfolding register_item register_device update_device_status update_devices statement wrap handle
    pure fail
register_item_lem now row r k (obj fields) d =
    let id = text_member "id" fields in
    let kind = text_member "type" fields in
    let status = final_status (text_member "status" fields) in
    let v =
      new_device now row id kind (text_member "name" fields) (text_member "model" fields)
        (text_member "address" fields) (as_texts (member "capabilities" fields)) in
    elim (Bool-cases (id == "" || kind == "")) [
      | inl e ↦ rw (e, register_item, register_device, pure) (refl, refl, refl)
      | inr e ↦
          let (stored, is_good, hubs, devices) =
            create_device-no_faults now row id kind (text_member "name" fields)
              (text_member "model" fields) (text_member "address" fields)
              (as_texts (member "capabilities" fields)) d in
          let o = register_item no_faults now row (obj fields) d in
          let rows : o.1.devices ≡ replaced v status d = ground (arith, is_good, devices) in
          (
            ground (arith, is_good),
            ground (arith, is_good, hubs),
            rw rows (ground (arith, device_at-replaced r k v status d)),
          )
    ]
register_item_lem now row r k null d = (refl, refl, refl)
register_item_lem now row r k j d = (refl, refl, refl)

listed_onto-last_of :
    (row r : ℕ) (a b old : Option Device)
    → listed_onto row r b (listed_onto row r a old) ≡ listed_onto row r (last_of a b) old
listed_onto-last_of row r a none old = refl
listed_onto-last_of row r none (some v) old = refl
listed_onto-last_of row r (some u) (some v) none = ground arith
listed_onto-last_of row r (some u) (some v) (some w) = ground arith

-- Without failing statements, a list of devices for a hub's row: for each device id that the list
-- names, the first row of that hub is the one that the last such item asks for, and first rows of
-- other hubs take the status of that item. Those of all other device ids and all hubs stay.
pub register_items-device_at :
    (now row r : ℕ) (k : String) (items : Items) (d : Database)
    → let o = register_items no_faults now row items d in
      (o.0 ≡ good tt)
      × (o.1.hubs ≡ d.hubs)
      × (device_at r k o.1.devices
          ≡ listed_onto row r (last_listed now row k items) (device_at r k d.devices))
unfolding register_items last_listed pure handle ◌>>=◌
register_items-device_at now row r k nil d = (refl, refl, refl)
register_items-device_at now row r k (cons j rest) d =
    let (is_good, hubs, at) = register_item_lem now row r k j d in
    let d' = (register_item no_faults now row j d).1 in
    let (rest_good, rest_hubs, rest_at) = register_items-device_at now row r k rest d' in
    let e : register_items no_faults now row (cons j rest) d
        ≡ register_items no_faults now row rest d' =
      ground (arith, is_good) in
    rw e (
      rest_good,
      rest_hubs ∙ hubs,
      rest_at
          ∙ ap (listed_onto row r (last_listed now row k rest)) at
          ∙ listed_onto-last_of row r (if_named k (item_row now row j)) (last_listed now row k rest)
              (device_at r k d.devices),
    )
