-- ===== src/Gateway/Writes.antt =====
-- internal/gateway/database.go: the statements that write keep the tables' keys.
use lucas.Base.{◌+◌, Bool, String, ◌≡◌, refl, arith, Bool-cases, inl, inr, ◌==◌}
use lucas.Gateway.Store.{fail, pure, Database, User, Hub, Device, any_where, delete_where}
use lucas.Gateway.Hubs.{insert_hub, update_hubs, with_hub_id}
use lucas.Gateway.Devices.{delete_devices, replace_device, update_devices, with_status}
use lucas.Gateway.Users.{insert_user}
use lucas.Gateway.Keys.{
  append-Ascend, update_where-Ascend, delete_where-Ascend, append-Distinct, update_where-Distinct,
  delete_where-Distinct, delete_where-none,
}
use lucas.Gateway.Integrity.{IsKeyed, Keeps, same_hub, same_key, same_name, same_api_key}

==_symm : (s t : String) → (s == t) ≡ (t == s)
==_symm s t = ground arith

insert_hub-IsKeyed : (h : Hub) → (d : Database) → IsKeyed d → IsKeyed ((insert_hub h) d).1
unfolding insert_hub pure fail
insert_hub-IsKeyed h d k = elim (Bool-cases (any_where (with_hub_id h.hub_id) d.hubs)) [
  | inl e ↦ rw (e, insert_hub) k
  | inr e ↦
      let new = record h { id = d.last_hub + 1 } in
      rw (e, insert_hub)
        (record {
          user_ids = k.user_ids;
          hub_rows = append-Ascend (λ h. h.id) 0 d.last_hub d.hubs new refl k.hub_rows;
          device_rows = k.device_rows;
          usernames = k.usernames;
          api_keys = k.api_keys;
          hub_ids =
              append-Distinct same_hub d.hubs new (λ b. ==_symm h.hub_id b.hub_id) e k.hub_ids;
          device_ids = k.device_ids;
        })
]

pub insert_hub-Keeps : (h : Hub) → Keeps (insert_hub h)
insert_hub-Keeps h = record { kept = insert_hub-IsKeyed h }

insert_user-IsKeyed : (u : User) → (d : Database) → IsKeyed d → IsKeyed ((insert_user u) d).1
unfolding insert_user pure fail
insert_user-IsKeyed u d k = elim (Bool-cases (any_where (same_name u) d.users)) [
  | inl e ↦ rw (e, insert_user) k
  | inr e ↦ elim (Bool-cases (any_where (same_api_key u) d.users)) [
    | inl e' ↦ rw (e, e', insert_user) k
    | inr e' ↦
        let new = record u { id = d.last_user + 1 } in
        rw (e, e', insert_user)
          (record {
            user_ids = append-Ascend (λ u. u.id) 0 d.last_user d.users new refl k.user_ids;
            hub_rows = k.hub_rows;
            device_rows = k.device_rows;
            usernames =
                append-Distinct same_name d.users new (λ b. ==_symm u.username b.username) e
                  k.usernames;
            api_keys =
                append-Distinct same_api_key d.users new (λ b. ==_symm u.api_key b.api_key) e'
                  k.api_keys;
            hub_ids = k.hub_ids;
            device_ids = k.device_ids;
          })
  ]
]

pub insert_user-Keeps : (u : User) → Keeps (insert_user u)
insert_user-Keeps u = record { kept = insert_user-IsKeyed u }

-- An update of columns that are no keys.
update_hubs-IsKeyed :
    (p : Hub → Bool) (f : Hub → Hub)
    → ((h : Hub) → (f h).id ≡ h.id)
    → ((h : Hub) → (f h).hub_id ≡ h.hub_id)
    → (d : Database) → IsKeyed d
    → IsKeyed ((update_hubs p f) d).1
unfolding update_hubs pure fail
update_hubs-IsKeyed p f id hub_id d k = record {
  user_ids = k.user_ids;
  hub_rows = update_where-Ascend (λ h. h.id) p f 0 d.last_hub d.hubs id k.hub_rows;
  device_rows = k.device_rows;
  usernames = k.usernames;
  api_keys = k.api_keys;
  hub_ids =
      update_where-Distinct same_hub p f d.hubs (λ a b. rw (hub_id a)) (λ a b. rw (hub_id a))
        k.hub_ids;
  device_ids = k.device_ids;
}

pub update_hubs-Keeps :
    (p : Hub → Bool) (f : Hub → Hub)
    → ((h : Hub) → (f h).id ≡ h.id)
    → ((h : Hub) → (f h).hub_id ≡ h.hub_id)
    → Keeps (update_hubs p f)
update_hubs-Keeps p f id hub_id = record { kept = update_hubs-IsKeyed p f id hub_id }

update_devices-IsKeyed :
    (p : Device → Bool) (status : String)
    → (d : Database) → IsKeyed d
    → IsKeyed ((update_devices p (with_status status)) d).1
unfolding update_devices pure fail
update_devices-IsKeyed p status d k = record {
  user_ids = k.user_ids;
  hub_rows = k.hub_rows;
  device_rows =
      update_where-Ascend (λ v. v.id) p (with_status status) 0 d.last_device d.devices (λ a. refl)
        k.device_rows;
  usernames = k.usernames;
  api_keys = k.api_keys;
  hub_ids = k.hub_ids;
  device_ids =
      update_where-Distinct same_key p (with_status status) d.devices (λ a b. refl) (λ a b. refl)
        k.device_ids;
}

pub update_devices-Keeps :
    (p : Device → Bool) (status : String) → Keeps (update_devices p (with_status status))
update_devices-Keeps p status = record { kept = update_devices-IsKeyed p status }

same_key_symm : (v b : Device) → same_key b v ≡ same_key v b
same_key_symm v b = ground arith

replace_device-IsKeyed :
    (v : Device) → (d : Database) → IsKeyed d → IsKeyed ((replace_device v) d).1
unfolding replace_device pure fail
replace_device-IsKeyed v d k =
    let p = same_key v in
    let new = record v { id = d.last_device + 1 } in
    record {
      user_ids = k.user_ids;
      hub_rows = k.hub_rows;
      device_rows =
          append-Ascend (λ v. v.id) 0 d.last_device (delete_where p d.devices) new refl
            (delete_where-Ascend (λ v. v.id) p 0 d.last_device d.devices k.device_rows);
      usernames = k.usernames;
      api_keys = k.api_keys;
      hub_ids = k.hub_ids;
      device_ids =
          append-Distinct same_key (delete_where p d.devices) new (λ b. same_key_symm v b)
            (delete_where-none p d.devices)
            (delete_where-Distinct same_key p d.devices k.device_ids);
    }

pub replace_device-Keeps : (v : Device) → Keeps (replace_device v)
replace_device-Keeps v = record { kept = replace_device-IsKeyed v }

delete_devices-IsKeyed :
    (p : Device → Bool) → (d : Database) → IsKeyed d → IsKeyed (delete_devices p d).1
unfolding delete_devices pure
delete_devices-IsKeyed p d k = record {
  user_ids = k.user_ids;
  hub_rows = k.hub_rows;
  device_rows = delete_where-Ascend (λ v. v.id) p 0 d.last_device d.devices k.device_rows;
  usernames = k.usernames;
  api_keys = k.api_keys;
  hub_ids = k.hub_ids;
  device_ids = delete_where-Distinct same_key p d.devices k.device_ids;
}

pub delete_devices-Keeps : (p : Device → Bool) → Keeps (delete_devices p)
delete_devices-Keeps p = record { kept = delete_devices-IsKeyed p }
