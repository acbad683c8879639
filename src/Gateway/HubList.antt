-- ===== src/Gateway/HubList.antt =====
-- internal/hub/worker_service.go with internal/gateway: the list of devices that a hub sends, as the
-- gateway stores it.
use lucas.Base.{
  sym, ◌+◌, ℕ, ◌||◌, String, List, [], ◌∷◌, Option, none, some, ◌≡◌, refl, if◌then◌else◌, ◌==◌, ap,
  ◌∙◌, str_dec,
}
use lucas.Hermes.Protocol.{member}
use lucas.Hub.DeviceManager.{DeviceConfig}
use lucas.Hub.Service.{device_json, device_items, items_of}
use lucas.Hermes.Message.{create_service_response_with_nonce}
use lucas.Hermes.Wire.{Wire}
use lucas.Hermes.Protocol.{ServiceRequest, ServiceResponse}
use lucas.Hub.Service.{HubConfig, list_json, respond}
use lucas.Base.{lookup, insert, trim_space, true, none, some, str_dec, arith, lookup-insert_self}
use lucas.Gateway.DeviceList.{
  HubDirectory, extract_hub_id_from_worker_identity, process_hub_worker_registration,
  process_device_list_response, store_device_list, is_action_response, listed_devices,
  register_listed, register_items,
}
use lucas.Gateway.KnownHub.{
  with_seen, ensure_hub_exists-Known, update_hub_status-Known, get_hub_by_hub_id-Known,
  any_where-update, seen-first,
}
use lucas.Gateway.Ensuring.{Known}
use lucas.Gateway.Rows.{after}
use lucas.Gateway.Hubs.{get_hub_by_hub_id, with_hub_id, read_hub, seen}
use lucas.Gateway.Listing.{register_items-device_at, listed_onto}
use lucas.Gateway.DeviceRows.{device_at, no_faults}
use lucas.Gateway.Store.{Hub, Database, good, counted, handle, pure, ◌>>=◌, first_where, Device}
use lucas.Gateway.Devices.{with_status}
use lucas.Gateway.DeviceList.{texts, text_member}
use lucas.Gateway.DeviceRows.{new_device}
use lucas.Gateway.Listing.{if_named, last_of, last_listed, item_row}

-- The row for a configured device.
abbrev pub configured_row : ℕ → ℕ → DeviceConfig → Option Device
configured_row now row c =
    if c.id == "" || c.kind == ""
    then none
    else some (
        with_status "online"
          (new_device now row c.id c.kind c.model c.model c.address c.capabilities))

-- The last configured device of an id.
unfoldable pub last_configured : ℕ → ℕ → String → List DeviceConfig → Option Device
last_configured now row k [] = none
last_configured now row k (c ∷ cs) =
    last_of (if_named k (configured_row now row c)) (last_configured now row k cs)

texts-items_of : (ss : List String) → texts (items_of ss) ≡ ss
unfolding texts
texts-items_of [] = refl
texts-items_of (s ∷ ss) = ap (◌∷◌ s) (texts-items_of ss)

item_row-device_json :
    (now row : ℕ) (c : DeviceConfig) → item_row now row (device_json c) ≡ configured_row now row c
unfolding text_member member str_dec
item_row-device_json now row c = rw (texts-items_of c.capabilities) refl

last_listed-device_items :
    (now row : ℕ) (k : String) (cs : List DeviceConfig)
    → last_listed now row k (device_items cs) ≡ last_configured now row k cs
unfolding last_configured last_listed
last_listed-device_items now row k [] = refl
last_listed-device_items now row k (c ∷ cs) =
    ap (λ o. last_of (if_named k o) (last_listed now row k (device_items cs)))
      (item_row-device_json now row c)
    ∙ ap (last_of (if_named k (configured_row now row c))) (last_listed-device_items now row k cs)

module _ (now : ℕ) (w : Wire) (worker : String) (config : HubConfig) (req : ServiceRequest)
    (bs : HubDirectory) where
  abbrev actual : String
  actual = extract_hub_id_from_worker_identity worker

  abbrev response : ServiceResponse
  response = respond req true (list_json config) none

  abbrev online : Database
  online = after (bs.database.statements + 3) (with_seen actual now "online" bs.database)

  registration-Known :
      trim_space actual ≡ actual
      → Known actual bs.database
      → process_hub_worker_registration no_faults now worker bs
        ≡ record bs { database = online; hub_handlers = insert worker actual bs.hub_handlers }
  unfolding process_hub_worker_registration handle ◌>>=◌ pure
  registration-Known trimmed known =
      let e = ensure_hub_exists-Known now actual bs.database trimmed known in
      let e' = update_hub_status-Known now actual (counted bs.database) trimmed known "online" in
      ground (arith, e, e')

  stored-devices :
      (d : Database) (hub : Hub)
      → get_hub_by_hub_id no_faults actual d ≡ (good hub, counted d)
      → store_device_list no_faults now actual (list_json config) d
        ≡ register_items no_faults now hub.id (device_items config.devices) (counted d)
  unfolding store_device_list is_action_response listed_devices register_listed member str_dec
      handle
  stored-devices d hub e = ground (arith, e)

  -- A worker, whose hub id has no surrounding spaces and is known to the gateway, sends the list of
  -- devices that a hub makes of its configuration; the response is read as it was written, and no
  -- statement fails. Then the hub is online and has a handler, and for each device id of a
  -- configuration whose id and type are not empty the first row of that hub is as the last such
  -- configuration of that id says, with the status "online". First rows of other hubs for such a
  -- device id get that status too, and the first rows for all other device ids stay.
  pub process_device_list_response-configured :
      trim_space actual ≡ actual
      → Known actual bs.database
      → w.decode_response (w.encode_response response) ≡ some response
      → let o =
          process_device_list_response no_faults w now worker (w.encode_response response) bs in
        (lookup worker o.hub_handlers ≡ some actual)
        × ((hub : Hub) × (first_where (with_hub_id actual) o.database.hubs ≡ good hub)
            × (hub.status ≡ "online")
            × ((r : ℕ) (k : String)
                → device_at r k o.database.devices
                  ≡ listed_onto hub.id r
                      (last_configured now hub.id k config.devices)
                      (device_at r k bs.database.devices)))
  unfolding process_device_list_response create_service_response_with_nonce
  process_device_list_response-configured trimmed known decodes =
      let known_online : Known actual online =
        any_where-update actual actual "online" now bs.database.hubs ∙ known in
      let (h, f, e) = get_hub_by_hub_id-Known actual online trimmed known_online in
      let (h0, f0, e0) = get_hub_by_hub_id-Known actual bs.database trimmed known in
      let same : seen "online" now h0 ≡ h =
        cc (f, seen-first actual "online" now bs.database.hubs h0 f0) in
      let registered = registration-Known trimmed known in
      let stored = stored-devices online (read_hub h) e in
      let items = device_items config.devices in
      let lists =
        λ (r : ℕ) (k : String). register_items-device_at now h.id r k items (counted online) in
      let e : process_device_list_response no_faults w now worker (w.encode_response response) bs
          ≡ record bs {
            database = (register_items no_faults now h.id items (counted online)).1;
            hub_handlers = insert worker actual bs.hub_handlers;
          } =
        rw (decodes, registered, stored, process_device_list_response) refl in
      rw e (
        lookup-insert_self worker actual bs.hub_handlers,
        (
          h,
          rw (lists 0 "").1 f,
          ap (λ h. h.status) (sym same),
          λ r k.
              (lists r k).2
              ∙ ap (λ o. listed_onto h.id r o (device_at r k bs.database.devices))
                  (last_listed-device_items now h.id k config.devices),
        ),
      )
