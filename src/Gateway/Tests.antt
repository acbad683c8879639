-- ===== src/Gateway/Tests.antt =====
-- internal/gateway: the theorems at concrete inputs, and runs of the code.
use lucas.Base.{
  pos, List, after_prefix, ℕ, String, [], ◌∷◌, none, some, ◌≡◌, refl, true, str_dec, if◌then◌else◌,
  lookup, trim_space, nat_eq,
}
use lucas.Hermes.Protocol.{ServiceRequest}
use lucas.Hermes.Message.{create_service_response_with_nonce}
use lucas.Hermes.Wire.{Wire}
use lucas.Hub.DeviceManager.{DeviceConfig}
use lucas.Hub.Service.{HubConfig, respond, list_json}
use lucas.Gateway.Store.{Hub, Database, good, Faults, empty_database, first_where, any_where}
use lucas.Gateway.Hubs.{with_hub_id}
use lucas.Gateway.Presence.{ensure_hub_exists, alternative_hub_id}
use lucas.Gateway.DeviceList.{
  extract_hub_id_from_worker_identity, HubDirectory, process_device_list_response,
}
use lucas.Gateway.DeviceRows.{no_faults, device_at}
use lucas.Gateway.Listing.{listed_onto}
use lucas.Gateway.Ensuring.{Known, Ends, ensure_hub_exists-Ends}
use lucas.Gateway.Operations.{registers_hub, Operation}
use lucas.Gateway.HubList.{last_configured, process_device_list_response-configured}

-- The third statement fails.
abbrev third_fails : Faults
third_fails n = if nat_eq n 2 then some "database is locked" else none

abbrev hub_of : ℕ → String → String → Hub
hub_of id hub_id key = record {
  id = id;
  user_id = none;
  hub_id = hub_id;
  name = hub_id;
  public_key = "";
  product_key = some key;
  endpoint = "";
  status = "offline";
  auto_registered = true;
  last_seen = 0;
  created_at = 0;
}

abbrev two_hubs : Database
two_hubs = record empty_database {
  hubs = hub_of 1 "house" "k1" ∷ hub_of 2 "shed" "k2" ∷ [];
  last_hub = 2;
}

trimmed-house : trim_space "house" ≡ "house"
unfolding trim_space
trimmed-house = refl

house-Known : Known "house" two_hubs
unfolding any_where str_dec
house-Known = refl

-- Two hubs register; the third statement, which looks for the key of the first, fails.
abbrev first_steps : List Operation
first_steps = registers_hub 1 "house" "" "house" "k1" ∷ registers_hub 2 "shed" "" "shed" "k3" ∷ []

ensure_hub_exists-Ends_example :
    Ends third_fails 5 "house"
      (trim_space (alternative_hub_id "house"))
      empty_database
      (ensure_hub_exists third_fails 5 "house" empty_database)
ensure_hub_exists-Ends_example =
    ensure_hub_exists-Ends third_fails 5 "house" empty_database trimmed-house

abbrev television : String → DeviceConfig
television id = record {
  id = id;
  kind = "bravia";
  model = "XR";
  address = "10.0.0.2";
  credential = "0000";
  capabilities = "power" ∷ [];
}

abbrev household : HubConfig
household = record { hub_id = "house"; devices = television "tv" ∷ television "bedroom" ∷ [] }

abbrev list_request : ServiceRequest
list_request = record {
  message_id = "m1";
  service = "hub.control";
  action = "list";
  payload = "";
  nonce = "";
  timeout = pos 0;
}

-- A wire whose one response is the list of the household.
abbrev wire : Wire
wire = record {
  encode_worker = λ m. m.command;
  encode_client = λ m. m.message_id;
  encode_request = λ r. r.message_id;
  encode_response = λ r. r.message_id;
  decode_worker = λ s. none;
  decode_client = λ s. none;
  decode_response = λ s. some (respond list_request true (list_json household) none);
  send = λ n msg. none;
  dial = λ n. none;
}

abbrev directory : Database → HubDirectory
directory d = record { database = d; hub_handlers = [] }

process_device_list_response-configured_example :
    let o = process_device_list_response no_faults wire 9 "house" "m1" (directory two_hubs) in
    (lookup "house" o.hub_handlers ≡ some "house")
    × ((hub : Hub) × (first_where (with_hub_id "house") o.database.hubs ≡ good hub)
        × (hub.status ≡ "online")
        × ((r : ℕ) (k : String)
            → device_at r k o.database.devices
              ≡ listed_onto hub.id r
                  (last_configured 9 hub.id k household.devices)
                  (device_at r k two_hubs.devices)))
unfolding extract_hub_id_from_worker_identity after_prefix create_service_response_with_nonce
process_device_list_response-configured_example =
    process_device_list_response-configured 9 wire "house" household list_request
      (directory two_hubs) trimmed-house house-Known refl

abbrev prefixed : Database
prefixed = record empty_database { hubs = hub_of 1 "hub_house" "k1" ∷ []; last_hub = 1 }
