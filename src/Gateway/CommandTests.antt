-- ===== src/Gateway/CommandTests.antt =====
-- internal/gateway/broker_service.go: the theorems on commands and on the registry at concrete inputs.
use lucas.Base.{
  pos, String, [], ◌∷◌, none, some, ◌≡◌, ◌≢◌, ◌*◌, ◌&&◌, refl, true, not, ◌==◌, lookup,
  HasDistinctKeys,
}
use lucas.Hermes.Protocol.{str, second, ServiceRequest}
use lucas.Hermes.Wire.{Wire}
use lucas.Hub.Codec.{Codec, decoded, response_json}
use lucas.Hub.Device.{succeeded_with}
use lucas.Hub.Lru.{Lru}
use lucas.Hub.LruList.{list_lru}
use lucas.Hub.NonceCache.{NonceResponse}
use lucas.Hub.DeviceManager.{Devices, DeviceConfig, processed, process_device_action_with_nonce}
use lucas.Hub.Service.{HubConfig, HubServiceHandler, Times, done, handle, respond, list_json}
use lucas.Gateway.Registry.{ServiceProvider, Services, remove_hub_services}
use lucas.Gateway.Sender.{command_request}
use lucas.Gateway.Providers.{provides, provides-remove_hub_services}
use lucas.Gateway.Commands.{handle-command_request}

abbrev television : String → DeviceConfig
television id = record {
  id = id;
  kind = "bravia";
  model = "XR";
  address = "10.0.0.2";
  credential = "0000";
  capabilities = "power" ∷ [];
}

abbrev household : HubConfig
household = record { hub_id = "house"; devices = television "tv" ∷ television "bedroom" ∷ [] }

abbrev list_request : ServiceRequest
list_request = record {
  message_id = "m1";
  service = "hub.control";
  action = "list";
  payload = "";
  nonce = "";
  timeout = pos 0;
}

-- A wire whose one response is the list of the household.
abbrev wire : Wire
wire = record {
  encode_worker = λ m. m.command;
  encode_client = λ m. m.message_id;
  encode_request = λ r. r.message_id;
  encode_response = λ r. r.message_id;
  decode_worker = λ s. none;
  decode_client = λ s. none;
  decode_response = λ s. some (respond list_request true (list_json household) none);
  send = λ n msg. none;
  dial = λ n. none;
}

abbrev provider : String → ServiceProvider
provider hub_id = record {
  hub_id = hub_id;
  identity = hub_id;
  health = "healthy";
  last_check = 0;
  last_seen = 0;
  requests = 0;
  devices = [];
}

abbrev registry : Services
registry =
    (
      "device.tv",
      record {
        name = "device.tv";
        device_type = "tv";
        description = "";
        capabilities = [];
        providers = provider "house" ∷ provider "shed" ∷ [];
        last_seen = 0;
        request_count = 0;
      },
    )
    ∷ []

registry-HasDistinctKeys : HasDistinctKeys registry
unfolding lookup
registry-HasDistinctKeys = (refl, tt)

provides-remove_hub_services_example :
    provides "shed" "device.tv" (remove_hub_services "house" registry)
    ≡ (not ("house" == "shed") && provides "shed" "device.tv" registry)
provides-remove_hub_services_example =
    provides-remove_hub_services "shed" "device.tv" "house" registry registry-HasDistinctKeys

abbrev sent : ServiceRequest
sent = record {
  message_id = "m1";
  service = "hub.control";
  action = "execute";
  payload = "on";
  nonce = "n1";
  timeout = pos 0;
}

abbrev codec : Codec
codec = record {
  decode_request = λ b. some sent;
  command_error = λ d a. none;
  encode_command = λ d a. a;
  decode_command = λ b. decoded ("tv", b);
  time_text = λ n. "";
  average_text = λ l. "0";
  rate_text = λ r. "0";
}

abbrev televisions : Devices
televisions = record {
  Device = String;
  new_bravia_remote = λ address credential debug test_mode. address;
  device_info = λ address. record {
    id = address;
    name = "Sony Bravia TV";
    kind = "bravia";
    model = "";
    address = address;
    status = "";
    capabilities = [];
  };
  process = λ address n action. processed (succeeded_with (str action));
}

abbrev lru : Lru NonceResponse
lru = list_lru NonceResponse

abbrev handler : HubServiceHandler lru televisions
handler = record {
  device_mgr = record {
    devices = ("tv", "10.0.0.2") ∷ [];
    config = [];
    nonce_cache = record { device_caches = []; max_size = 50; expiration = 3600 * second };
    performed = [];
  };
  config = household;
  stats = record {
    requests_processed = 0;
    requests_failed = 0;
    last_request = 0;
    latencies = [];
    error_rate = (0, 0);
  };
}

abbrev at : Times
at = record { started = 1; looked = 2; stored = 3; ended = 4 }

m1-ne-nil : ◌≢◌ {A = String} "m1" ""
m1-ne-nil e = cc

n1-ne-nil : ◌≢◌ {A = String} "n1" ""
n1-ne-nil e = cc

tv-ne-nil : ◌≢◌ {A = String} "tv" ""
tv-ne-nil e = cc

handle-command_request_example :
    let req = command_request codec "m1" "n1" "tv" "on" in
    let o = handle lru televisions codec wire at handler (wire.encode_request req) in
    let p =
      process_device_action_with_nonce lru televisions at.looked at.stored handler.device_mgr "tv"
        "n1" "on" in
    (o.0 ≡ done (wire.encode_response (respond req true (response_json p.0) none)))
    × (o.1.device_mgr ≡ p.1)
handle-command_request_example =
    handle-command_request wire codec "m1" "n1" "tv" "on" lru televisions at handler m1-ne-nil
      n1-ne-nil tv-ne-nil refl refl
