-- ===== src/Hub/ServiceTests.antt =====
-- internal/hub/worker_service.go: the theorems at concrete inputs, and runs of the handler.
use lucas.Base.{
  pos, ℕ, String, [], ◌∷◌, none, some, ◌≡◌, ◌≢◌, ◌*◌, ◌+◌, refl, arith, true, str_dec,
  if◌then◌else◌, ◌==◌, lookup,
}
use lucas.Hermes.Protocol.{Json, str, second, ServiceRequest, ServiceResponse}
use lucas.Hermes.Message.{validate_message}
use lucas.Hermes.Wire.{Wire}
use lucas.Hub.Codec.{Codec, decoded}
use lucas.Hub.Device.{succeeded_with}
use lucas.Hub.Lru.{Lru}
use lucas.Hub.LruList.{list_lru, list_lru-IsLru}
use lucas.Hub.Nonce.{validate_nonce}
use lucas.Hub.NonceCache.{NonceResponse, check_nonce}
use lucas.Hub.DeviceManager.{Devices, processed}
use lucas.Hub.Once.{cleans}
use lucas.Hub.Service.{HubServiceHandler, Times, done, handle, respond}
use lucas.Hub.Answers.{IsAnswer, handle-IsAnswer}
use lucas.Hub.Resent.{IsExecute, meanwhile, handle-again}

abbrev nonce : String
nonce = "1691234567890-a1b2c3d4"

abbrev request_to : String → String → ServiceRequest
request_to id action = record {
  message_id = id;
  service = "hub.control";
  action = action;
  payload = "on";
  nonce = nonce;
  timeout = pos 0;
}

abbrev response_to : String → ServiceResponse
response_to s = record {
  message_id = s;
  service = "hub.control";
  success = true;
  content = str s;
  error = "";
  nonce = nonce;
}

abbrev wire : Wire
wire = record {
  encode_worker = λ m. m.command;
  encode_client = λ m. m.message_id;
  encode_request = λ r. r.message_id;
  encode_response = λ r. r.message_id;
  decode_worker = λ s. none;
  decode_client = λ s. none;
  decode_response = λ s. some (response_to s);
  send = λ n msg. none;
  dial = λ n. none;
}

-- Every text but the empty one is a request to execute, under that id.
abbrev codec : Codec
codec = record {
  decode_request = λ b. if b == "" then none else some (request_to b "execute");
  command_error = λ d a. none;
  encode_command = λ d a. a;
  decode_command = λ b. decoded ("tv", b);
  time_text = λ n. "";
  average_text = λ l. "0";
  rate_text = λ r. "0";
}

abbrev televisions : Devices
televisions = record {
  Device = String;
  new_bravia_remote = λ address credential debug test_mode. address;
  device_info = λ address. record {
    id = address;
    name = "Sony Bravia TV";
    kind = "bravia";
    model = "";
    address = address;
    status = "";
    capabilities = [];
  };
  process = λ address n action. processed (succeeded_with (str action));
}

abbrev lru : Lru NonceResponse
lru = list_lru NonceResponse

abbrev handler : HubServiceHandler lru televisions
handler = record {
  device_mgr = record {
    devices = ("tv", "10.0.0.2") ∷ [];
    config = [];
    nonce_cache = record { device_caches = []; max_size = 50; expiration = 3600 * second };
    performed = [];
  };
  config = record { hub_id = "house"; devices = [] };
  stats = record {
    requests_processed = 0;
    requests_failed = 0;
    last_request = 0;
    latencies = [];
    error_rate = (0, 0);
  };
}

abbrev at : ℕ → Times
at n = record { started = n * second; looked = n * second; stored = n * second; ended = n * second }

executes : (id : String) → id ≢ "" → IsExecute codec id (request_to id "execute") "tv" "on"
unfolding validate_message
executes id named =
    let a : ◌≢◌ {A = String} "hub.control" "" = λ e. cc in
    let b : ◌≢◌ {A = String} "execute" "" = λ e. cc in
    let c : ◌≢◌ {A = String} "tv" "" = λ e. cc in
    record {
      decodes = ground (arith, named);
      valid = ground (arith, named, a, b);
      executes = refl;
      command = refl;
      named = c;
    }

m1-ne-nil : ◌≢◌ {A = String} "m1" ""
m1-ne-nil e = cc

m2-ne-nil : ◌≢◌ {A = String} "m2" ""
m2-ne-nil e = cc

validated-nonce : validate_nonce nonce ≡ true
unfolding validate_nonce str_dec
validated-nonce = refl

handler-misses : (check_nonce lru second handler.device_mgr.nonce_cache "tv" nonce).0 ≡ none
unfolding check_nonce str_dec list_lru lookup
handler-misses = refl

handle-IsAnswer_example :
    let o = handle lru televisions codec wire (at 1) handler "m1" in
    (o.1.stats.requests_processed ≡ handler.stats.requests_processed + 1)
    × (o.1.stats.last_request ≡ (at 1).started)
    × (o.1.config ≡ handler.config)
    × IsAnswer lru televisions codec wire (at 1) handler o.1 "m1" o.0
handle-IsAnswer_example = handle-IsAnswer lru televisions codec wire (at 1) handler "m1"

handle-again_example :
    let first = handle lru televisions codec wire (at 1) handler "m1" in
    let later = meanwhile lru televisions codec wire first.1 (cleans (2 * second) ∷ []) in
    let again = handle lru televisions codec wire (at 3) later "m2" in
    (content : Json) × (first.0
      ≡ done (wire.encode_response (respond (request_to "m1" "execute") true content none)))
    × (again.0
        ≡ done (wire.encode_response (respond (request_to "m2" "execute") true content none)))
    × (again.1.device_mgr.performed ≡ later.device_mgr.performed)
handle-again_example =
    handle-again lru televisions codec wire list_lru-IsLru (at 1) (at 3) handler "m1" "m2"
      (request_to "m1" "execute") (request_to "m2" "execute") "tv" "on" "on"
      (cleans (2 * second) ∷ []) (executes "m1" m1-ne-nil) (executes "m2" m2-ne-nil) refl
      validated-nonce handler-misses tt (omega arith) (omega arith)
