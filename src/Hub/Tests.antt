-- ===== src/Hub/Tests.antt =====
-- internal/hub: the theorems at concrete inputs, and runs of the code.
use lucas.Base.{
  inl, String, List, [], ◌∷◌, none, some, ◌≡◌, ◌≢◌, ◌↔◌, ◌≤◌, ◌*◌, refl, arith, All, codes,
  HasDistinctKeys, true, false, str_dec, lookup, insert,
}
use lucas.Hermes.Protocol.{second, str}
use lucas.Hub.Device.{ActionResponse, succeeded_with}
use lucas.Hub.Lru.{Lru}
use lucas.Hub.LruList.{list_lru, list_lru-IsLru}
use lucas.Hub.Nonce.{validate_nonce, generate_nonce}
use lucas.Hub.Nonce.Format.{IsNonce, validate_nonce_iff}
use lucas.Hub.Nonce.Generation.{generate_nonce-valid}
use lucas.Hub.NonceCache.{
  NonceResponse, NonceCache, check_nonce, store_response, perform_cleanup, get_device_nonce_count,
}
use lucas.Hub.DeviceManager.{
  Devices, DeviceConfig, DeviceManager, processed, new_device_manager,
  process_device_action_with_nonce, get_device, reload,
}
use lucas.Hub.CacheView.{entry, fresh}
use lucas.Hub.CacheCleanup.{entry-perform_cleanup}
use lucas.Hub.Once.{
  initializes, reloads, acts, cleans, clears, take_turns, process_device_action_with_nonce-again,
}
use lucas.Hub.Bounds.{get_device_nonce_count-take_turns}
use lucas.Hub.Setup.{IsGood, configured, found, get_device-reload}

abbrev nonce : String
nonce = "1691234567890-a1b2c3d4"

abbrev tv : String
tv = "tv"

abbrev other_nonce : String
other_nonce = "1691234567891-a1b2c3d4"

abbrev done_by : String → ActionResponse
done_by what = succeeded_with (str what)

-- Devices that tell their address; each answers with its action.
abbrev televisions : Devices
televisions = record {
  Device = String;
  new_bravia_remote = λ address credential debug test_mode. address;
  device_info = λ address. record {
    id = address;
    name = "Sony Bravia TV";
    kind = "bravia";
    model = "";
    address = address;
    status = "";
    capabilities = [];
  };
  process = λ address n action. processed (done_by action);
}

abbrev config_of : String → String → DeviceConfig
config_of id address = record {
  id = id;
  kind = "bravia";
  model = "";
  address = address;
  credential = "0000";
  capabilities = [];
}

abbrev lru : Lru NonceResponse
lru = list_lru NonceResponse

abbrev manager : DeviceManager lru televisions
manager = record {
  devices = ("tv", "10.0.0.2") ∷ [];
  config = [];
  nonce_cache = record { device_caches = []; max_size = 50; expiration = 3600 * second };
  performed = [];
}

-- The cache after one response was stored.
abbrev holding : NonceCache lru
holding = store_response lru (10 * second) manager.nonce_cache "tv" nonce (done_by "on")

validate_nonce_iff_example : (validate_nonce nonce ≡ true) ↔ IsNonce (codes nonce)
validate_nonce_iff_example = validate_nonce_iff nonce

generate_nonce-valid_example :
    validate_nonce (generate_nonce 1691234567890 (some (0xa1 ∷ 0xb2 ∷ 0xc3 ∷ 0xd4 ∷ [])) 0) ≡ true
generate_nonce-valid_example =
    generate_nonce-valid 1691234567890 0 (some (0xa1 ∷ 0xb2 ∷ 0xc3 ∷ 0xd4 ∷ [])) (omega arith)
      (refl, omega arith)

validated-nonce : validate_nonce nonce ≡ true
unfolding validate_nonce str_dec
validated-nonce = refl

nonce-ne-nil : nonce ≢ ""
nonce-ne-nil e = cc

holding-HasDistinctKeys : HasDistinctKeys holding.device_caches
unfolding store_response insert lookup
holding-HasDistinctKeys = ground arith

manager-misses : (check_nonce lru second manager.nonce_cache tv nonce).0 ≡ none
unfolding check_nonce str_dec list_lru lookup
manager-misses = refl

radio-ne-tv : ◌≢◌ {A = String} "radio" "tv"
radio-ne-tv e = cc

entry-perform_cleanup_example :
    ((d n : String)
      → entry lru (perform_cleanup lru (4000 * second) holding) d n
        ≡ fresh lru holding (4000 * second) (entry lru holding d n))
    × HasDistinctKeys (perform_cleanup lru (4000 * second) holding).device_caches
entry-perform_cleanup_example =
    entry-perform_cleanup lru list_lru-IsLru (4000 * second) holding holding-HasDistinctKeys

process_device_action_with_nonce-again_example :
    let once =
      process_device_action_with_nonce lru televisions second
        (2 * second)
        manager
        "tv"
        nonce
        "on" in
    let later = take_turns lru televisions once.1 (
      initializes false true
      ∷ acts (3 * second) (3 * second) "radio" other_nonce "on"
      ∷ cleans (4 * second)
      ∷ []) in
    let o =
      process_device_action_with_nonce lru televisions
        (5 * second)
        (5 * second)
        later
        "tv"
        nonce
        "off" in
    (o.0 ≡ once.0) × (o.1.performed ≡ later.performed)
process_device_action_with_nonce-again_example =
    process_device_action_with_nonce-again lru televisions list_lru-IsLru second (2 * second)
      manager "tv" nonce (5 * second) (5 * second) "on" "off"
      (initializes false true
        ∷ acts (3 * second) (3 * second) "radio" other_nonce "on"
        ∷ cleans (4 * second)
        ∷ [])
      validated-nonce manager-misses tt (tt, (inl radio-ne-tv, omega arith)) (omega arith)

abbrev two_configs : List DeviceConfig
two_configs = config_of "tv" "10.0.0.2" ∷ config_of "tv" "10.0.0.3" ∷ []

get_device_nonce_count-take_turns_example :
    get_device_nonce_count lru
      (take_turns lru televisions
        (new_device_manager lru televisions (config_of "tv" "10.0.0.2" ∷ []))
        (initializes false true
          ∷ acts second (2 * second) "tv" nonce "on"
          ∷ reloads two_configs false true
          ∷ acts second (2 * second) "tv" nonce "on"
          ∷ clears "tv"
          ∷ [])).nonce_cache
      "tv"
    ≤ 50
get_device_nonce_count-take_turns_example =
    get_device_nonce_count-take_turns lru list_lru-IsLru televisions
      (config_of "tv" "10.0.0.2" ∷ [])
      (initializes false true
        ∷ acts second (2 * second) "tv" nonce "on"
        ∷ reloads two_configs false true
        ∷ acts second (2 * second) "tv" nonce "on"
        ∷ clears "tv"
        ∷ [])
      "tv"

get_device-reload_example :
    let o = reload lru televisions two_configs false true manager in
    ((o.1 ≡ none) ↔ All IsGood two_configs)
    × (o.1 ≡ none
        → (k : String)
        → get_device lru televisions o.0 k
          ≡ found lru televisions false true k
              (configured lru televisions false true k two_configs))
get_device-reload_example = get_device-reload lru televisions false true two_configs manager
