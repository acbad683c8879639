-- ===== src/Hub/DeviceManager.antt =====
-- internal/hub/device_manager.go: the devices of a hub, and actions answered once for each nonce.
use Prim.Native.String
use lucas.Base.{
  ℕ, Bool, ◌&&◌, not, String, List, [], ◌∷◌, ◌++◌, Option, none, some, Map, lookup, insert,
  if◌then◌else◌, ◌==◌, length, pos, ◌*◌,
}
use lucas.Hermes.Protocol.{Bytes, second}
use lucas.Hub.Device.{ActionResponse, DeviceInfo, failed_with}
use lucas.Hub.Lru.{Lru}
use lucas.Hub.Nonce.{validate_nonce}
use lucas.Hub.NonceCache.{
  NonceResponse, NonceCache, CacheStats, new_nonce_cache, check_nonce, store_response, clear_device,
  get_stats, shutdown,
}

pub record DeviceConfig : Type 0 where
  pub id : String
  pub kind : String
  pub model : String
  pub address : String
  pub credential : String
  pub capabilities : List String

-- What `Process` gives: a response, or an error with its text.
pub data Processed : Type 0 where
  processed : ActionResponse → Processed
  failed : String → Processed

-- A kind of devices that the manager can hold: how one is made from its configuration with the
-- debug and the test mode, what it says of itself, and what `Process` gives at its call of that
-- number, which depends on the world outside.
pub record Devices : Type 1 where
  pub Device : Type 0
  pub new_bravia_remote : String → String → Bool → Bool → Device
  pub device_info : Device → DeviceInfo
  pub process : Device → ℕ → Bytes → Processed

pub data ManagerError : Type 0 where
  credential_required : ManagerError
  unsupported_device_type device_not_found : String → ManagerError
  failed_to_create : String → ManagerError → ManagerError

-- A result, or an error.
pub data Result (A : Type 0) : Type 0 where
  ok : A → Result A
  err : ManagerError → Result A

module _ (l : Lru NonceResponse) (ds : Devices) where
  open ds use {Device, new_bravia_remote, device_info, process}

  -- `performed` are the actions that devices were given, oldest first.
  pub record DeviceManager : Type 0 where
    pub devices : Map Device
    pub config : List DeviceConfig
    pub nonce_cache : NonceCache l
    pub performed : List (String × Bytes)

  unfoldable pub new_device_manager : List DeviceConfig → DeviceManager
  unfolding new_nonce_cache
  new_device_manager config = record {
    devices = [];
    config = config;
    nonce_cache = new_nonce_cache l (pos 50) (pos (3600 * second));
    performed = [];
  }

  unfoldable pub create_device : DeviceConfig → Bool → Bool → Result Device
  create_device config debug test_mode =
      if config.kind == "bravia"
      then if config.credential == ""
        then err credential_required
        else ok (new_bravia_remote config.address config.credential debug test_mode)
      else err (unsupported_device_type config.kind)

  abbrev add_device : DeviceManager → String → Device → DeviceManager
  add_device dm id device = record dm { devices = insert id device dm.devices }

  -- The loop over the configured devices: the first that fails ends it.
  unfoldable pub add_devices :
      List DeviceConfig → Bool → Bool → DeviceManager → DeviceManager × Option ManagerError
  unfolding create_device
  add_devices [] debug test_mode dm = (dm, none)
  add_devices (config ∷ rest) debug test_mode dm = elim (create_device config debug test_mode) [
    | err e ↦ (dm, some (failed_to_create config.id e))
    | ok device ↦ add_devices rest debug test_mode (add_device dm config.id device)
  ]

  unfoldable pub initialize : Bool → Bool → DeviceManager → DeviceManager × Option ManagerError
  unfolding add_devices
  initialize debug test_mode dm = add_devices dm.config debug test_mode dm

  unfoldable pub get_device : DeviceManager → String → Result Device
  get_device dm id = elim (lookup id dm.devices) [
    | none ↦ err (device_not_found id)
    | some device ↦ ok device
  ]

  unfoldable pub get_device_info : DeviceManager → String → Result DeviceInfo
  unfolding get_device
  get_device_info dm id = elim (get_device dm id) [
    | err e ↦ err e
    | ok device ↦ ok (device_info device)
  ]

  unfoldable pub get_all_device_info : Map Device → Map DeviceInfo
  get_all_device_info [] = []
  get_all_device_info ((id, device) ∷ m) = (id, device_info device) ∷ get_all_device_info m

  unfoldable pub get_device_count : DeviceManager → ℕ
  get_device_count dm = length dm.devices

  abbrev response_of : Processed → ActionResponse
  response_of (processed r) = r
  response_of (failed e) = failed_with (String.◌++◌ "Action processing failed: " e)

  -- It never returns an error.
  unfoldable pub process_device_action :
      DeviceManager → String → Bytes → ActionResponse × DeviceManager
  unfolding get_device
  process_device_action dm device_id action = elim (get_device dm device_id) [
    | err e ↦ (failed_with (String.◌++◌ "Device not found: " device_id), dm)
    | ok device ↦ (
      response_of (process device (length dm.performed) action),
      record dm { performed = dm.performed ++ (device_id, action) ∷ [] },
    )
  ]

  abbrev with_nonces : DeviceManager → NonceCache l → DeviceManager
  with_nonces dm nc = record dm { nonce_cache = nc }

  -- An action whose nonce is not in the cache; `ended` is the time of the store.
  unfoldable pub process_new :
      ℕ → DeviceManager → String → String → Bytes → ActionResponse × DeviceManager
  process_new ended dm device_id nonce action =
      if not (nonce == "") && not (validate_nonce nonce)
      then (failed_with "Invalid nonce format", dm)
      else (let (response, done) = process_device_action dm device_id action in
          (
            response,
            with_nonces done (store_response l ended done.nonce_cache device_id nonce response),
          ))

  unfoldable pub process_unless_cached :
      ℕ
      → DeviceManager
      → String
      → String
      → Bytes
      → Option ActionResponse
      → ActionResponse × DeviceManager
  process_unless_cached ended dm device_id nonce action (some response) = (response, dm)
  process_unless_cached ended dm device_id nonce action none =
      process_new ended dm device_id nonce action

  -- `started` is the time of the check.
  unfoldable pub process_device_action_with_nonce :
      ℕ → ℕ → DeviceManager → String → String → Bytes → ActionResponse × DeviceManager
  unfolding process_unless_cached
  process_device_action_with_nonce started ended dm device_id nonce action =
      let (cached, nc) = check_nonce l started dm.nonce_cache device_id nonce in
      process_unless_cached ended (with_nonces dm nc) device_id nonce action cached

  unfoldable pub shutdown_manager : DeviceManager → DeviceManager
  unfolding shutdown
  shutdown_manager dm = record dm { nonce_cache = shutdown l dm.nonce_cache; devices = [] }

  unfoldable pub reload :
      List DeviceConfig → Bool → Bool → DeviceManager → DeviceManager × Option ManagerError
  unfolding shutdown_manager initialize
  reload config debug test_mode dm =
      initialize debug test_mode (record (shutdown_manager dm) { config = config })

  unfoldable pub get_nonce_stats : DeviceManager → CacheStats l
  unfolding get_stats
  get_nonce_stats dm = get_stats l dm.nonce_cache

  unfoldable pub clear_device_nonces : DeviceManager → String → DeviceManager
  unfolding clear_device
  clear_device_nonces dm device_id = with_nonces dm (clear_device l dm.nonce_cache device_id)
