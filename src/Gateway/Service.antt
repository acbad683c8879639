-- ===== src/Gateway/Service.antt =====
-- internal/gateway/broker_service.go: the broker service: hubs that register and leave, and the
-- check of health. What the broker does is its own model.
use Prim.Native.String
use lucas.Base.{
  ◌*◌, ℕ, ◌-◌, Bool, true, false, String, List, [], ◌∷◌, Option, none, some, Map, if◌then◌else◌,
  ◌==◌, ltb, lookup, insert, delete, contains,
}
use lucas.Hermes.Protocol.{second, BrokerStats}
use lucas.Hermes.Broker.State.{Broker, hub_control}
use lucas.Hermes.Broker.Reports.{ServiceInfo, WorkerInfo, get_services, get_workers, get_stats}
use lucas.Hermes.Client.State.{HermesClient}
use lucas.Gateway.Store.{
  within, Device, Database, Answer, good, bad, Action, pure, ◌>>=◌, ◌>>◌, handle, wrap, Faults,
}
use lucas.Gateway.Hubs.{get_hub_by_hub_id, register_hub}
use lucas.Gateway.Presence.{update_hub_status}
use lucas.Gateway.Devices.{get_hub_devices, update_device_status}
use lucas.Gateway.Registry.{
  Services, ServiceDeviceInfo, RegistryStats, register_service, remove_hub_services,
  update_service_health, remove_stale_services, registry_stats,
}
use lucas.Gateway.DeviceList.{extract_hub_id_from_worker_identity}

-- The registry and the database of a broker service; its `hub_handlers` are the hubs' ids. The
-- client may be nil.
pub record BrokerService : Type 0 where
  pub broker : Broker
  pub registry : Services
  pub database : Database
  pub hub_handlers : Map String
  pub client : Option HermesClient

abbrev pub with_database : BrokerService → Database → BrokerService
with_database bs d = record bs { database = d }

-- The capabilities of all devices, each once.
abbrev add_capability : String → List String → List String
add_capability s seen = if contains s seen then seen else s ∷ seen

abbrev add_capabilities : List String → List String → List String
add_capabilities [] seen = seen
add_capabilities (s ∷ rest) seen = add_capability s (add_capabilities rest seen)

unfoldable pub extract_capabilities : List ServiceDeviceInfo → List String
unfolding contains
extract_capabilities [] = []
extract_capabilities (v ∷ rest) = add_capabilities v.capabilities (extract_capabilities rest)

-- The first worker of the service, in the order of the map.
unfoldable pub identity_for : String → Map WorkerInfo → String
identity_for service [] = ""
identity_for service ((id, worker) ∷ m) =
    if worker.service == service then id else identity_for service m

unfoldable pub register_device_service :
    ℕ → String → String → List ServiceDeviceInfo → BrokerService → BrokerService
unfolding identity_for extract_capabilities get_workers register_service
register_device_service now hub_id device_type devices bs =
    let name = String.◌++◌ "device." device_type in
    record bs {
      registry =
          register_service
            (record {
              name = name;
              device_type = device_type;
              description = String.◌++◌ device_type " device service";
              capabilities = extract_capabilities devices;
              providers =
                  record {
                    hub_id = hub_id;
                    identity = identity_for name (get_workers bs.broker);
                    health = "healthy";
                    last_check = now;
                    last_seen = now;
                    requests = 0;
                    devices = devices;
                  }
                  ∷ [];
              last_seen = now;
              request_count = 0;
            })
            bs.registry;
    }

-- The workers of a service that were heard of within a minute.
unfoldable pub active_workers : ℕ → Map WorkerInfo → List String → List String
active_workers now workers [] = []
active_workers now workers (id ∷ ids) =
    let rest = active_workers now workers ids in
    elim (lookup id workers) [
      | none ↦ rest
      | some worker ↦ if ltb (now - worker.last_ping) (60 * second) then id ∷ rest else rest
    ]

abbrev is_any : List String → Bool
is_any [] = false
is_any (id ∷ ids) = true

module _ (faults : Faults) where
  unfoldable pub register_hub_service :
      ℕ → String → String → String → String → BrokerService → Answer (Unit {0}) × BrokerService
  unfolding register_hub
  register_hub_service now hub_id public_key name product_key bs =
      let (r, d) = register_hub faults now hub_id public_key name product_key bs.database in
      elim r [
        | bad e ↦ (bad (within "failed to register hub in database" e), with_database bs d)
        | good h ↦ (
          good tt,
          record bs { database = d; hub_handlers = insert hub_id hub_id bs.hub_handlers },
        )
      ]

  -- An error of one update is only logged.
  unfoldable pub update_all : String → List Device → Action (Unit {0})
  unfolding update_device_status
  update_all status [] = pure tt
  update_all status (v ∷ rest) =
      handle (update_device_status faults v.device_id status) pure (λ e. pure tt)
      >> update_all status rest

  unfoldable pub update_hub_devices_status : String → String → Action (Unit {0})
  unfolding get_hub_by_hub_id get_hub_devices update_all
  update_hub_devices_status hub_id status = do
    hub ← wrap "failed to get hub record" (get_hub_by_hub_id faults hub_id)
    devices ← wrap "failed to get devices for hub" (get_hub_devices faults hub.id)
    update_all status devices

  -- Errors of the database are only logged.
  unfoldable pub unregister_hub : ℕ → String → BrokerService → BrokerService
  unfolding remove_hub_services update_hub_status update_hub_devices_status
  unregister_hub now hub_id bs =
      let leave =
        handle (update_hub_status faults now hub_id "offline") pure (λ e. pure tt)
        >> handle (update_hub_devices_status hub_id "offline") pure (λ e. pure tt) in
      record bs {
        hub_handlers = delete hub_id bs.hub_handlers;
        registry = remove_hub_services hub_id bs.registry;
        database = (leave bs.database).1;
      }

  -- The hubs of the active workers are online; an error is only logged.
  unfoldable pub update_active_hubs : ℕ → List String → Action (Unit {0})
  unfolding update_hub_status
  update_active_hubs now [] = pure tt
  update_active_hubs now (id ∷ ids) =
      handle (update_hub_status faults now (extract_hub_id_from_worker_identity id) "online") pure
        (λ e. pure tt)
      >> update_active_hubs now ids

  abbrev hubs_of : ℕ → String → List String → Database → Database
  hubs_of now name active d = if name == hub_control then (update_active_hubs now active d).1 else d

  -- The loop over the services of the broker. `seconds` is the database's time, `now` the clock's.
  unfoldable pub check_services :
      ℕ → ℕ → Map WorkerInfo → Map ServiceInfo → BrokerService → BrokerService
  unfolding active_workers update_service_health update_active_hubs
  check_services now seconds workers [] bs = bs
  check_services now seconds workers ((name, info) ∷ rest) bs =
      let active = active_workers now workers info.workers in
      check_services now seconds workers rest (record bs {
        registry = update_service_health now name (is_any active) bs.registry;
        database = hubs_of seconds name active bs.database;
      })

  unfoldable pub check_service_health : ℕ → ℕ → BrokerService → BrokerService
  unfolding check_services get_workers get_services
  check_service_health now seconds bs =
      check_services now seconds (get_workers bs.broker) (get_services bs.broker) bs

  unfoldable pub cleanup_stale_services : ℕ → BrokerService → BrokerService
  unfolding remove_stale_services
  cleanup_stale_services now bs = record bs {
    registry = remove_stale_services (now - 300 * second) bs.registry;
  }

  -- One tick of the monitor.
  unfoldable pub monitor_services : ℕ → ℕ → BrokerService → BrokerService
  unfolding check_service_health cleanup_stale_services
  monitor_services now seconds bs = cleanup_stale_services now (check_service_health now seconds bs)

-- `GetServiceStats`.
pub record GatewayStats : Type 0 where
  pub broker : BrokerStats
  pub services : Map ServiceInfo
  pub workers : Map WorkerInfo
  pub registry : RegistryStats

unfoldable pub get_service_stats : BrokerService → GatewayStats
unfolding get_stats get_services get_workers registry_stats
get_service_stats bs = record {
  broker = get_stats bs.broker;
  services = get_services bs.broker;
  workers = get_workers bs.broker;
  registry = registry_stats bs.registry;
}
