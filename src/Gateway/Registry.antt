-- ===== src/Gateway/Registry.antt =====
-- internal/gateway/broker_service.go: the registry of device services. A service is stored once and
-- changed in place, so its value stands for the pointer. Latency, error rate and uptime of a
-- provider's health are never written and are left out.
use lucas.Base.{
  ℕ, ◌+◌, Bool, String, List, [], ◌∷◌, Option, none, some, Map, if◌then◌else◌, ◌==◌, ltb, length,
  lookup, insert, delete,
}

pub record ServiceDeviceInfo : Type 0 where
  pub device_id : String
  pub name : String
  pub model : String
  pub address : String
  pub capabilities : List String
  pub status : String

pub record ServiceProvider : Type 0 where
  pub hub_id : String
  pub identity : String
  pub health : String
  pub last_check : ℕ
  pub last_seen : ℕ
  pub requests : ℕ
  pub devices : List ServiceDeviceInfo

pub record DeviceService : Type 0 where
  pub name : String
  pub device_type : String
  pub description : String
  pub capabilities : List String
  pub providers : List ServiceProvider
  pub last_seen : ℕ
  pub request_count : ℕ

abbrev pub Services : Type 0
Services = Map DeviceService

unfoldable pub register_service : DeviceService → Services → Services
register_service service sr = insert service.name service sr

unfoldable pub unregister_service : String → Services → Services
unregister_service name sr = delete name sr

unfoldable pub get_service : String → Services → Option DeviceService
get_service name sr = lookup name sr

unfoldable pub without_hub : String → List ServiceProvider → List ServiceProvider
without_hub hub_id [] = []
without_hub hub_id (p ∷ ps) =
    let rest = without_hub hub_id ps in if p.hub_id == hub_id then rest else p ∷ rest

abbrev kept_if_any : String → DeviceService → List ServiceProvider → Services → Services
kept_if_any name service [] rest = rest
kept_if_any name service (p ∷ ps) rest = (name, record service { providers = p ∷ ps }) ∷ rest

-- A service without providers goes.
unfoldable pub remove_hub_services : String → Services → Services
unfolding without_hub
remove_hub_services hub_id [] = []
remove_hub_services hub_id ((name, service) ∷ sr) =
    kept_if_any name service (without_hub hub_id service.providers) (remove_hub_services hub_id sr)

abbrev checked : ℕ → Bool → ServiceProvider → ServiceProvider
checked now healthy p = record p {
  last_check = now;
  health = if healthy then "healthy" else "unhealthy";
}

abbrev check_all : ℕ → Bool → List ServiceProvider → List ServiceProvider
check_all now healthy [] = []
check_all now healthy (p ∷ ps) = checked now healthy p ∷ check_all now healthy ps

unfoldable pub update_service_health : ℕ → String → Bool → Services → Services
update_service_health now name healthy sr = elim (lookup name sr) [
  | none ↦ sr
  | some service ↦
      insert name
        (record service { last_seen = now; providers = check_all now healthy service.providers }) sr
]

unfoldable pub remove_stale_services : ℕ → Services → Services
remove_stale_services cutoff [] = []
remove_stale_services cutoff ((name, service) ∷ sr) =
    let rest = remove_stale_services cutoff sr in
    if ltb service.last_seen cutoff then rest else (name, service) ∷ rest

pub record RegistryStats : Type 0 where
  pub total_services : ℕ
  pub total_providers : ℕ
  pub total_devices : ℕ
  pub services_by_type : Map ℕ

abbrev count_devices : List ServiceProvider → ℕ
count_devices [] = 0
count_devices (p ∷ ps) = length p.devices + count_devices ps

abbrev or_zero : Option ℕ → ℕ
or_zero none = 0
or_zero (some n) = n

unfoldable pub count_service : DeviceService → RegistryStats → RegistryStats
count_service service stats = record {
  total_services = stats.total_services + 1;
  total_providers = length service.providers + stats.total_providers;
  total_devices = count_devices service.providers + stats.total_devices;
  services_by_type =
      insert service.device_type (or_zero (lookup service.device_type stats.services_by_type) + 1)
        stats.services_by_type;
}

unfoldable pub registry_stats : Services → RegistryStats
unfolding count_service
registry_stats [] = record {
  total_services = 0;
  total_providers = 0;
  total_devices = 0;
  services_by_type = [];
}
registry_stats ((name, service) ∷ sr) = count_service service (registry_stats sr)
