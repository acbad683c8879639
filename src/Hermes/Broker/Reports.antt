-- ===== src/Hermes/Broker/Reports.antt =====
-- internal/hermes/broker.go: what the broker reports of itself, how it starts and stops, and how
-- it reads the text of an error.
use text.Mathlib.Text.{find?}
use lucas.Base.{
  All-lookup, inr, ap, ◌∙◌, inl, Option-cases, ◌⊎◌, lookup, ℕ, Bool, true, false, ◌||◌, String,
  List, [], ◌∷◌, Option, none, some, ◌==◌, Map, map, length, ◌≡◌, refl, arith,
}
use mathlib.Core.Option
use lucas.Hermes.Protocol.{BrokerStats}
use lucas.Hermes.Broker.State.{Broker, BrokerService, BrokerWorker, deref}
use lucas.Hermes.Broker.Invariant.{IsRegistered, IsWellFormed}

-- `Listen` returns no error, or the text of one.
unfoldable pub start : Broker → Option String → Broker × Option String
start b none = (record b { has_socket = true }, none)
start b (some e) = (b, some e)

-- An error of `Close` is only logged.
unfoldable pub stop : Broker → Broker
stop b = record b { has_socket = false }

unfoldable pub set_broker_service : Broker → Bool → Broker
set_broker_service b present = record b { has_gateway = present }

unfoldable pub get_stats : Broker → BrokerStats
get_stats b = record (b.stats) { services = length b.services; workers = length b.workers }

pub record ServiceInfo : Type 0 where
  pub name : String
  pub description : String
  pub workers : List String
  pub last_seen : ℕ
  pub status : String

pub record WorkerInfo : Type 0 where
  pub identity : String
  pub service : String
  pub expiry : ℕ
  pub last_ping : ℕ
  pub status : String
  pub liveness : ℕ
  pub requests : ℕ

-- When the first worker of the list was last heard of; the zero time without one.
unfoldable pub last_seen : Broker → List ℕ → ℕ
last_seen b [] = 0
last_seen b (p ∷ ps) = (deref b p).last_ping

unfoldable pub service_info : Broker → BrokerService → ServiceInfo
unfolding last_seen
service_info b s = record {
  name = s.name;
  description = s.description;
  workers = map (λ p. (deref b p).identity) s.workers;
  last_seen = last_seen b s.workers;
  status = "active";
}

unfoldable pub worker_info : BrokerWorker → WorkerInfo
worker_info v = record {
  identity = v.identity;
  service = v.service;
  expiry = v.expiry;
  last_ping = v.last_ping;
  status = v.status;
  liveness = v.liveness;
  requests = v.requests;
}

-- A Go loop that fills a new map under the keys of another.
unfoldable pub map_values {ℓ κ} : {V : Type ℓ} {W : Type κ} → (V → W) → Map V → Map W
map_values f [] = []
map_values f ((k, v) ∷ m) = (k, f v) ∷ map_values f m

unfoldable pub get_services : Broker → Map ServiceInfo
unfolding map_values service_info
get_services b = map_values (service_info b) b.services

unfoldable pub get_workers : Broker → Map WorkerInfo
unfolding map_values worker_info
get_workers b = map_values (λ p. worker_info (deref b p)) b.workers

-- `strings.Contains`.
abbrev contains : String → String → Bool
contains text part = elim (find? text part) [ none ↦ false | some _ ↦ true ]

unfoldable pub is_temporary_error : Option String → Bool
is_temporary_error none = false
is_temporary_error (some text) =
    text == "resource temporarily unavailable"
    || text == "no message available"
    || text == "operation would block"

unfoldable pub is_connection_error : Option String → Bool
is_connection_error none = false
is_connection_error (some text) =
    contains text "connection"
    || contains text "network"
    || contains text "broken pipe"
    || contains text "socket"
    || contains text "peer"
    || contains text "closed"
    || contains text "reset"

lookup-map_values {ℓ κ} :
    {V : Type ℓ} {W : Type κ} (f : V → W) (k : String) (m : Map V)
    → lookup k (map_values f m) ≡ Option.map f (lookup k m)
unfolding map_values lookup
lookup-map_values f k [] = refl
lookup-map_values f k ((j, v) ∷ m) = ground (arith, lookup-map_values f k m)

-- In a well-formed broker each registered id is reported with a worker of that id, and no other
-- id is reported.
pub lookup-get_workers :
    (b : Broker) (worker_id : String)
    → IsWellFormed b
    → ((lookup worker_id b.workers ≡ none) × (lookup worker_id (get_workers b) ≡ none))
      ⊎ ((info : WorkerInfo) × (lookup worker_id (get_workers b) ≡ some info)
          × (info.identity ≡ worker_id))
unfolding get_workers
lookup-get_workers b worker_id v = elim (Option-cases (lookup worker_id b.workers)) [
  | inl e ↦ inl (e, lookup-map_values _ worker_id b.workers ∙ ap (Option.map _) e)
  | inr (p, e) ↦ inr (
    worker_info (deref b p),
    lookup-map_values _ worker_id b.workers ∙ ap (Option.map _) e,
    (All-lookup (IsRegistered b.heap b.services) worker_id b.workers e v.registered).1,
  )
]
