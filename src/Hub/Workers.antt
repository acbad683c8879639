-- ===== src/Hub/Workers.antt =====
-- internal/hub/worker_service.go: WorkerService, the worker of the hub's service and its reports.
-- What a worker does is its own model; `now` is the clock in nanoseconds.
use lucas.Base.{
  ℕ, ◌+◌, ◌-◌, ◌*◌, Bool, true, false, String, [], ◌∷◌, Option, none, some, ◌≡◌, arith,
  if◌then◌else◌, ltb, Map, lookup, insert,
}
use lucas.Hermes.Protocol.{second}
use lucas.Hermes.Worker.State.{
  HermesWorker, new_worker, set_heartbeat, set_reconnect_interval, get_stats, is_connected,
}

pub record ServiceWorkerStats : Type 0 where
  pub service_name : String
  pub requests_handled : ℕ
  pub requests_failed : ℕ
  pub last_request : ℕ
  pub connected : Bool
  pub worker_identity : String

pub record WorkerServiceStats : Type 0 where
  pub registered_services : ℕ
  pub active_workers : ℕ
  pub total_requests : ℕ
  pub failed_requests : ℕ
  pub start_time : ℕ
  pub last_request : ℕ
  pub service_stats : Map ServiceWorkerStats

-- `hub_id` is the configuration's.
pub record WorkerService : Type 0 where
  pub hub_id : String
  pub workers : Map HermesWorker
  pub stats : WorkerServiceStats

unfoldable pub new_worker_service : String → ℕ → WorkerService
new_worker_service hub_id now = record {
  hub_id = hub_id;
  workers = [];
  stats = record {
    registered_services = 0;
    active_workers = 0;
    total_requests = 0;
    failed_requests = 0;
    start_time = now;
    last_request = 0;
    service_stats = [];
  };
}

-- The identity is the hub's id; the worker beats every 45 seconds.
unfoldable pub register_hub_worker : ℕ → WorkerService → WorkerService
unfolding new_worker set_heartbeat set_reconnect_interval
register_hub_worker now ws =
    let worker =
      set_reconnect_interval (set_heartbeat (new_worker "hub.control" ws.hub_id now) (45 * second))
        (10 * second) in
    record ws {
      workers = insert "hub.control" worker ws.workers;
      stats = record (ws.stats) {
        service_stats =
            insert "hub.control"
              (record {
                service_name = "hub.control";
                requests_handled = 0;
                requests_failed = 0;
                last_request = 0;
                connected = false;
                worker_identity = ws.hub_id;
              })
              ws.stats.service_stats;
        registered_services = ws.stats.registered_services + 1;
      };
    }

abbrev with_connected : Bool → ServiceWorkerStats → ServiceWorkerStats
with_connected b s = record s { connected = b }

-- The statistics of a service, if there are any.
abbrev change_at :
    String
    → (ServiceWorkerStats → ServiceWorkerStats)
    → Map ServiceWorkerStats
    → Map ServiceWorkerStats
change_at name f m = elim (lookup name m) [ none ↦ m | some s ↦ insert name (f s) m ]

unfoldable pub refresh_connected :
    Map HermesWorker → Map ServiceWorkerStats → Map ServiceWorkerStats
unfolding is_connected
refresh_connected [] m = m
refresh_connected ((name, worker) ∷ workers) m =
    refresh_connected workers (change_at name (with_connected (is_connected worker)) m)

unfoldable pub count_connected : Map HermesWorker → ℕ
unfolding is_connected
count_connected [] = 0
count_connected ((name, worker) ∷ workers) =
    (if is_connected worker then 1 else 0) + count_connected workers

-- The report, and the service: what it says of each connection is written down.
unfoldable pub get_service_stats : WorkerService → WorkerServiceStats × WorkerService
unfolding refresh_connected count_connected
get_service_stats ws =
    let services = refresh_connected ws.workers ws.stats.service_stats in
    (
      record (ws.stats) { active_workers = count_connected ws.workers; service_stats = services },
      record ws { stats = record (ws.stats) { service_stats = services } },
    )

unfoldable pub get_worker_for_service : WorkerService → String → Option HermesWorker
get_worker_for_service ws name = lookup name ws.workers

unfoldable pub is_service_active : WorkerService → String → Bool
unfolding is_connected
is_service_active ws name = elim (lookup name ws.workers) [
  | none ↦ false
  | some worker ↦ is_connected worker
]

unfoldable pub any_connected : Map HermesWorker → Bool
unfolding is_connected
any_connected [] = false
any_connected ((name, worker) ∷ workers) =
    if is_connected worker then true else any_connected workers

unfoldable pub any_reachable : ℕ → Map HermesWorker → Bool
unfolding is_connected get_stats
any_reachable now [] = false
any_reachable now ((name, worker) ∷ workers) =
    let rest = any_reachable now workers in
    if is_connected worker
    then (if ltb (now - (get_stats worker).last_heartbeat_received) (120 * second)
        then true
        else rest)
    else rest

-- `IsGatewayReachable`: a worker is connected and was answered within two minutes.
unfoldable pub is_gateway_reachable : ℕ → WorkerService → Bool
unfolding any_reachable
is_gateway_reachable now ws = any_reachable now ws.workers

unfoldable pub update_stats : Map HermesWorker → Map ServiceWorkerStats → Map ServiceWorkerStats
unfolding is_connected get_stats
update_stats [] m = m
update_stats ((name, worker) ∷ workers) m = update_stats workers (
    change_at name
      (λ s. record s {
        requests_handled = (get_stats worker).requests_handled;
        requests_failed = (get_stats worker).requests_failed;
        last_request = (get_stats worker).last_request;
        connected = is_connected worker;
      })
      m)

-- One tick of the monitor.
unfoldable pub update_worker_stats : WorkerService → WorkerService
unfolding update_stats
update_worker_stats ws = record ws {
  stats = record (ws.stats) { service_stats = update_stats ws.workers ws.stats.service_stats };
}

-- A gateway that is reachable is reached by a connected worker.
any_reachable→any_connected :
    (now : ℕ) (workers : Map HermesWorker)
    → any_reachable now workers ≡ true
    → any_connected workers ≡ true
unfolding any_reachable any_connected
any_reachable→any_connected now [] h = cc
any_reachable→any_connected now ((name, worker) ∷ workers) h =
    ground (arith, any_reachable→any_connected now workers)
