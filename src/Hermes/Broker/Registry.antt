-- ===== src/Hermes/Broker/Registry.antt =====
-- internal/hermes/broker.go: the steps of the handlers on services and workers; `now` is what
-- `time.Now` returns.
use lucas.Base.{
  ℕ, ◌+◌, ◌*◌, Bool, true, false, String, List, [], ◌∷◌, ◌++◌, Option, none, some, ◌==◌,
  if◌then◌else◌, Map, lookup, insert, delete, length, modify, ltb,
}
use Prim.Native.String.{◌++◌ as append}
use lucas.Hermes.Protocol.{Bytes, Json, obj, str, member, ServiceResponse}
use lucas.Hermes.Broker.State.{
  Broker, BrokerWorker, BrokerService, Outcome, worker_not_found, deref, grace_period,
}

unfoldable pub new_service : String → BrokerService
new_service name = record {
  name = name;
  description = append "Service " name;
  workers = [];
  requests = [];
  waiting = [];
}

-- The service of that name, made if there is none.
unfoldable pub service_or_new : Broker → String → BrokerService
unfolding new_service
service_or_new b name = elim (lookup name b.services) [ none ↦ new_service name | some s ↦ s ]

abbrev pub ready_expiry : Broker → ℕ → ℕ
ready_expiry b now = now + b.heartbeat * 10

abbrev pub new_worker : ℕ → Broker → String → String → BrokerWorker
new_worker now b worker_id service_name = record {
  identity = worker_id;
  service = service_name;
  address = "";
  expiry = ready_expiry b now;
  last_ping = now;
  status = "ready";
  liveness = 10;
  requests = 0;
}

abbrev pub renewed : ℕ → Broker → String → BrokerWorker → BrokerWorker
renewed now b service_name v = record v {
  service = service_name;
  status = "ready";
  liveness = 10;
  expiry = ready_expiry b now;
  last_ping = now;
}

-- The worker of that id, made or updated: the new heap and the pointer.
unfoldable pub register_worker : ℕ → Broker → String → String → Broker × ℕ
register_worker now b worker_id service_name = elim (lookup worker_id b.workers) [
  | none ↦ (
    record b {
      heap = b.heap ++ new_worker now b worker_id service_name ∷ [];
      workers = insert worker_id (length b.heap) b.workers;
    },
    length b.heap,
  )
  | some p ↦ (record b { heap = modify b.heap p (renewed now b service_name) }, p)
]

-- The worker goes to the end of both lists of its service.
unfoldable pub enlist : Broker → String → ℕ → Broker
unfolding service_or_new
enlist b service_name p =
    let s = service_or_new b service_name in
    record b {
      services =
          insert service_name
            (record s { workers = s.workers ++ p ∷ []; waiting = s.waiting ++ p ∷ [] }) b.services;
    }

-- `w.Identity == workerID`: the first such worker leaves the list.
unfoldable pub remove_first : Broker → String → List ℕ → List ℕ
remove_first b worker_id [] = []
remove_first b worker_id (p ∷ ps) =
    if (deref b p).identity == worker_id then ps else p ∷ remove_first b worker_id ps

unfoldable pub remove_from_service : Broker → String → String → Map BrokerService
unfolding remove_first
remove_from_service b worker_id service_name = elim (lookup service_name b.services) [
  | none ↦ b.services
  | some s ↦
      insert service_name
        (record s {
          workers = remove_first b worker_id s.workers;
          waiting = remove_first b worker_id s.waiting;
        })
        b.services
]

unfoldable pub remove_worker : Broker → String → Outcome
unfolding remove_from_service
remove_worker b worker_id = elim (lookup worker_id b.workers) [
  | none ↦ (b, some (worker_not_found worker_id))
  | some p ↦ (
    record b {
      services = remove_from_service b worker_id (deref b p).service;
      workers = delete worker_id b.workers;
    },
    none,
  )
]

-- The ids of the workers whose expiry and grace period lie before `now`.
unfoldable pub expired_workers : ℕ → Broker → Map ℕ → List String
expired_workers now b [] = []
expired_workers now b ((worker_id, p) ∷ rest) =
    if ltb ((deref b p).expiry + grace_period) now
    then worker_id ∷ expired_workers now b rest
    else expired_workers now b rest

unfoldable pub remove_workers : Broker → List String → Broker
unfolding remove_worker
remove_workers b [] = b
remove_workers b (worker_id ∷ rest) = remove_workers (remove_worker b worker_id).0 rest

unfoldable pub check_worker_liveness : ℕ → Broker → Broker
unfolding expired_workers remove_workers
check_worker_liveness now b = remove_workers b (expired_workers now b b.workers)

-- A reply with the fields `devices` and `hub_id` in its data.
has_device_list : Json → Bool
has_device_list (obj fs) = elim (member "devices" fs) [
  | none ↦ false
  | some _ ↦ elim (member "hub_id" fs) [ none ↦ false | some _ ↦ true ]
]
has_device_list _ = false

unfoldable pub is_device_list_response : Option ServiceResponse → Bool
unfolding has_device_list
is_device_list_response none = false
is_device_list_response (some resp) = has_device_list resp.content

text_or : String → Option Json → String
text_or d (some (str s)) = s
text_or d _ = d

hub_id_of : String → Json → String
unfolding text_or
hub_id_of d (obj fs) = text_or d (member "hub_id" fs)
hub_id_of d _ = d

-- The hub's id in the reply, or else the worker's.
unfoldable pub actual_hub_id : String → Option ServiceResponse → String
unfolding hub_id_of
actual_hub_id worker_id none = worker_id
actual_hub_id worker_id (some resp) = hub_id_of worker_id resp.content

unfoldable pub process_device_list : Broker → String → Bytes → Broker
process_device_list b hub_id reply =
    if b.has_gateway then record b { handed = b.handed ++ (hub_id, reply) ∷ [] } else b

abbrev pub replied : ℕ → Broker → BrokerWorker → BrokerWorker
replied now b v = record v {
  requests = v.requests + 1;
  last_ping = now;
  expiry = ready_expiry b now;
}

unfoldable pub count_reply : ℕ → Broker → ℕ → Broker
count_reply now b p = record b { heap = modify b.heap p (replied now b) }

abbrev pub refreshed : ℕ → Broker → BrokerWorker → BrokerWorker
refreshed now b v = record v { last_ping = now; expiry = ready_expiry b now; liveness = 10 }

unfoldable pub refresh_worker : ℕ → Broker → ℕ → Broker
refresh_worker now b p = record b {
  heap = modify b.heap p (refreshed now b);
  stats = record (b.stats) {
    heartbeats_received = b.stats.heartbeats_received + 1;
    last_heartbeat = now;
  };
}
