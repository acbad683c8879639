-- ===== src/Hermes/Broker/Invariant.antt =====
-- internal/hermes/broker.go: what holds of the services and workers in every state.
pub mod Lists
pub mod Ready
pub mod Changes
pub mod Steps
pub mod Runs
use lucas.Base.{
  ℕ, ◌≤◌, ◌<◌, ◌≡◌, ◌≢◌, ◌⊎◌, String, List, [], none, arith, Map, lookup, insert, length, get_or,
  modify, All, All-map, All-insert, HasDistinctKeys, lookup-insert, length-modify,
  get_or-modify_self, get_or-modify_ne,
}
use lucas.Hermes.Broker.State.{Broker, BrokerService, BrokerWorker, zero_worker}
use lucas.Hermes.Broker.Frames.{Keeps}

-- A registered worker is in the heap under its own id, and its service exists.
abbrev pub IsRegistered : List BrokerWorker → Map BrokerService → String × ℕ → Type 0
IsRegistered heap services (worker_id, p) =
    (p < length heap)
    × ((get_or heap p zero_worker).identity ≡ worker_id)
    × (lookup (get_or heap p zero_worker).service services ≢ none)

-- No request waits while a worker waits.
abbrev pub IsDrained : BrokerService → Type 0
IsDrained s = (s.requests ≡ []) ⊎ (s.waiting ≡ [])

-- A service has its name, points into the heap, and is drained.
abbrev pub IsListed : List BrokerWorker → String × BrokerService → Type 0
IsListed heap (name, s) =
    (s.name ≡ name)
    × All (λ p. p < length heap) s.workers
    × All (λ p. p < length heap) s.waiting
    × IsDrained s

pub record IsWellFormed (b : Broker) : Type 0 where
  pub registered : All (IsRegistered b.heap b.services) b.workers
  pub listed : All (IsListed b.heap) b.services
  pub distinct : HasDistinctKeys b.workers

pub Keeps-IsWellFormed : {b b' : Broker} → Keeps b b' → IsWellFormed b → IsWellFormed b'
Keeps-IsWellFormed k v = record {
  registered = rw (k.heap, k.services, k.workers) v.registered;
  listed = rw (k.heap, k.services) v.listed;
  distinct = rw k.workers v.distinct;
}

-- Workers are added to the heap, and keep their ids.
pub record Grows (h h' : List BrokerWorker) : Type 0 where
  pub longer : length h ≤ length h'
  pub same_ids :
      (p : ℕ)
      → p < length h
      → (get_or h' p zero_worker).identity ≡ (get_or h p zero_worker).identity

pub All-lt_mono : {m n : ℕ} → m ≤ n → (ps : List ℕ) → All (λ p. p < m) ps → All (λ p. p < n) ps
All-lt_mono {m} {n} h ps = All-map (λ p. p < m) (λ p. p < n) ps (λ p lt. omega arith)

IsListed-Grows :
    {h h' : List BrokerWorker}
    → Grows h h'
    → (e : String × BrokerService) → IsListed h e
    → IsListed h' e
IsListed-Grows g (name, s) (named, ws, qs, dr) =
    (named, All-lt_mono g.longer s.workers ws, All-lt_mono g.longer s.waiting qs, dr)

pub All-IsListed-Grows :
    {h h' : List BrokerWorker}
    → Grows h h'
    → (services : Map BrokerService) → All (IsListed h) services
    → All (IsListed h') services
All-IsListed-Grows g services = All-map _ _ services (IsListed-Grows g)

-- A service that exists still exists after a write.
pub known-insert :
    (j k : String) (s : BrokerService) (services : Map BrokerService)
    → lookup j services ≢ none
    → lookup j (insert k s services) ≢ none
known-insert j k s services h = ground (arith, lookup-insert k j s services)

pub known-insert_self :
    (k : String) (s : BrokerService) (services : Map BrokerService)
    → lookup k (insert k s services) ≢ none
known-insert_self k s services = ground (arith, lookup-insert k k s services)

IsRegistered-insert :
    (heap : List BrokerWorker) (k : String) (s : BrokerService) (services : Map BrokerService)
    (e : String × ℕ)
    → IsRegistered heap services e
    → IsRegistered heap (insert k s services) e
IsRegistered-insert heap k s services (worker_id, p) (lt, named, known) =
    (lt, named, known-insert _ k s services known)

-- A write of a service that is fit keeps the broker well formed.
pub with_service-IsWellFormed :
    (b : Broker) (k : String) (s : BrokerService)
    → IsWellFormed b
    → IsListed b.heap (k, s)
    → IsWellFormed (record b { services = insert k s b.services })
with_service-IsWellFormed b k s v h = record {
  registered = All-map _ _ b.workers (IsRegistered-insert b.heap k s b.services) v.registered;
  listed = All-insert (IsListed b.heap) k s b.services h v.listed;
  distinct = v.distinct;
}

-- A change of one worker that keeps its id and its service.
module _ (h : List BrokerWorker) (p : ℕ) (f : BrokerWorker → BrokerWorker) where
  pub modified_at :
      (q : ℕ)
      → q < length h
      → (get_or (modify h p f) q zero_worker ≡ f (get_or h q zero_worker))
        ⊎ (get_or (modify h p f) q zero_worker ≡ get_or h q zero_worker)
  modified_at q lt =
      grind (arith, get_or-modify_self h p f zero_worker, get_or-modify_ne h p q f zero_worker)

  pub modify-Grows : ((v : BrokerWorker) → (f v).identity ≡ v.identity) → Grows h (modify h p f)
  modify-Grows same = record {
    longer = omega (arith, length-modify h p f);
    same_ids = λ q lt. ground (arith, modified_at q lt, same (get_or h q zero_worker));
  }

  pub IsRegistered-modify :
      (services : Map BrokerService)
      → ((v : BrokerWorker) → (f v).identity ≡ v.identity)
      → ((v : BrokerWorker) → (f v).service ≡ v.service)
      → (e : String × ℕ) → IsRegistered h services e
      → IsRegistered (modify h p f) services e
  IsRegistered-modify services same kept (worker_id, q) (lt, named, known) =
      let other = get_or h q zero_worker in
      ground (arith, length-modify h p f, modified_at q lt, same other, kept other)
