-- ===== src/Hermes/Broker/Invariant/Ready.antt =====
-- internal/hermes/broker.go: READY keeps the broker well formed.
use lucas.Base.{
  ◌==◌, Bool-cases, All-append, insert-insert, lookup-insert_self, lookup-insert, insert, ℕ, ◌<◌,
  ◌≡◌, refl, ap, ◌⊎◌, inl, inr, ◌≢◌, String, List, [], ◌∷◌, ◌++◌, none, arith, All, All-map, lookup,
  length, Option-cases, All-lookup, All-insert, Map, get_or, modify, length-append, length-modify,
  get_or-append_left, get_or-append_length, HasDistinctKeys, insert-HasDistinctKeys,
}
use lucas.Hermes.Broker.State.{
  hub_control, Broker, PendingRequest, BrokerService, BrokerWorker, zero_worker,
}
use lucas.Hermes.Broker.Registry.{enlist, service_or_new, register_worker, new_worker, renewed}
use lucas.Hermes.Broker.Invariant.{
  Keeps-IsWellFormed, IsWellFormed, IsRegistered, IsListed, Grows, All-IsListed-Grows, modify-Grows,
  modified_at,
}
use lucas.Hermes.Wire.{Wire}
use lucas.Hermes.Broker.Handlers.{handle_worker_ready, drain, process_pending_requests}
use lucas.Hermes.Broker.Frames.{send_immediate_device_list_request-Keeps, drain-Keeps, Keeps}
use lucas.Hermes.Broker.Invariant.Lists.{drained_service-IsListed, process_pending_requests-eq}

-- As `IsRegistered`, but the service of that name may still be missing.
abbrev IsEnrolled : String → List BrokerWorker → Map BrokerService → String × ℕ → Type 0
IsEnrolled name heap services (worker_id, p) =
    (p < length heap)
    × ((get_or heap p zero_worker).identity ≡ worker_id)
    × (((get_or heap p zero_worker).service ≡ name)
        ⊎ (lookup (get_or heap p zero_worker).service services ≢ none))

record Enrolled (name : String) (b : Broker) (p : ℕ) : Type 0 where
  registered : All (IsEnrolled name b.heap b.services) b.workers
  listed : All (IsListed b.heap) b.services
  distinct : HasDistinctKeys b.workers
  allocated : p < length b.heap

append-Grows : (h : List BrokerWorker) (v : BrokerWorker) → Grows h (h ++ v ∷ [])
append-Grows h v = record {
  longer = omega (arith, length-append h (v ∷ []));
  same_ids = λ p lt. ap (λ x. x.identity) (get_or-append_left h (v ∷ []) p zero_worker lt);
}

IsEnrolled-append :
    (name : String) (h : List BrokerWorker) (v : BrokerWorker) (services : Map BrokerService)
    (e : String × ℕ)
    → IsRegistered h services e
    → IsEnrolled name (h ++ v ∷ []) services e
IsEnrolled-append name h v services (worker_id, p) (lt, named, known) =
    let same = get_or-append_left h (v ∷ []) p zero_worker lt in
    (omega (arith, length-append h (v ∷ [])), rw same named, inr (rw same known))

IsEnrolled-modify :
    (name : String) (h : List BrokerWorker) (p : ℕ) (f : BrokerWorker → BrokerWorker)
    (services : Map BrokerService)
    → ((v : BrokerWorker) → (f v).identity ≡ v.identity)
    → ((v : BrokerWorker) → (f v).service ≡ name)
    → (e : String × ℕ) → IsRegistered h services e
    → IsEnrolled name (modify h p f) services e
IsEnrolled-modify name h p f services same moved (worker_id, q) (lt, named, known) =
    let v = get_or h q zero_worker in
    ground (arith, length-modify h p f, modified_at h p f q lt, same v, moved v)

register_worker-Enrolled :
    (now : ℕ) (b : Broker) (worker_id name : String)
    → IsWellFormed b
    → let r = register_worker now b worker_id name in Enrolled name r.0 r.1
unfolding register_worker
register_worker-Enrolled now b worker_id name v = elim (Option-cases (lookup worker_id b.workers)) [
  | inl e ↦
      rw (e, register_worker)
        (record {
          registered =
              All-insert (IsEnrolled name (b.heap ++ u ∷ []) b.services) worker_id (length b.heap)
                b.workers
                (
                  omega (arith, length-append b.heap (u ∷ [])),
                  rw (get_or-append_length b.heap u zero_worker),
                  inl (rw (get_or-append_length b.heap u zero_worker)),
                )
                (All-map _ _ b.workers (IsEnrolled-append name b.heap u b.services) v.registered);
          listed = All-IsListed-Grows (append-Grows b.heap u) b.services v.listed;
          distinct = insert-HasDistinctKeys worker_id (length b.heap) b.workers v.distinct;
          allocated = omega (arith, length-append b.heap (u ∷ []));
        })
  | inr (p, e) ↦
      rw (e, register_worker)
        (record {
          registered =
              All-map _ _ b.workers
                (IsEnrolled-modify name b.heap p (renewed now b name) b.services (λ x. refl)
                  (λ x. refl))
                v.registered;
          listed =
              All-IsListed-Grows (modify-Grows b.heap p (renewed now b name) (λ x. refl)) b.services
                v.listed;
          distinct = v.distinct;
          allocated = omega (
            arith,
            length-modify b.heap p (renewed now b name),
            (All-lookup (IsRegistered b.heap b.services) worker_id b.workers e v.registered).0,
          );
        })
]
  where
    u : BrokerWorker
    u = new_worker now b worker_id name

service_or_new-IsListed :
    (b : Broker) (name : String)
    → All (IsListed b.heap) b.services
    → IsListed b.heap (name, service_or_new b name)
unfolding service_or_new
service_or_new-IsListed b name h = elim (Option-cases (lookup name b.services)) [
  | inl e ↦ rw (e, service_or_new) (refl, tt, tt, inl refl)
  | inr (s, e) ↦ rw (e, service_or_new) (All-lookup (IsListed b.heap) name b.services e h)
]

-- The service after the worker was put at the end of both lists.
enlisted : Broker → String → ℕ → BrokerService
enlisted b name p =
    let s = service_or_new b name in
    record s { workers = s.workers ++ p ∷ []; waiting = s.waiting ++ p ∷ [] }

IsEnrolled-insert :
    (name : String) (heap : List BrokerWorker) (s : BrokerService) (services : Map BrokerService)
    (e : String × ℕ)
    → IsEnrolled name heap services e
    → IsRegistered heap (insert name s services) e
IsEnrolled-insert name heap s services (worker_id, p) (lt, named, known) = (
  lt,
  named,
  ground (arith, known, lookup-insert name (get_or heap p zero_worker).service s services),
)

module _ (w : Wire) where
  enlist-served-IsWellFormed :
      (b : Broker) (name : String) (p : ℕ)
      → Enrolled name b p
      → IsWellFormed (process_pending_requests w (enlist b name p) name)
  unfolding enlist enlisted
  enlist-served-IsWellFormed b name p v =
      rw
        (process_pending_requests-eq w (enlist b name p) name s
          (lookup-insert_self name s b.services))
        (record {
          registered =
              rw (k.heap, k.workers, k.services, insert-insert name d s b.services)
                (All-map _ _ b.workers (IsEnrolled-insert name b.heap d b.services) v.registered);
          listed =
              rw (k.heap, k.services, insert-insert name d s b.services)
                (All-insert (IsListed b.heap) name d b.services fit v.listed);
          distinct = rw k.workers v.distinct;
        })
    where
      s : BrokerService
      s = enlisted b name p

      r : Broker × List PendingRequest × List ℕ
      r = drain w s.requests s.waiting (enlist b name p)

      d : BrokerService
      d = record s { requests = r.1; waiting = r.2 }

      k : Keeps (enlist b name p) r.0
      k = drain-Keeps w s.requests s.waiting (enlist b name p)

      old : IsListed b.heap (name, service_or_new b name)
      old = service_or_new-IsListed b name v.listed

      fit : IsListed b.heap (name, d)
      fit = drained_service-IsListed w (enlist b name p) name s (
        old.0,
        All-append (λ q. q < length b.heap) _ (p ∷ []) old.1 (v.allocated, tt),
        All-append (λ q. q < length b.heap) _ (p ∷ []) old.2 (v.allocated, tt),
      )

  pub handle_worker_ready-IsWellFormed :
      (now : ℕ) (message_id : String) (b : Broker) (worker_id name : String)
      → IsWellFormed b
      → IsWellFormed (handle_worker_ready w now message_id b worker_id name).0
  unfolding handle_worker_ready
  handle_worker_ready-IsWellFormed now message_id b worker_id name v =
      elim (Bool-cases (name == hub_control)) [
        | inl e ↦ rw e (
            Keeps-IsWellFormed
              (send_immediate_device_list_request-Keeps w message_id served worker_id) fit)
        | inr e ↦ rw e fit
      ]
    where
      r : Broker × ℕ
      r = register_worker now b worker_id name

      served : Broker
      served = process_pending_requests w (enlist r.0 name r.1) name

      fit : IsWellFormed served
      fit =
          enlist-served-IsWellFormed r.0 name r.1 (register_worker-Enrolled now b worker_id name v)
