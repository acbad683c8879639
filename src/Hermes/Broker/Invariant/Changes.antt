-- ===== src/Hermes/Broker/Invariant/Changes.antt =====
-- internal/hermes/broker.go: the changes that send nothing keep the broker well formed.
use lucas.Base.{
  length, ◌<◌, subst, All-lookup, inl, inr, delete-HasDistinctKeys, All-map, lookup, modify,
  All-delete, Option-cases, delete, ℕ, ◌≡◌, refl, String, List, [], ◌∷◌, arith, All,
}
use lucas.Hermes.Broker.State.{deref, BrokerWorker, BrokerService, Broker}
use lucas.Hermes.Broker.Invariant.{
  with_service-IsWellFormed, IsListed, modify-Grows, All-IsListed-Grows, IsRegistered-modify,
  IsRegistered, IsDrained, IsWellFormed,
}
use lucas.Hermes.Broker.Handlers.{note_client}
use lucas.Hermes.Broker.Registry.{
  expired_workers, remove_first, refreshed, count_reply, remove_worker, remove_workers,
  check_worker_liveness, remove_from_service, process_device_list, refresh_worker,
}
use lucas.Hermes.Protocol.{Bytes}
use lucas.Hermes.Broker.Invariant.Lists.{remove_first-All, remove_first-nil}

-- A change of one worker that keeps its id and service.
modified-IsWellFormed :
    (b : Broker) (p : ℕ) (f : BrokerWorker → BrokerWorker)
    → ((v : BrokerWorker) → (f v).identity ≡ v.identity)
    → ((v : BrokerWorker) → (f v).service ≡ v.service)
    → IsWellFormed b
    → IsWellFormed (record b { heap = modify b.heap p f })
modified-IsWellFormed b p f same kept v = record {
  registered =
      All-map _ _ b.workers (IsRegistered-modify b.heap p f b.services same kept) v.registered;
  listed = All-IsListed-Grows (modify-Grows b.heap p f same) b.services v.listed;
  distinct = v.distinct;
}

pub count_reply-IsWellFormed :
    (now : ℕ) (b : Broker) (p : ℕ) → IsWellFormed b → IsWellFormed (count_reply now b p)
unfolding count_reply
count_reply-IsWellFormed now b p v = modified-IsWellFormed b p _ (λ x. refl) (λ x. refl) v

pub refresh_worker-IsWellFormed :
    (now : ℕ) (b : Broker) (p : ℕ) → IsWellFormed b → IsWellFormed (refresh_worker now b p)
unfolding refresh_worker
refresh_worker-IsWellFormed now b p v =
    let u = modified-IsWellFormed b p (refreshed now b) (λ x. refl) (λ x. refl) v in
    record { registered = u.registered; listed = u.listed; distinct = u.distinct }

without_worker-IsWellFormed :
    (b : Broker) (worker_id : String)
    → IsWellFormed b
    → IsWellFormed (record b { workers = delete worker_id b.workers })
without_worker-IsWellFormed b worker_id v = record {
  registered = All-delete (IsRegistered b.heap b.services) worker_id b.workers v.registered;
  listed = v.listed;
  distinct = delete-HasDistinctKeys worker_id b.workers v.distinct;
}

remove_first-IsDrained :
    (b : Broker) (worker_id : String) (s : BrokerService)
    → IsDrained s
    → IsDrained (record s {
      workers = remove_first b worker_id s.workers;
      waiting = remove_first b worker_id s.waiting;
    })
remove_first-IsDrained b worker_id s (inl e) = inl e
remove_first-IsDrained b worker_id s (inr e) = inr (rw e (remove_first-nil b worker_id))

remove_from_service-IsWellFormed :
    (b : Broker) (worker_id name : String)
    → IsWellFormed b
    → IsWellFormed (record b { services = remove_from_service b worker_id name })
unfolding remove_from_service
remove_from_service-IsWellFormed b worker_id name v = elim (Option-cases (lookup name b.services)) [
  | inl e ↦ rw (e, remove_from_service) v
  | inr (s, e) ↦
      let (named, ws, qs, dr) = All-lookup (IsListed b.heap) name b.services e v.listed in
      rw (e, remove_from_service)
        (with_service-IsWellFormed b name _ v (
          named,
          remove_first-All (λ p. p < length b.heap) b worker_id s.workers ws,
          remove_first-All (λ p. p < length b.heap) b worker_id s.waiting qs,
          remove_first-IsDrained b worker_id s dr,
        ))
]

pub remove_worker-IsWellFormed :
    (b : Broker) (worker_id : String) → IsWellFormed b → IsWellFormed (remove_worker b worker_id).0
unfolding remove_worker
remove_worker-IsWellFormed b worker_id v = elim (Option-cases (lookup worker_id b.workers)) [
  | inl e ↦ rw (e, remove_worker) v
  | inr (p, e) ↦
      rw (e, remove_worker)
        (without_worker-IsWellFormed _ worker_id
          (remove_from_service-IsWellFormed b worker_id (deref b p).service v))
]

remove_workers-IsWellFormed :
    (b : Broker) (ids : List String) → IsWellFormed b → IsWellFormed (remove_workers b ids)
unfolding remove_workers
remove_workers-IsWellFormed b [] v = v
remove_workers-IsWellFormed b (worker_id ∷ rest) v =
    remove_workers-IsWellFormed (remove_worker b worker_id).0 rest
      (remove_worker-IsWellFormed b worker_id v)

pub check_worker_liveness-IsWellFormed :
    (now : ℕ) (b : Broker) → IsWellFormed b → IsWellFormed (check_worker_liveness now b)
unfolding check_worker_liveness
check_worker_liveness-IsWellFormed now b v =
    remove_workers-IsWellFormed b (expired_workers now b b.workers) v

pub note_client-IsWellFormed :
    (now : ℕ) (b : Broker) (client_id : String)
    → IsWellFormed b
    → IsWellFormed (note_client now b client_id)
unfolding note_client
note_client-IsWellFormed now b client_id v = record {
  registered = v.registered;
  listed = v.listed;
  distinct = v.distinct;
}

pub process_device_list-IsWellFormed :
    (b : Broker) (hub_id : String) (reply : Bytes)
    → IsWellFormed b
    → IsWellFormed (process_device_list b hub_id reply)
unfolding process_device_list
process_device_list-IsWellFormed b hub_id reply v = ground arith

pub assigned-IsListed :
    (heap : List BrokerWorker) (name : String) (s : BrokerService) (p : ℕ) (ps : List ℕ)
    → s.waiting ≡ p ∷ ps
    → IsListed heap (name, s)
    → IsListed heap (name, record s { waiting = ps })
assigned-IsListed heap name s p ps e (named, ws, qs, dr) =
    let qs' = subst (All (λ q. q < length heap)) e qs in (named, ws, qs'.1, inl (ground arith))
