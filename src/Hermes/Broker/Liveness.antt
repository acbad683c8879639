-- ===== src/Hermes/Broker/Liveness.antt =====
-- internal/hermes/broker.go: which workers the look for dead workers removes.
use lucas.Base.{
  contains, get_or-modify_self, get_or, ap, length, All-lookup, lookup-delete, HasDistinctKeys,
  str_dec, ◌*◌, if◌then◌else◌, ite, ltb, Map, lookup, false, ◌∙◌, Option, Bool, ℕ, ◌+◌, ◌≤◌, ◌<◌,
  ◌≡◌, refl, String, List, [], ◌∷◌, none, some, arith,
}
use lucas.Hermes.Broker.State.{zero_worker, deref, grace_period, Broker}
use lucas.Hermes.Wire.{Wire}
use lucas.Hermes.Broker.Registry.{
  refreshed, refresh_worker, expired_workers, remove_workers, check_worker_liveness, remove_worker,
}
use lucas.Hermes.Broker.Invariant.{IsRegistered, IsWellFormed}
use lucas.Hermes.Broker.Handlers.{handle_worker_heartbeat}
use lucas.Hermes.Broker.Invariant.Steps.{handle_worker_heartbeat-IsWellFormed}
use lucas.Hermes.Broker.Frames.{send_heartbeat_response-Keeps, Keeps}
use lucas.Hermes.Broker.Sends.{send_heartbeat_response}

-- The worker of that id is past its expiry and the grace period.
pub is_expired : ℕ → Broker → Option ℕ → Bool
is_expired now b none = false
is_expired now b (some p) = ltb ((deref b p).expiry + grace_period) now

remove_worker-heap : (b : Broker) (k : String) → (remove_worker b k).0.heap ≡ b.heap
unfolding remove_worker
remove_worker-heap b k = ground arith

-- Removing workers leaves the heap as it was, and no worker under a listed id.
remove_workers-heap : (b : Broker) (ids : List String) → (remove_workers b ids).heap ≡ b.heap
unfolding remove_workers remove_worker
remove_workers-heap b [] = refl
remove_workers-heap b (worker_id ∷ rest) =
    remove_workers-heap (remove_worker b worker_id).0 rest ∙ remove_worker-heap b worker_id

lookup-remove_worker :
    (b : Broker) (k j : String)
    → lookup j (remove_worker b k).0.workers ≡ ite (str_dec k j) none (lookup j b.workers)
unfolding remove_worker
lookup-remove_worker b k j = ground (arith, lookup-delete k j b.workers)

lookup-remove_workers :
    (b : Broker) (ids : List String) (j : String)
    → lookup j (remove_workers b ids).workers
      ≡ (if contains j ids then none else lookup j b.workers)
unfolding remove_workers contains
lookup-remove_workers b [] j = refl
lookup-remove_workers b (k ∷ ks) j =
    ground (arith, lookup-remove_workers (remove_worker b k).0 ks j, lookup-remove_worker b k j)

contains-expired_workers :
    (now : ℕ) (b : Broker) (m : Map ℕ) (k : String)
    → HasDistinctKeys m
    → contains k (expired_workers now b m) ≡ is_expired now b (lookup k m)
unfolding contains expired_workers is_expired lookup
contains-expired_workers now b [] k h = refl
contains-expired_workers now b ((j, p) ∷ m) k h =
    ground (arith, contains-expired_workers now b m k h.1)

-- In a well-formed broker a look for dead workers at time `now` removes exactly the workers whose
-- expiry and grace period lie before `now`; every other id keeps its worker, unchanged.
pub lookup-check_worker_liveness :
    (now : ℕ) (b : Broker) (worker_id : String)
    → IsWellFormed b
    → (lookup worker_id (check_worker_liveness now b).workers ≡ (
        if is_expired now b (lookup worker_id b.workers) then none else lookup worker_id b.workers))
      × ((check_worker_liveness now b).heap ≡ b.heap)
unfolding check_worker_liveness
lookup-check_worker_liveness now b worker_id v = (
  rw (
    lookup-remove_workers b (expired_workers now b b.workers) worker_id,
    contains-expired_workers now b b.workers worker_id v.distinct,
  ),
  remove_workers-heap b (expired_workers now b b.workers),
)

-- After the heartbeat of a registered worker its expiry lies ten heartbeat periods ahead.
heartbeat_effect :
    (w : Wire) (now : ℕ) (b : Broker) (worker_id : String) (p : ℕ)
    → lookup worker_id b.workers ≡ some p
    → p < length b.heap
    → let b' = (handle_worker_heartbeat w now b worker_id).0 in
      (b'.workers ≡ b.workers) × ((deref b' p).expiry ≡ now + b.heartbeat * 10)
unfolding handle_worker_heartbeat refresh_worker
heartbeat_effect w now b worker_id p e lt =
    rw (e, handle_worker_heartbeat)
      (
        k.workers,
        ap (λ h. (get_or h p zero_worker).expiry) k.heap
            ∙ ap (λ v. v.expiry) (get_or-modify_self b.heap p (refreshed now b) zero_worker lt),
      )
  where
    k :
        Keeps
          (refresh_worker now b p)
          (send_heartbeat_response w (refresh_worker now b p) worker_id).0
    k = send_heartbeat_response-Keeps w (refresh_worker now b p) worker_id

-- In a well-formed broker a registered worker that sends a heartbeat at `now` stays registered
-- through every look for dead workers up to ten heartbeat periods and the grace period later.
pub heartbeat_keeps_worker :
    (w : Wire) (now later : ℕ) (b : Broker) (worker_id : String) (p : ℕ)
    → IsWellFormed b
    → lookup worker_id b.workers ≡ some p
    → later ≤ now + b.heartbeat * 10 + grace_period
    → let b' = (handle_worker_heartbeat w now b worker_id).0 in
      lookup worker_id (check_worker_liveness later b').workers ≡ some p
unfolding is_expired
heartbeat_keeps_worker w now later b worker_id p v e h =
    let b' : Broker = (handle_worker_heartbeat w now b worker_id).0 in
    let lt = (All-lookup (IsRegistered b.heap b.services) worker_id b.workers e v.registered).0 in
    let (same, expiry) = heartbeat_effect w now b worker_id p e lt in
    let left =
      lookup-check_worker_liveness later b' worker_id
        (handle_worker_heartbeat-IsWellFormed w now b worker_id v) in
    rw (left.0, same, e) (ground (arith, expiry))
