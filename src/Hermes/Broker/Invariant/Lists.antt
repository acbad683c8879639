-- ===== src/Hermes/Broker/Invariant/Lists.antt =====
-- internal/hermes/broker.go: how draining, dequeuing and removal change the lists of a service.
use lucas.Base.{
  ℕ, ◌<◌, ◌≡◌, refl, ◌⊎◌, inl, inr, String, List, [], ◌∷◌, some, All, lookup, insert, length,
  Bool-cases, ◌==◌,
}
use lucas.Hermes.Wire.{Wire}
use lucas.Hermes.Broker.State.{Broker, BrokerService, PendingRequest, deref}
use lucas.Hermes.Broker.Registry.{remove_first}
use lucas.Hermes.Broker.Handlers.{drain, process_pending_requests}
use lucas.Hermes.Broker.Invariant.{IsListed}

pub remove_first-All {κ} :
    (P : ℕ → Type κ) (b : Broker) (worker_id : String) (ps : List ℕ)
    → All P ps
    → All P (remove_first b worker_id ps)
unfolding remove_first
remove_first-All P b worker_id [] h = h
remove_first-All P b worker_id (p ∷ ps) h = elim (Bool-cases ((deref b p).identity == worker_id)) [
  | inl e ↦ rw e h.1
  | inr e ↦ rw e (h.0, remove_first-All P b worker_id ps h.1)
]

pub remove_first-nil : (b : Broker) (worker_id : String) → remove_first b worker_id [] ≡ []
unfolding remove_first
remove_first-nil b worker_id = refl

module _ (w : Wire) where
  -- The loop ends only when one of the lists is empty.
  pub drain-empties :
      (rs : List PendingRequest) (ps : List ℕ) (b : Broker)
      → ((drain w rs ps b).1 ≡ []) ⊎ ((drain w rs ps b).2 ≡ [])
  unfolding drain
  drain-empties [] ps b = inl refl
  drain-empties (r ∷ rs) [] b = inr refl
  drain-empties (r ∷ rs) (p ∷ ps) b = drain-empties rs ps _

  pub drain-All {κ} :
      (P : ℕ → Type κ) (rs : List PendingRequest) (ps : List ℕ) (b : Broker)
      → All P ps
      → All P (drain w rs ps b).2
  unfolding drain
  drain-All P [] ps b h = h
  drain-All P (r ∷ rs) [] b h = h
  drain-All P (r ∷ rs) (p ∷ ps) b h = drain-All P rs ps _ h.1

  -- A service is fit but for its queues before `process_pending_requests`, and fit after it.
  abbrev pub IsNearlyListed : Broker → String × BrokerService → Type 0
  IsNearlyListed b (name, s) =
      (s.name ≡ name)
      × All (λ p. p < length b.heap) s.workers
      × All (λ p. p < length b.heap) s.waiting

  pub drained_service-IsListed :
      (b : Broker) (name : String) (s : BrokerService)
      → IsNearlyListed b (name, s)
      → IsListed b.heap (
        name,
        record s {
          requests = (drain w s.requests s.waiting b).1;
          waiting = (drain w s.requests s.waiting b).2;
        },
      )
  drained_service-IsListed b name s (named, ws, qs) = (
    named,
    ws,
    drain-All (λ p. p < length b.heap) s.requests s.waiting b qs,
    drain-empties s.requests s.waiting b,
  )

  pub process_pending_requests-eq :
      (b : Broker) (name : String) (s : BrokerService)
      → lookup name b.services ≡ some s
      → let r = drain w s.requests s.waiting b in
        process_pending_requests w b name ≡ record (r.0) {
          services = insert name (record s { requests = r.1; waiting = r.2 }) r.0.services;
        }
  unfolding process_pending_requests
  process_pending_requests-eq b name s e = rw (e, process_pending_requests)
