-- ===== src/Hermes/Broker/Stall.antt =====
-- internal/hermes/broker.go: how far the loop that looks for dead workers gets.
use lucas.Base.{
  suc, zero, ◌⊎◌, ap, suc, ◌<◌, ◌∙◌, inr, inl, false, ℕ, ◌+◌, ◌≤◌, ◌≡◌, refl, List, [], ◌∷◌, arith,
}
use lucas.Hermes.Broker.Registry.{check_worker_liveness}
use lucas.Hermes.Broker.Ticker.{heartbeat_capacity, Manager, tick}
use lucas.Hermes.Broker.Run.{
  client_turn, worker_turn, step, run, managed_step, liveness_turn, Event, managed,
}
use lucas.Hermes.Wire.{Wire}

-- The events without the looks for dead workers that follow the first `n`.
pub first_looks : ℕ → List Event → List Event
first_looks n [] = []
first_looks zero (liveness_turn now ∷ es) = first_looks zero es
first_looks (suc n) (liveness_turn now ∷ es) = liveness_turn now ∷ first_looks n es
first_looks n (worker_turn now message_id e ∷ es) = worker_turn now message_id e ∷ first_looks n es
first_looks n (client_turn now e ∷ es) = client_turn now e ∷ first_looks n es

tick_full :
    (m : Manager) (now : ℕ)
    → heartbeat_capacity ≤ m.queued
    → ((tick m now).broker ≡ m.broker) × ((tick m now).queued ≡ m.queued)
unfolding tick
tick_full m now h = ground arith

tick_free :
    (m : Manager) (now : ℕ)
    → m.blocked ≡ false
    → m.queued < heartbeat_capacity
    → ((tick m now).broker ≡ check_worker_liveness now m.broker)
      × ((tick m now).queued ≡ m.queued + 1)
      × ((tick m now).blocked ≡ false)
unfolding tick
tick_free m now e h = ground arith

-- Room left, or none and then blocked or about to be.
abbrev HasRoom : ℕ → Manager → Type 0
HasRoom n m = (m.queued + n ≡ heartbeat_capacity) × ((m.blocked ≡ false) ⊎ (n ≡ 0))

managed-first_looks_room :
    (w : Wire) (n : ℕ) (m : Manager) (es : List Event)
    → HasRoom n m
    → (managed w m es).broker ≡ run w m.broker (first_looks n es)
unfolding managed managed_step first_looks run step
managed-first_looks_room w zero m [] h = refl
managed-first_looks_room w (suc n) m [] h = refl
managed-first_looks_room w zero m (liveness_turn now ∷ es) h =
    let (same, full) = tick_full m now (omega arith) in
    managed-first_looks_room w zero (tick m now) es (omega arith, inr refl)
    ∙ ap (λ b. run w b (first_looks zero es)) same
managed-first_looks_room w (suc n) m (liveness_turn now ∷ es) h =
    let (checked, one_more, free) = tick_free m now (ground arith) (omega arith) in
    managed-first_looks_room w n (tick m now) es (omega arith, inl free)
    ∙ ap (λ b. run w b (first_looks n es)) checked
managed-first_looks_room w zero m (worker_turn now message_id e ∷ es) h =
    managed-first_looks_room w zero (managed_step w m (worker_turn now message_id e)) es h
managed-first_looks_room w (suc n) m (worker_turn now message_id e ∷ es) h =
    managed-first_looks_room w (suc n) (managed_step w m (worker_turn now message_id e)) es h
managed-first_looks_room w zero m (client_turn now e ∷ es) h =
    managed-first_looks_room w zero (managed_step w m (client_turn now e)) es h
managed-first_looks_room w (suc n) m (client_turn now e ∷ es) h =
    managed-first_looks_room w (suc n) (managed_step w m (client_turn now e)) es h

-- From a manager whose channel is empty and which is not blocked, any interleaving of worker and
-- client events with ticks has the effect of the same events with the first ten ticks alone: no
-- later tick looks for dead workers, however many there are and whatever their times.
pub managed-first_looks :
    (w : Wire) (m : Manager) (es : List Event)
    → m.queued ≡ 0
    → m.blocked ≡ false
    → (managed w m es).broker ≡ run w m.broker (first_looks heartbeat_capacity es)
managed-first_looks w m es empty free =
    managed-first_looks_room w heartbeat_capacity m es (omega arith, inl free)
