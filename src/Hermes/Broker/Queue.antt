-- ===== src/Hermes/Broker/Queue.antt =====
-- internal/hermes/broker.go: how pending requests meet waiting workers.
use lucas.Base.{
  append_assoc, drop-nil, append-nil, sym, length, drop, true, ℕ, ◌≡◌, refl, List, [], ◌∷◌, ◌++◌,
  none, arith,
}
use lucas.Hermes.Wire.{Wire, Msg}
use lucas.Hermes.Broker.State.{deref, Broker, PendingRequest}
use lucas.Hermes.Broker.Handlers.{drain}
use lucas.Hermes.Broker.Sends.{worker_message, send_to_worker, envelope}
use lucas.Hermes.Protocol.{hermes_request}
use lucas.Hermes.Broker.Frames.{send_to_worker-Keeps}

-- The REQUEST message that carries a pending request to a worker.
pub assignment : Wire → Broker → PendingRequest → ℕ → Msg
assignment w b r p =
    envelope (deref b p).identity
      (w.encode_worker (worker_message hermes_request r.client_id r.body))

-- The requests and the workers side by side, as far as both go.
pub assignments : Wire → Broker → List PendingRequest → List ℕ → List Msg
assignments w b [] ps = []
assignments w b (r ∷ rs) [] = []
assignments w b (r ∷ rs) (p ∷ ps) = assignment w b r p ∷ assignments w b rs ps

-- The socket takes every message.
abbrev pub TakesAll : Wire → Type 0
TakesAll w = (n : ℕ) (msg : Msg) → w.send n msg ≡ none

assignments-heap :
    (w : Wire) (b c : Broker) (rs : List PendingRequest) (ps : List ℕ)
    → c.heap ≡ b.heap
    → assignments w c rs ps ≡ assignments w b rs ps
unfolding assignments assignment
assignments-heap w b c [] ps e = refl
assignments-heap w b c (r ∷ rs) [] e = refl
assignments-heap w b c (r ∷ rs) (p ∷ ps) e = cc (assignments-heap w b c rs ps e)

module _ (w : Wire) (takes : TakesAll w) where
  send_to_worker-sent :
      (b : Broker) (r : PendingRequest) (p : ℕ)
      → b.has_socket ≡ true
      → let b' = (send_to_worker w b (deref b p).identity r.client_id r.body).0 in
        (b'.sent ≡ b.sent ++ assignment w b r p ∷ []) × (b'.has_socket ≡ true)
  unfolding send_to_worker assignment
  send_to_worker-sent b r p on = ground (arith, takes b.calls (assignment w b r p))

  -- With a socket that takes every message, the loop over the queues sends the oldest requests to
  -- the workers that wait longest, one each and in order, and leaves the rest of the longer queue.
  pub drain-sent :
      (rs : List PendingRequest) (ps : List ℕ) (b : Broker)
      → b.has_socket ≡ true
      → let (b', rs', ps') = drain w rs ps b in
        (b'.sent ≡ b.sent ++ assignments w b rs ps)
        × (rs' ≡ drop (length ps) rs)
        × (ps' ≡ drop (length rs) ps)
  unfolding drain assignments
  drain-sent [] ps b on = (sym (append-nil b.sent), sym (drop-nil (length ps)), refl)
  drain-sent (r ∷ rs) [] b on = (sym (append-nil b.sent), refl, refl)
  drain-sent (r ∷ rs) (p ∷ ps) b on =
      let ih = drain-sent rs ps b' step.1 in
      rw (ih.0, step.0, assignments-heap w b b' rs ps heap, append_assoc) (refl, ih.1, ih.2)
    where
      b' : Broker
      b' = (send_to_worker w b (deref b p).identity r.client_id r.body).0

      heap : b'.heap ≡ b.heap
      heap = (send_to_worker-Keeps w b (deref b p).identity r.client_id r.body).heap

      step : (b'.sent ≡ b.sent ++ assignment w b r p ∷ []) × (b'.has_socket ≡ true)
      step = send_to_worker-sent b r p on
