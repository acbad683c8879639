-- ===== src/Hermes/Client/Runs.antt =====
-- internal/hermes/client.go: the client stays well formed over any turns of its goroutines.
use lucas.Base.{ℕ, List, [], ◌∷◌, some, ◌≡◌, refl, lookup}
use lucas.Hermes.Wire.{Wire}
use lucas.Hermes.Client.Channel.{Run, ok, panicked}
use lucas.Hermes.Client.State.{HermesClient, new_client}
use lucas.Hermes.Client.Responses.{process_message}
use lucas.Hermes.Client.Requests.{
  Event, arrives, looks, times_out, stops, asks, finishes, fires, forgets, reconnects, step, steps,
}
use lucas.Hermes.Client.Invariant.{IsWellFormed, Ensures}
use lucas.Hermes.Client.Turns.{
  >>=-Ensures, process_message-Ensures, cleanup-Ensures, handle_timeout-Ensures,
}
use lucas.Hermes.Client.Endings.{stop-Ensures, finish_async-Ensures}
use lucas.Hermes.Client.Asking.{
  Keeps-IsWellFormed, forget_nonce-IsWellFormed, attempt_reconnection-Keeps,
  request_async-IsWellFormed, request_fire_and_forget-IsWellFormed,
}

-- A condition on what comes later: none where the program has ended.
abbrev pub Later : {A : Type 0} → (A → Type 0) → Run A → Type 0
Later P (ok a) = P a
Later P panicked = Unit

-- An asynchronous request ends while it is pending.
abbrev pub EndsPending : HermesClient → Event → Type 0
EndsPending c (finishes now choice message_id p) = lookup message_id c.pending ≡ some p
EndsPending c _ = Unit

-- The same for all ends among these turns, each in the state that it meets.
abbrev pub AllEndPending : Wire → HermesClient → List Event → Type 0
AllEndPending w c [] = Unit
AllEndPending w c (e ∷ es) = EndsPending c e × Later (λ d. AllEndPending w d es) (step w c e)

module _ (w : Wire) where
  step-Ensures :
      (c : HermesClient) (e : Event)
      → IsWellFormed c
      → EndsPending c e
      → Ensures IsWellFormed (step w c e)
  unfolding step
  step-Ensures c (arrives now raw) v h =
      >>=-Ensures _ IsWellFormed (process_message w now c raw) _
        (process_message-Ensures w now c v raw) (λ o u. u)
  step-Ensures c (looks now) v h = cleanup-Ensures now c v
  step-Ensures c (times_out message_id) v h = handle_timeout-Ensures c message_id v
  step-Ensures c stops v h = stop-Ensures c v
  step-Ensures c (asks now message_id service body) v h =
      request_async-IsWellFormed w now c message_id service body v
  step-Ensures c (finishes now choice message_id p) v h =
      finish_async-Ensures now choice c message_id p v h
  step-Ensures c (fires now message_id service body nonce) v h =
      request_fire_and_forget-IsWellFormed w now c message_id service body nonce v
  step-Ensures c (forgets nonce) v h = forget_nonce-IsWellFormed c nonce v
  step-Ensures c reconnects v h = Keeps-IsWellFormed (attempt_reconnection-Keeps w c) v

  pub steps-Ensures :
      (c : HermesClient) (es : List Event)
      → IsWellFormed c
      → AllEndPending w c es
      → Ensures IsWellFormed (steps w c es)
  unfolding steps
  steps-Ensures c [] v h = v
  steps-Ensures c (e ∷ es) v h =
      at (step w c e) refl (step-Ensures c e v h.0) h.1 (λ d u k. steps-Ensures d es u k)
    where
      at :
          (m : Run HermesClient)
          → step w c e ≡ m
          → Ensures IsWellFormed m
          → Later (λ d. AllEndPending w d es) m
          → ((d : HermesClient)
              → IsWellFormed d
              → AllEndPending w d es
              → Ensures IsWellFormed (steps w d es))
          → Ensures IsWellFormed (steps w c (e ∷ es))
      at (ok d) q u k next = rw (q, steps) (next d u k)
      at panicked q u k next = absurd u

-- A result that is ensured, taken apart.
Ensures-ok : {A : Type 0} (P : A → Type 0) (m : Run A) → Ensures P m → (a : A) × (m ≡ ok a) × P a
Ensures-ok P (ok a) h = (a, refl, h)
Ensures-ok P panicked h = absurd h

new_client-IsWellFormed : (now : ℕ) → IsWellFormed (new_client now)
unfolding new_client
new_client-IsWellFormed now = record { distinct = tt; waiting = tt; forgotten = tt }

-- From a new client on, over any turns that make no synchronous request and in which each
-- asynchronous request ends while it is pending, nothing panics, and the client stays well formed: the pending ids are distinct, each points to a
-- request of that id with both channels open, and each nonce points to a request that nobody
-- waits for.
pub steps-new_client :
    (w : Wire) (now : ℕ) (es : List Event)
    → AllEndPending w (new_client now) es
    → (c : HermesClient) × (steps w (new_client now) es ≡ ok c) × IsWellFormed c
steps-new_client w now es h =
    Ensures-ok IsWellFormed (steps w (new_client now) es)
      (steps-Ensures w (new_client now) es (new_client-IsWellFormed now) h)
