-- ===== src/Hermes/Client/Endings.antt =====
-- internal/hermes/client.go: the stop, and the end of an asynchronous request.
use lucas.Base.{
  ℕ, ◌⊎◌, Bool, true, String, [], ◌∷◌, Option, none, some, Map, ◌≡◌, ◌≢◌, refl, arith, All, All-map,
  lookup, HasDistinctKeys, str_dec, Option-cases, inl, inr,
}
use lucas.Hermes.Client.Channel.{Channel, receive}
use lucas.Hermes.Client.State.{
  HermesClient, PendingClientRequest, deref, assign, client_shutting_down, record_latency,
}
use lucas.Hermes.Client.Responses.{abandon_if_any, abandon_all, stop}
use lucas.Hermes.Client.Requests.{
  Choice, take_response, take_error, take_time, take_shutdown, Taken, got_response, got_error,
  timed_out, shut_down, select, forget, close_both, note_async, finish_async,
}
use lucas.Hermes.Client.Invariant.{
  IsOpen, IsReady, IsWaiting, IsForgotten, IsWellFormed, Ensures, written-IsWaiting_ne,
  written-IsForgotten,
}
use lucas.Hermes.Client.Keeping.{
  same-IsWellFormed, pending-IsReady, assign-IsWellFormed, assign-forget-IsWellFormed, offer-IsOpen,
  close-IsOpen, close_if_any-IsOpen,
}
use lucas.Hermes.Client.Turns.{>>=-Ensures}

-- The entries behind one with a key that is not among theirs.
others-ne {κ} :
    (P : String × ℕ → Type κ) (k : String) (m : Map ℕ)
    → lookup k m ≡ none
    → All P m
    → All (λ e. P e × (e.0 ≢ k)) m
unfolding lookup
others-ne P k [] e h = tt
others-ne P k ((j, p) ∷ m) e h = elim (str_dec j k) [
  | yes same ↦ ground arith
  | no other ↦ ((h.0, other), others-ne P k m (ground arith) h.1)
]

-- While the map is walked, the entries that are left are waiting.
abandon_all-Ensures :
    (c : HermesClient) (m : Map ℕ)
    → HasDistinctKeys m
    → All (IsWaiting c.heap) m
    → All (IsForgotten c.heap) c.pending_nonces
    → Ensures (λ d. All (IsForgotten d.heap) d.pending_nonces) (abandon_all c m)
unfolding abandon_all abandon_if_any
abandon_all-Ensures c [] distinct ws fs = fs
abandon_all-Ensures c ((k, p) ∷ m) distinct ws fs =
    let ready = ws.0.1 in
    let (r1, e1, o1) = offer-IsOpen (deref c p).error client_shutting_down ready.2 in
    let (r2, e2) = close_if_any-IsOpen (deref c p).response ready.1 in
    let (r3, e3) = close_if_any-IsOpen r1 o1 in
    rw (e1, e2, e3)
      (abandon_all-Ensures (assign c p _) m distinct.1
        (All-map _ _ m (written-IsWaiting_ne c.heap p _)
          (rw ready.0 (others-ne (IsWaiting c.heap) k m distinct.0 ws.1)))
        (All-map _ _ c.pending_nonces (written-IsForgotten c.heap p _ refl) fs))

pub stop-Ensures : (c : HermesClient) → IsWellFormed c → Ensures IsWellFormed (stop c)
unfolding stop
stop-Ensures c v =
    >>=-Ensures _ IsWellFormed (abandon_all (record c { cancelled = true }) c.pending) _
      (abandon_all-Ensures (record c { cancelled = true }) c.pending v.distinct v.waiting
        v.forgotten)
      (λ d fs. record { distinct = tt; waiting = tt; forgotten = fs })

receive-IsOpen :
    {A : Type 0} (o : Option (Channel A))
    → IsOpen o
    → (receive o ≡ none)
      ⊎ ((got : Option A × Option (Channel A)) × (receive o ≡ some got) × IsOpen got.1)
unfolding receive
receive-IsOpen none h = absurd h
receive-IsOpen (some ch) h = elim (Option-cases ch.held) [
  | inl e ↦ rw (e, h) (inl refl)
  | inr (a, e) ↦ rw e (inr (_, refl, h))
]

-- What a wait takes leaves the request ready.
pub select-IsReady :
    (choice : Choice) (cancelled : Bool) (r : PendingClientRequest) (k : String)
    → IsReady k r
    → IsReady k (select choice cancelled r).1
unfolding select
select-IsReady take_response cancelled r k h = elim (receive-IsOpen r.response h.1) [
  | inl e ↦ rw (e, select) h
  | inr (got, e, o) ↦ rw (e, select) (h.0, o, h.2)
]
select-IsReady take_error cancelled r k h = elim (receive-IsOpen r.error h.2) [
  | inl e ↦ rw (e, select) h
  | inr (got, e, o) ↦ rw (e, select) (h.0, h.1, o)
]
select-IsReady take_time cancelled r k h = h
select-IsReady take_shutdown cancelled r k h = ground arith

pub select-fire_and_forget :
    (choice : Choice) (cancelled : Bool) (r : PendingClientRequest)
    → (select choice cancelled r).1.fire_and_forget ≡ r.fire_and_forget
unfolding select
select-fire_and_forget choice cancelled r = ground arith

-- The account of an end leaves the maps and the heap alone.
pub note_async-same :
    (now : ℕ) (taken : Taken) (c : HermesClient) (p : ℕ)
    → let d = note_async now taken c p in
      (d.pending ≡ c.pending) × (d.pending_nonces ≡ c.pending_nonces) × (d.heap ≡ c.heap)
unfolding note_async record_latency
note_async-same now (got_response body) c p = (refl, refl, refl)
note_async-same now (got_error e) c p = (refl, refl, refl)
note_async-same now timed_out c p = (refl, refl, refl)
note_async-same now shut_down c p = (refl, refl, refl)

-- A pending request whose channels are closed once.
pub close_both-Ensures :
    (c : HermesClient) (message_id : String) (p : ℕ)
    → IsWellFormed c
    → lookup message_id c.pending ≡ some p
    → Ensures IsWellFormed (close_both (forget c message_id) p)
unfolding close_both
close_both-Ensures c message_id p v e =
    let (lt, ready) = pending-IsReady c v message_id p e in
    let (r1, e1) = close-IsOpen (deref c p).response ready.1 in
    let (r2, e2) = close-IsOpen (deref c p).error ready.2 in
    rw (e1, e2) (assign-forget-IsWellFormed c v message_id p _ e refl)

pub finish_async-Ensures :
    (now : ℕ) (choice : Choice) (c : HermesClient) (message_id : String) (p : ℕ)
    → IsWellFormed c
    → lookup message_id c.pending ≡ some p
    → Ensures IsWellFormed (finish_async now choice c message_id p)
unfolding finish_async
finish_async-Ensures now choice c message_id p v e =
    let r = (select choice c.cancelled (deref c p)).1 in
    let taken = (select choice c.cancelled (deref c p)).0 in
    let u =
      assign-IsWellFormed c v p r (λ k q. select-IsReady choice c.cancelled (deref c p) k q)
        (select-fire_and_forget choice c.cancelled (deref c p)) in
    let (f, g, h) = note_async-same now taken (assign c p r) p in
    close_both-Ensures (note_async now taken (assign c p r) p) message_id p
      (same-IsWellFormed (assign c p r) u _ f g h) (rw f e)
