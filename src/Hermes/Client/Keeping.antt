-- ===== src/Hermes/Client/Keeping.antt =====
-- internal/hermes/client.go: each part of a turn keeps the client well formed and does not panic.
use lucas.Base.{
  ℕ, ◌<◌, Bool, true, false, String, [], ◌∷◌, ◌++◌, Option, none, some, ◌≡◌, refl, arith, All-map,
  All-delete, All-delete_ne, All-insert, All-lookup, length, lookup, delete, delete-HasDistinctKeys,
  insert-HasDistinctKeys, length-append, get_or-append_length, if◌then◌else◌,
}
use lucas.Hermes.Protocol.{ServiceResponse}
use lucas.Hermes.Wire.{Wire}
use lucas.Hermes.Client.Channel.{Channel, Run, ok, offer, close, close_if_any}
use lucas.Hermes.Client.State.{
  HermesClient, PendingClientRequest, ClientError, service_error, deref, assign, zero_request,
  waiting_request,
}
use lucas.Hermes.Client.Responses.{deliver, abandon, abandon_if_any}
use lucas.Hermes.Client.Requests.{store, forget}
use lucas.Hermes.Client.Invariant.{
  IsOpen, IsReady, IsWaiting, IsWellFormed, Ensures, written-IsWaiting, written-IsWaiting_ne,
  written-IsForgotten, append-IsWaiting, append-IsForgotten,
}

-- A property of both branches.
pub if-Ensures :
    {A : Type 0} (P : A → Type 0) (b : Bool) (x y : Run A)
    → Ensures P x
    → Ensures P y
    → Ensures P (if b then x else y)
if-Ensures P true x y p q = p
if-Ensures P false x y p q = q

-- An open channel takes an offer and stays open, and it can be closed.
module _ {A : Type 0} where
  pub offer-IsOpen :
      (o : Option (Channel A)) (a : A)
      → IsOpen o
      → (left : Option (Channel A)) × (offer o a ≡ ok left) × IsOpen left
  unfolding offer
  offer-IsOpen none a h = absurd h
  offer-IsOpen (some ch) a h = rw h (_, refl, refl)

  pub close-IsOpen :
      (o : Option (Channel A)) → IsOpen o → (left : Option (Channel A)) × (close o ≡ ok left)
  unfolding close
  close-IsOpen none h = absurd h
  close-IsOpen (some ch) h = rw h (_, refl)

  pub close_if_any-IsOpen :
      (o : Option (Channel A)) → IsOpen o → (left : Option (Channel A)) × (close_if_any o ≡ ok left)
  unfolding close_if_any close
  close_if_any-IsOpen none h = absurd h
  close_if_any-IsOpen (some ch) h = rw h (_, refl)

module _ (c : HermesClient) (v : IsWellFormed c) where
  -- The other fields do not matter.
  pub same-IsWellFormed :
      (d : HermesClient)
      → d.pending ≡ c.pending
      → d.pending_nonces ≡ c.pending_nonces
      → d.heap ≡ c.heap
      → IsWellFormed d
  same-IsWellFormed d e f g = record {
    distinct = rw e v.distinct;
    waiting = rw (e, g) v.waiting;
    forgotten = rw (f, g) v.forgotten;
  }

  -- The request that is pending under an id.
  pub pending-IsReady :
      (message_id : String) (p : ℕ)
      → lookup message_id c.pending ≡ some p
      → (p < length c.heap) × IsReady message_id (deref c p)
  pending-IsReady message_id p e = All-lookup (IsWaiting c.heap) message_id c.pending e v.waiting

  pub assign-IsWellFormed :
      (p : ℕ) (r : PendingClientRequest)
      → ((k : String) → IsReady k (deref c p) → IsReady k r)
      → r.fire_and_forget ≡ (deref c p).fire_and_forget
      → IsWellFormed (assign c p r)
  assign-IsWellFormed p r keep same = record {
    distinct = v.distinct;
    waiting = All-map _ _ c.pending (written-IsWaiting c.heap p r keep) v.waiting;
    forgotten = All-map _ _ c.pending_nonces (written-IsForgotten c.heap p r same) v.forgotten;
  }

  -- The request that is taken out of the map may be written in any way.
  pub assign-forget-IsWellFormed :
      (message_id : String) (p : ℕ) (r : PendingClientRequest)
      → lookup message_id c.pending ≡ some p
      → r.fire_and_forget ≡ (deref c p).fire_and_forget
      → IsWellFormed (assign (forget c message_id) p r)
  assign-forget-IsWellFormed message_id p r e same =
      let (lt, ready) = pending-IsReady message_id p e in
      record {
        distinct = delete-HasDistinctKeys message_id c.pending v.distinct;
        waiting =
            All-map _ _ (delete message_id c.pending) (written-IsWaiting_ne c.heap p r)
              (rw ready.0 (All-delete_ne (IsWaiting c.heap) message_id c.pending v.waiting));
        forgotten = All-map _ _ c.pending_nonces (written-IsForgotten c.heap p r same) v.forgotten;
      }

  pub forget-IsWellFormed : (message_id : String) → IsWellFormed (forget c message_id)
  forget-IsWellFormed message_id = record {
    distinct = delete-HasDistinctKeys message_id c.pending v.distinct;
    waiting = All-delete (IsWaiting c.heap) message_id c.pending v.waiting;
    forgotten = v.forgotten;
  }

  pub store-IsWellFormed :
      (message_id service : String) (body : String) (now timeout : ℕ)
      → IsWellFormed (store c (waiting_request message_id service body now timeout))
  store-IsWellFormed message_id service body now timeout =
      let r = waiting_request message_id service body now timeout in
      record {
        distinct = insert-HasDistinctKeys message_id (length c.heap) c.pending v.distinct;
        waiting =
            All-insert (IsWaiting (c.heap ++ r ∷ [])) message_id (length c.heap) c.pending
              (
                omega (arith, length-append c.heap (r ∷ [])),
                rw (get_or-append_length c.heap r zero_request) (refl, refl, refl),
              )
              (All-map _ _ c.pending (append-IsWaiting c.heap r) v.waiting);
        forgotten = All-map _ _ c.pending_nonces (append-IsForgotten c.heap r) v.forgotten;
      }

module _ (c : HermesClient) (v : IsWellFormed c) where
  -- A response for a pending request.
  pub deliver-Ensures :
      (w : Wire) (message_id : String) (p : ℕ) (resp : ServiceResponse)
      → lookup message_id c.pending ≡ some p
      → Ensures IsWellFormed (deliver w c p resp)
  unfolding deliver
  deliver-Ensures w message_id p resp e =
      let (lt, ready) = pending-IsReady c v message_id p e in
      let (r1, e1, o1) = offer-IsOpen (deref c p).response (w.encode_response resp) ready.1 in
      let (r2, e2, o2) = offer-IsOpen (deref c p).error (service_error resp.error) ready.2 in
      if-Ensures IsWellFormed resp.success _ _
        (rw e1 (assign-IsWellFormed c v p _ (λ k q. (q.0, o1, q.2)) refl))
        (rw e2 (assign-IsWellFormed c v p _ (λ k q. (q.0, q.1, o2)) refl))

  module _ (message_id : String) (p : ℕ) (e : lookup message_id c.pending ≡ some p) where
    -- A pending request that is given up, and taken out of the map.
    pub abandon-Ensures :
        (err : ClientError) → Ensures IsWellFormed (abandon err (forget c message_id) p)
    unfolding abandon
    abandon-Ensures err =
        let (lt, ready) = pending-IsReady c v message_id p e in
        let (r1, e1, o1) = offer-IsOpen (deref c p).error err ready.2 in
        let (r2, e2) = close-IsOpen (deref c p).response ready.1 in
        let (r3, e3) = close-IsOpen r1 o1 in
        rw (e1, e2, e3) (assign-forget-IsWellFormed c v message_id p _ e refl)

    pub abandon_if_any-Ensures :
        (err : ClientError) → Ensures IsWellFormed (abandon_if_any err (forget c message_id) p)
    unfolding abandon_if_any
    abandon_if_any-Ensures err =
        let (lt, ready) = pending-IsReady c v message_id p e in
        let (r1, e1, o1) = offer-IsOpen (deref c p).error err ready.2 in
        let (r2, e2) = close_if_any-IsOpen (deref c p).response ready.1 in
        let (r3, e3) = close_if_any-IsOpen r1 o1 in
        rw (e1, e2, e3) (assign-forget-IsWellFormed c v message_id p _ e refl)
