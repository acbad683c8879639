-- ===== src/Hermes/Client/Asking.antt =====
-- internal/hermes/client.go: each kind of request, and the connection, keep the client well formed.
use lucas.Base.{
  ℕ, zero, suc, String, [], ◌∷◌, ◌++◌, Option, none, some, ◌≡◌, refl, arith, All, All-map,
  All-insert, All-delete, length, insert, delete, ◌==◌, length-append, get_or-append_length,
  if◌then◌else◌, Bool, true, false, Option-cases, inl, inr,
}
use lucas.Hermes.Protocol.{Bytes}
use lucas.Hermes.Wire.{Wire}
use lucas.Hermes.Client.State.{
  HermesClient, PendingClientRequest, ClientError, zero_request, forgotten_request, waiting_request,
}
use lucas.Hermes.Client.Sends.{
  send_request, try_dial, connect_rounds, connect, attempt_reconnection,
}
use lucas.Hermes.Client.Requests.{
  store, store_nonce, forget_nonce, after_send, request_async, request_fire_and_forget,
}
use lucas.Hermes.Client.Invariant.{
  IsWaiting, IsForgotten, IsWellFormed, append-IsForgotten, append-IsWaiting,
}
use lucas.Hermes.Client.Keeping.{same-IsWellFormed, store-IsWellFormed, forget-IsWellFormed}

-- The maps and the heap are as they were.
pub record Keeps (c d : HermesClient) : Type 0 where
  pub pending : d.pending ≡ c.pending
  pub pending_nonces : d.pending_nonces ≡ c.pending_nonces
  pub heap : d.heap ≡ c.heap

pub Keeps-IsWellFormed : {c d : HermesClient} → Keeps c d → IsWellFormed c → IsWellFormed d
Keeps-IsWellFormed {c} {d} k v = same-IsWellFormed c v d k.pending k.pending_nonces k.heap

pub forget_nonce-IsWellFormed :
    (c : HermesClient) (nonce : String) → IsWellFormed c → IsWellFormed (forget_nonce c nonce)
unfolding forget_nonce
forget_nonce-IsWellFormed c nonce v = at (nonce == "")
  where
    at :
        (b : Bool)
        → IsWellFormed
            (if b then c else record c { pending_nonces = delete nonce c.pending_nonces })
    at true = v
    at false = record {
      distinct = v.distinct;
      waiting = v.waiting;
      forgotten = All-delete (IsForgotten c.heap) nonce c.pending_nonces v.forgotten;
    }

pub store_nonce-IsWellFormed :
    (c : HermesClient) (r : PendingClientRequest)
    → r.fire_and_forget ≡ true
    → IsWellFormed c
    → IsWellFormed (store_nonce c r)
unfolding store_nonce
store_nonce-IsWellFormed c r e v = at (r.nonce == "")
  where
    waits : All (IsWaiting (c.heap ++ r ∷ [])) c.pending
    waits = All-map _ _ c.pending (append-IsWaiting c.heap r) v.waiting

    old : All (IsForgotten (c.heap ++ r ∷ [])) c.pending_nonces
    old = All-map _ _ c.pending_nonces (append-IsForgotten c.heap r) v.forgotten

    d : HermesClient
    d = record c { heap = c.heap ++ r ∷ [] }

    at :
        (b : Bool)
        → IsWellFormed (
            if b
            then d
            else record d { pending_nonces = insert r.nonce (length c.heap) c.pending_nonces })
    at true = record { distinct = v.distinct; waiting = waits; forgotten = old }
    at false = record {
      distinct = v.distinct;
      waiting = waits;
      forgotten =
          All-insert (IsForgotten (c.heap ++ r ∷ [])) r.nonce (length c.heap) c.pending_nonces
            (
              omega (arith, length-append c.heap (r ∷ [])),
              rw (get_or-append_length c.heap r zero_request) e,
            )
            old;
    }

module _ (w : Wire) where
  pub send_request-Keeps :
      (now : ℕ) (c : HermesClient) (service message_id : String) (body : Bytes)
      → Keeps c (send_request w now c service message_id body).0
  unfolding send_request
  send_request-Keeps now c service message_id body = ground arith

  try_dial-Keeps : (c : HermesClient) → Keeps c (try_dial w c).0
  unfolding try_dial
  try_dial-Keeps c = ground arith

  connect_rounds-Keeps : (n : ℕ) (c : HermesClient) → Keeps c (connect_rounds w n c).0
  unfolding connect_rounds
  connect_rounds-Keeps zero c = try_dial-Keeps c
  connect_rounds-Keeps (suc n) c =
      ground (arith, try_dial-Keeps c, connect_rounds-Keeps n (try_dial w c).0)

  pub attempt_reconnection-Keeps : (c : HermesClient) → Keeps c (attempt_reconnection w c)
  unfolding attempt_reconnection connect
  attempt_reconnection-Keeps c =
      let k = connect_rounds-Keeps 4 (record c { has_socket = false }) in
      record { pending = k.pending; pending_nonces = k.pending_nonces; heap = k.heap }

  after_send-IsWellFormed :
      (c : HermesClient) (message_id : String) (result : Option ClientError)
      → IsWellFormed c
      → IsWellFormed (after_send c message_id result).0
  unfolding after_send
  after_send-IsWellFormed c message_id none v = v
  after_send-IsWellFormed c message_id (some e) v =
      let u = forget-IsWellFormed c v message_id in
      record { distinct = u.distinct; waiting = u.waiting; forgotten = u.forgotten }

  pub request_async-IsWellFormed :
      (now : ℕ) (c : HermesClient) (message_id service : String) (body : Bytes)
      → IsWellFormed c
      → IsWellFormed (request_async w now c message_id service body).0
  unfolding request_async
  request_async-IsWellFormed now c message_id service body v =
      let stored = store c (waiting_request message_id service body now c.timeout) in
      after_send-IsWellFormed _ message_id (send_request w now stored service message_id body).1 (
        Keeps-IsWellFormed (send_request-Keeps now stored service message_id body)
          (store-IsWellFormed c v message_id service body now c.timeout))

  pub request_fire_and_forget-IsWellFormed :
      (now : ℕ) (c : HermesClient) (message_id service : String) (body : Bytes) (nonce : String)
      → IsWellFormed c
      → IsWellFormed (request_fire_and_forget w now c message_id service body nonce).0
  unfolding request_fire_and_forget
  request_fire_and_forget-IsWellFormed now c message_id service body nonce v =
      let stored = store_nonce c (forgotten_request message_id service body now nonce) in
      let sent = (send_request w now stored service message_id body).0 in
      let u =
        Keeps-IsWellFormed (send_request-Keeps now stored service message_id body)
          (store_nonce-IsWellFormed c _ refl v) in
      let t = forget_nonce-IsWellFormed sent nonce u in
      elim (Option-cases (send_request w now stored service message_id body).1) [
        | inl e ↦
            rw (e, request_fire_and_forget)
              (record { distinct = u.distinct; waiting = u.waiting; forgotten = u.forgotten })
        | inr (f, e) ↦
            rw (e, request_fire_and_forget)
              (record { distinct = t.distinct; waiting = t.waiting; forgotten = t.forgotten })
      ]
