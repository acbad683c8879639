-- ===== src/Hermes/Client/Turns.antt =====
-- internal/hermes/client.go: whole turns keep the client well formed and do not panic.
use lucas.Base.{
  ℕ, String, List, [], ◌∷◌, some, ◌≡◌, refl, arith, All-delete, All-lookup, ◌==◌, lookup, inl, inr,
  Option-cases,
}
use lucas.Hermes.Protocol.{Bytes, ServiceResponse}
use lucas.Hermes.Wire.{Wire, Msg}
use lucas.Hermes.Client.Channel.{Run, ok, panicked, ◌>>=◌}
use lucas.Hermes.Client.State.{HermesClient, request_timeout}
use lucas.Hermes.Client.Responses.{
  Target, waiting, forgotten, unknown, by_nonce, target, handle_service_response, handle_response,
  process_message, expire, expire_all, cleanup_timeout_requests, handle_timeout, count_timeout,
}
use lucas.Hermes.Client.Invariant.{IsForgotten, IsWellFormed, Ensures}
use lucas.Hermes.Client.Keeping.{
  if-Ensures, same-IsWellFormed, deliver-Ensures, abandon-Ensures, abandon_if_any-Ensures,
}

-- A turn after a turn.
pub >>=-Ensures :
    {A B : Type 0} (P : A → Type 0) (Q : B → Type 0) (m : Run A) (f : A → Run B)
    → Ensures P m
    → ((a : A) → P a → Ensures Q (f a))
    → Ensures Q (m >>= f)
>>=-Ensures P Q (ok a) f p h = h a p
>>=-Ensures P Q panicked f p h = absurd p

-- A response goes to a request that is pending under its id, or to none that waits.
pub target-waiting :
    (c : HermesClient) (resp : ServiceResponse) (p : ℕ)
    → IsWellFormed c
    → target c resp ≡ waiting p
    → lookup resp.message_id c.pending ≡ some p
unfolding target by_nonce
target-waiting c resp p v e = elim (Option-cases (lookup resp.message_id c.pending)) [
  | inr (q, f) ↦ ground (arith, f)
  | inl f ↦ elim (Option-cases (lookup resp.nonce c.pending_nonces)) [
    | inl g ↦ ground arith
    | inr (q, g) ↦
        ground (arith, All-lookup (IsForgotten c.heap) resp.nonce c.pending_nonces g v.forgotten)
  ]
]

module _ (w : Wire) (now : ℕ) (c : HermesClient) (v : IsWellFormed c) where
  handle_service_response-Ensures :
      (resp : ServiceResponse) → Ensures IsWellFormed (handle_service_response w now c resp)
  unfolding handle_service_response
  handle_service_response-Ensures resp = at (target c resp) refl
    where
      at :
          (t : Target)
          → target c resp ≡ t
          → Ensures IsWellFormed (handle_service_response w now c resp)
      at (waiting p) e =
          rw (e, handle_service_response)
            (deliver-Ensures c v w resp.message_id p resp (target-waiting c resp p v e))
      at forgotten e =
          rw (e, handle_service_response)
            (record {
              distinct = v.distinct;
              waiting = v.waiting;
              forgotten = All-delete (IsForgotten c.heap) resp.nonce c.pending_nonces v.forgotten;
            })
      at unknown e = rw (e, handle_service_response) v

  pub handle_response-Ensures :
      (response : Bytes) → Ensures IsWellFormed (handle_response w now c response)
  unfolding handle_response
  handle_response-Ensures response = elim (Option-cases (w.decode_response response)) [
    | inl e ↦ rw (e, handle_response) v
    | inr (resp, e) ↦
        rw (e, handle_response)
          (if-Ensures IsWellFormed (resp.message_id == "") _ _ v
            (handle_service_response-Ensures resp))
  ]

  pub process_message-Ensures :
      (raw : Msg) → Ensures (λ o. IsWellFormed o.0) (process_message w now c raw)
  unfolding process_message
  process_message-Ensures [] = v
  process_message-Ensures (delimiter ∷ []) = v
  process_message-Ensures (delimiter ∷ response ∷ rest) =
      if-Ensures (λ o. IsWellFormed o.0) (delimiter == "") _ _
        (>>=-Ensures IsWellFormed _ (handle_response w now c response) _
          (handle_response-Ensures response) (λ d u. u))
        v

pub expire-Ensures :
    (c : HermesClient) (message_id : String)
    → IsWellFormed c
    → Ensures IsWellFormed (expire c message_id)
unfolding expire
expire-Ensures c message_id v = elim (Option-cases (lookup message_id c.pending)) [
  | inl e ↦ rw (e, expire) v
  | inr (p, e) ↦
      rw (e, expire)
        (abandon-Ensures (count_timeout c) (same-IsWellFormed c v (count_timeout c) refl refl refl)
          message_id p e request_timeout)
]

expire_all-Ensures :
    (c : HermesClient) (ids : List String)
    → IsWellFormed c
    → Ensures IsWellFormed (expire_all c ids)
unfolding expire_all
expire_all-Ensures c [] v = v
expire_all-Ensures c (message_id ∷ rest) v =
    >>=-Ensures IsWellFormed IsWellFormed (expire c message_id) _ (expire-Ensures c message_id v)
      (λ d u. expire_all-Ensures d rest u)

pub cleanup-Ensures :
    (now : ℕ) (c : HermesClient)
    → IsWellFormed c
    → Ensures IsWellFormed (cleanup_timeout_requests now c)
unfolding cleanup_timeout_requests
cleanup-Ensures now c v = expire_all-Ensures c _ v

pub handle_timeout-Ensures :
    (c : HermesClient) (message_id : String)
    → IsWellFormed c
    → Ensures IsWellFormed (handle_timeout c message_id)
unfolding handle_timeout
handle_timeout-Ensures c message_id v = elim (Option-cases (lookup message_id c.pending)) [
  | inl e ↦ rw (e, handle_timeout) v
  | inr (p, e) ↦
      rw (e, handle_timeout)
        (abandon_if_any-Ensures (count_timeout c)
          (same-IsWellFormed c v (count_timeout c) refl refl refl) message_id p e request_timeout)
]
