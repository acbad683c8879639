-- ===== src/Hermes/Client/Responses.antt =====
-- internal/hermes/client.go: what arrives for a request, and what ends a request from outside.
use lucas.Base.{
  ℕ, ◌+◌, ◌-◌, true, false, String, List, [], ◌∷◌, Option, none, some, Map, if◌then◌else◌, ltb,
  ◌==◌, lookup, delete,
}
use lucas.Hermes.Protocol.{Bytes, ServiceResponse}
use lucas.Hermes.Wire.{Msg, Wire}
use lucas.Hermes.Client.Channel.{Run, ok, ◌>>=◌, offer, close, close_if_any}
use lucas.Hermes.Client.State.{
  HermesClient, ClientError, LoopError, client_shutting_down, request_timeout, service_error,
  malformed_message, missing_delimiter, deref, assign,
}

-- The request that a response is for: a pointer, one that nobody waits for, or none.
pub data Target : Type 0 where
  waiting : ℕ → Target
  forgotten unknown : Target

unfoldable pub by_nonce : HermesClient → String → Target
by_nonce c nonce = elim (lookup nonce c.pending_nonces) [
  | none ↦ unknown
  | some p ↦ if (deref c p).fire_and_forget then forgotten else waiting p
]

-- By the message id first, then by the nonce.
unfoldable pub target : HermesClient → ServiceResponse → Target
unfolding by_nonce
target c resp = elim (lookup resp.message_id c.pending) [
  | some p ↦ waiting p
  | none ↦ if resp.nonce == "" then unknown else by_nonce c resp.nonce
]

abbrev pub count_response : ℕ → HermesClient → HermesClient
count_response now c = record c {
  stats = record (c.stats) {
    responses_received = c.stats.responses_received + 1;
    last_response = now;
  };
}

abbrev pub count_timeout : HermesClient → HermesClient
count_timeout c = record c {
  stats = record (c.stats) { requests_timeout = c.stats.requests_timeout + 1 };
}

-- The error for a waiting request, and its channels closed without a test for nil.
unfoldable pub abandon : ClientError → HermesClient → ℕ → Run HermesClient
unfolding offer close
abandon e c p = do
  let r = deref c p
  told ← offer r.error e
  response ← close r.response
  error ← close told
  ok (assign c p (record r { response = response; error = error }))

-- The same, for the channels that there are.
unfoldable pub abandon_if_any : ClientError → HermesClient → ℕ → Run HermesClient
unfolding offer close_if_any
abandon_if_any e c p = do
  let r = deref c p
  told ← offer r.error e
  response ← close_if_any r.response
  error ← close_if_any told
  ok (assign c p (record r { response = response; error = error }))

unfoldable pub expired_requests : ℕ → HermesClient → Map ℕ → List String
expired_requests now c [] = []
expired_requests now c ((message_id, p) ∷ m) =
    let rest = expired_requests now c m in
    if ltb (deref c p).timeout (now - (deref c p).timestamp) then message_id ∷ rest else rest

-- One round of the second loop.
unfoldable pub expire : HermesClient → String → Run HermesClient
unfolding abandon
expire c message_id = elim (lookup message_id c.pending) [
  | none ↦ ok c
  | some p ↦
      abandon request_timeout (count_timeout (record c { pending = delete message_id c.pending })) p
]

unfoldable pub expire_all : HermesClient → List String → Run HermesClient
unfolding expire
expire_all c [] = ok c
expire_all c (message_id ∷ rest) = expire c message_id >>= λ d. expire_all d rest

unfoldable pub cleanup_timeout_requests : ℕ → HermesClient → Run HermesClient
unfolding expired_requests expire_all
cleanup_timeout_requests now c = expire_all c (expired_requests now c c.pending)

unfoldable pub handle_timeout : HermesClient → String → Run HermesClient
unfolding abandon_if_any
handle_timeout c message_id = elim (lookup message_id c.pending) [
  | none ↦ ok c
  | some p ↦
      abandon_if_any request_timeout
        (count_timeout (record c { pending = delete message_id c.pending })) p
]

unfoldable pub abandon_all : HermesClient → Map ℕ → Run HermesClient
unfolding abandon_if_any
abandon_all c [] = ok c
abandon_all c ((message_id, p) ∷ m) =
    abandon_if_any client_shutting_down c p >>= λ d. abandon_all d m

unfoldable pub stop : HermesClient → Run HermesClient
unfolding abandon_all
stop c = do
  d ← abandon_all (record c { cancelled = true }) c.pending
  ok (record d { pending = []; has_socket = false })

module _ (w : Wire) where
  -- The response as JSON for a success, an error otherwise.
  unfoldable pub deliver : HermesClient → ℕ → ServiceResponse → Run HermesClient
  unfolding offer
  deliver c p resp =
      let r = deref c p in
      if resp.success
      then offer r.response (w.encode_response resp)
        >>= (λ ch. ok (assign c p (record r { response = ch })))
      else offer r.error (service_error resp.error)
        >>= (λ ch. ok (assign c p (record r { error = ch })))

  unfoldable pub handle_service_response : ℕ → HermesClient → ServiceResponse → Run HermesClient
  unfolding target deliver
  handle_service_response now c resp = elim (target c resp) [
    | waiting p ↦ deliver c p resp
    | forgotten ↦
        ok (count_response now (record c { pending_nonces = delete resp.nonce c.pending_nonces }))
    | unknown ↦ ok c
  ]

  unfoldable pub handle_response : ℕ → HermesClient → Bytes → Run HermesClient
  unfolding handle_service_response
  handle_response now c response = elim (w.decode_response response) [
    | none ↦ ok c
    | some resp ↦ if resp.message_id == "" then ok c else handle_service_response now c resp
  ]

  -- The client that is left, and what goes to the error loop.
  unfoldable pub process_message : ℕ → HermesClient → Msg → Run (HermesClient × Option LoopError)
  unfolding handle_response
  process_message now c [] = ok (c, some (malformed_message 0))
  process_message now c (delimiter ∷ []) = ok (c, some (malformed_message 1))
  process_message now c (delimiter ∷ response ∷ rest) =
      if delimiter == ""
      then handle_response now c response >>= (λ d. ok (d, none))
      else ok (c, some missing_delimiter)
