-- ===== src/Hermes/Client/Requests.antt =====
-- internal/hermes/client.go: the three kinds of requests, and what happens beside them. While a
-- request waits, other goroutines take turns: its script says which, and which case its `select`
-- takes. A case that is not ready is not taken: the wait then ends by its time.
use lucas.Base.{
  ℕ, ◌+◌, ◌-◌, Bool, String, List, [], ◌∷◌, ◌++◌, Option, none, some, if◌then◌else◌, ◌==◌, insert,
  delete, length,
}
use lucas.Hermes.Protocol.{Bytes}
use lucas.Hermes.Wire.{Msg, Wire}
use lucas.Hermes.Client.Channel.{Run, ok, ◌>>=◌, receive, close}
use lucas.Hermes.Client.State.{
  HermesClient, PendingClientRequest, ClientError, client_shutting_down, timeout_after, deref,
  assign, waiting_request, forgotten_request, record_latency,
}
use lucas.Hermes.Client.Sends.{Outcome, send_request, count_request, attempt_reconnection}
use lucas.Hermes.Client.Responses.{
  count_response, count_timeout, cleanup_timeout_requests, handle_timeout, stop, process_message,
}

pub data Choice : Type 0 where
  take_response take_error take_time take_shutdown : Choice

-- What the `select` gave. A closed channel that is empty gives an empty response, or no error.
pub data Taken : Type 0 where
  got_response : Bytes → Taken
  got_error : Option ClientError → Taken
  timed_out shut_down : Taken

abbrev bytes_of : Option Bytes → Bytes
bytes_of none = ""
bytes_of (some body) = body

unfoldable pub select : Choice → Bool → PendingClientRequest → Taken × PendingClientRequest
unfolding receive
select take_response cancelled r = elim (receive r.response) [
  | none ↦ (timed_out, r)
  | some (v, ch) ↦ (got_response (bytes_of v), record r { response = ch })
]
select take_error cancelled r = elim (receive r.error) [
  | none ↦ (timed_out, r)
  | some (v, ch) ↦ (got_error v, record r { error = ch })
]
select take_time cancelled r = (timed_out, r)
select take_shutdown cancelled r = if cancelled then (shut_down, r) else (timed_out, r)

-- A pointer to the new request, which is pending under its id.
abbrev pub store : HermesClient → PendingClientRequest → HermesClient
store c r = record c {
  pending = insert r.message_id (length c.heap) c.pending;
  heap = c.heap ++ r ∷ [];
}

abbrev pub count_failure : HermesClient → HermesClient
count_failure c = record c {
  stats = record (c.stats) { requests_failed = c.stats.requests_failed + 1 };
}

abbrev pub forget : HermesClient → String → HermesClient
forget c message_id = record c { pending = delete message_id c.pending }

-- Both channels are closed, without a test whether they are closed already.
unfoldable pub close_both : HermesClient → ℕ → Run HermesClient
unfolding close
close_both c p = do
  let r = deref c p
  response ← close r.response
  error ← close r.error
  ok (assign c p (record r { response = response; error = error }))

unfoldable pub note_taken : Taken → HermesClient → HermesClient
note_taken timed_out c = count_timeout c
note_taken _ c = c

-- The error that a wait leaves behind.
unfoldable pub error_of : ℕ → Taken → Option ClientError
error_of timeout (got_response body) = none
error_of timeout (got_error e) = e
error_of timeout timed_out = some (timeout_after timeout)
error_of timeout shut_down = some client_shutting_down

-- RequestAsync after its send: the deferred deletion and closing come before anything else can
-- see the client. The callback gets the response or an error.
unfoldable pub note_async : ℕ → Taken → HermesClient → ℕ → HermesClient
unfolding record_latency
note_async now (got_response body) c p =
    count_response now (record_latency c (now - (deref c p).timestamp))
note_async now (got_error e) c p = count_failure c
note_async now timed_out c p = count_timeout c
note_async now shut_down c p = c

unfoldable pub finish_async : ℕ → Choice → HermesClient → String → ℕ → Run HermesClient
unfolding select note_async close_both
finish_async now choice c message_id p =
    let (taken, r) = select choice c.cancelled (deref c p) in
    close_both (forget (note_async now taken (assign c p r) p) message_id) p

unfoldable pub after_send : HermesClient → String → Option ClientError → Outcome
after_send c message_id none = (c, none)
after_send c message_id (some e) = (count_failure (forget c message_id), some e)

-- `if nonce != "" { … }` around the map of nonces.
unfoldable pub store_nonce : HermesClient → PendingClientRequest → HermesClient
store_nonce c r =
    let d = record c { heap = c.heap ++ r ∷ [] } in
    if r.nonce == ""
    then d
    else record d { pending_nonces = insert r.nonce (length c.heap) c.pending_nonces }

unfoldable pub forget_nonce : HermesClient → String → HermesClient
forget_nonce c nonce =
    if nonce == "" then c else record c { pending_nonces = delete nonce c.pending_nonces }

-- What other goroutines do, each from start to end. A synchronous request is not among them: it
-- takes such turns of the others while it waits.
pub data Event : Type 0 where
  arrives : ℕ → Msg → Event
  looks : ℕ → Event
  times_out : String → Event
  stops : Event
  asks : ℕ → String → String → Bytes → Event
  finishes : ℕ → Choice → String → ℕ → Event
  fires : ℕ → String → String → Bytes → String → Event
  forgets : String → Event
  reconnects : Event

module _ (w : Wire) where
  unfoldable pub request_async : ℕ → HermesClient → String → String → Bytes → Outcome
  unfolding send_request after_send
  request_async now c message_id service body =
      let stored = store c (waiting_request message_id service body now c.timeout) in
      let (sent, result) = send_request w now stored service message_id body in
      after_send sent message_id result

  unfoldable pub request_fire_and_forget :
      ℕ → HermesClient → String → String → Bytes → String → Outcome
  unfolding send_request store_nonce forget_nonce
  request_fire_and_forget now c message_id service body nonce =
      let stored = store_nonce c (forgotten_request message_id service body now nonce) in
      let (sent, result) = send_request w now stored service message_id body in
      elim result [
        | some e ↦ (count_failure (forget_nonce sent nonce), some e)
        | none ↦ (count_request now sent, none)
      ]

  unfoldable pub step : HermesClient → Event → Run HermesClient
  unfolding process_message cleanup_timeout_requests handle_timeout stop request_async finish_async
      request_fire_and_forget forget_nonce attempt_reconnection
  step c (arrives now raw) = process_message w now c raw >>= λ o. ok o.0
  step c (looks now) = cleanup_timeout_requests now c
  step c (times_out message_id) = handle_timeout c message_id
  step c stops = stop c
  step c (asks now message_id service body) = ok (request_async now c message_id service body).0
  step c (finishes now choice message_id p) = finish_async now choice c message_id p
  step c (fires now message_id service body nonce) =
      ok (request_fire_and_forget now c message_id service body nonce).0
  step c (forgets nonce) = ok (forget_nonce c nonce)
  step c reconnects = ok (attempt_reconnection w c)

  unfoldable pub steps : HermesClient → List Event → Run HermesClient
  unfolding step
  steps c [] = ok c
  steps c (e ∷ es) = step c e >>= λ d. steps d es
