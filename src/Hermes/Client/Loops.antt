-- ===== src/Hermes/Client/Loops.antt =====
-- internal/hermes/client.go: the client's loops, one turn of each. Nothing sends on requestCh,
-- responseCh and timeoutCh: the turns of those loops take what they would be given.
use lucas.Base.{
  not, ◌&&◌, ℕ, ◌-◌, Bool, false, String, [], ◌∷◌, ◌++◌, Option, none, some, length, ltb,
  if◌then◌else◌, ◌||◌, ◌==◌,
}
use lucas.Hermes.Wire.{Wire, Msg}
use lucas.Hermes.Client.Channel.{Run, ok, ◌>>=◌, offer}
use lucas.Hermes.Client.State.{
  HermesClient, PendingClientRequest, LoopError, received, error_text, is_connection_error, deref,
  assign, record_latency,
}
use lucas.Hermes.Client.Sends.{send_request, attempt_reconnection}
use lucas.Hermes.Client.Responses.{count_response, process_message}

abbrev pub messages_capacity : ℕ
messages_capacity = 100

abbrev pub errors_capacity : ℕ
errors_capacity = 50

unfoldable pub is_temporary_error : String → Bool
is_temporary_error text =
    text == "resource temporarily unavailable"
    || text == "no message available"
    || text == "operation would block"

-- What `Recv` gives.
pub data Received : Type 0 where
  message : Msg → Received
  failure : String → Received

-- An error that finds no room is dropped.
unfoldable pub report : HermesClient → LoopError → HermesClient
report c e =
    if ltb (length c.errors) errors_capacity then record c { errors = c.errors ++ e ∷ [] } else c

-- One turn of socketReader: a message that finds no room is dropped.
unfoldable pub read_socket : HermesClient → Received → HermesClient
unfolding report is_temporary_error
read_socket c (message raw) =
    if c.has_socket && ltb (length c.messages) messages_capacity
    then record c { messages = c.messages ++ raw ∷ [] }
    else c
read_socket c (failure text) =
    if c.has_socket && not (is_temporary_error text) then report c (received text) else c

abbrev report_any : HermesClient × Option LoopError → HermesClient
report_any (c, none) = c
report_any (c, some e) = report c e

-- One turn of errorHandler.
unfoldable pub handle_error : HermesClient → HermesClient
unfolding error_text is_connection_error
handle_error c = elim c.errors [
  | [] ↦ c
  | e ∷ rest ↦ record c { errors = rest; asked = c.asked || is_connection_error (error_text e) }
]

-- The body of responseHandler, for a request that was answered.
unfoldable pub handle_response_of : ℕ → HermesClient → PendingClientRequest → HermesClient
unfolding record_latency
handle_response_of now c r = count_response now (record_latency c (now - r.timestamp))

module _ (w : Wire) where
  -- One turn of messageProcessor.
  unfoldable pub process_next : ℕ → HermesClient → Run HermesClient
  unfolding process_message report
  process_next now c = elim c.messages [
    | [] ↦ ok c
    | raw ∷ rest ↦
        process_message w now (record c { messages = rest }) raw >>= λ o. ok (report_any o)
  ]

  -- The body of requestHandler, for a request of the heap.
  unfoldable pub handle_request : ℕ → HermesClient → ℕ → Run HermesClient
  unfolding send_request offer
  handle_request now c p =
      let r = deref c p in
      let (d, result) = send_request w now c r.service r.message_id r.body in
      elim result [
        | none ↦ ok d
        | some e ↦ offer r.error e >>= λ ch. ok (assign d p (record r { error = ch }))
      ]

  -- One turn of reconnectManager.
  unfoldable pub reconnect_next : HermesClient → HermesClient
  unfolding attempt_reconnection
  reconnect_next c = if c.asked then attempt_reconnection w (record c { asked = false }) else c
