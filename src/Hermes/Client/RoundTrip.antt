-- ===== src/Hermes/Client/RoundTrip.antt =====
-- internal/hermes/client.go: a request that is answered while it waits.
use lucas.Base.{
  map, str_dec, ℕ, true, false, String, List, [], ◌∷◌, ◌++◌, none, some, ◌≡◌, ◌≢◌, refl, ◌∙◌, ap,
  arith, length, lookup, lookup-insert_self, lookup-delete, get_or-append_length,
  get_or-modify_self, subst, All, ◌==◌,
}
use lucas.Hermes.Protocol.{Bytes, ServiceResponse}
use lucas.Hermes.Wire.{Wire}
use lucas.Hermes.Client.Channel.{Run, ok, panicked, receive, ◌>>=◌, open_channel}
use lucas.Hermes.Client.State.{
  HermesClient, PendingClientRequest, deref, assign, zero_request, waiting_request, record_latency,
}
use lucas.Hermes.Client.Sends.{request_message, send_request}
use lucas.Hermes.Client.Responses.{
  target, waiting, handle_service_response, handle_response, process_message,
}
use lucas.Hermes.Client.Requests.{
  got_response, Event, arrives, step, steps, take_response, select, store,
}
use lucas.Hermes.Client.Calls.{
  Again, conclude, Call, after_wait, attempt, Round, answered, succeed, attempts,
  request_with_timeout,
}
use lucas.Hermes.Client.Invariant.{IsWellFormed, Ensures}
use lucas.Hermes.Client.Keeping.{pending-IsReady, store-IsWellFormed, same-IsWellFormed}
use lucas.Hermes.Client.Turns.{handle_response-Ensures}
use lucas.Hermes.Client.Asking.{send_request-Keeps}
use lucas.Hermes.Client.Correlation.{
  IsForOther, Untouched, delivered, deliver-delivered, handle_response-other,
}

-- Messages of the broker, each with the time at which it is read.
abbrev pub Arrival : Type 0
Arrival = ℕ × Bytes

abbrev pub arrival : Arrival → Event
arrival (now, response) = arrives now ("" ∷ response ∷ [])

module _ (w : Wire) where
  steps-append :
      (c : HermesClient) (es later : List Event)
      → steps w c (es ++ later) ≡ (steps w c es >>= λ d. steps w d later)
  unfolding steps
  steps-append c [] later = refl
  steps-append c (e ∷ es) later = at (step w c e) (λ d. steps-append d es later)
    where
      at :
          (m : Run HermesClient)
          → ((d : HermesClient) → steps w d (es ++ later) ≡ (steps w d es >>= λ f. steps w f later))
          → (m >>= λ d. steps w d (es ++ later))
            ≡ ((m >>= λ d. steps w d es) >>= λ f. steps w f later)
      at (ok d) h = h d
      at panicked h = refl

  step-arrival :
      (a : Arrival) (c d : HermesClient)
      → handle_response w a.0 c a.1 ≡ ok d
      → step w c (arrival a) ≡ ok d
  unfolding step process_message str_dec
  step-arrival a c d e = rw e

  module _ (k : String) (p : ℕ) where
    -- Messages for others leave the pending request as it is.
    others-Untouched :
        (c : HermesClient) (others : List Arrival)
        → IsWellFormed c
        → lookup k c.pending ≡ some p
        → All (λ a. IsForOther w k (w.decode_response a.1)) others
        → (d : HermesClient) × (steps w c (map arrival others) ≡ ok d)
          × IsWellFormed d
          × Untouched w k p c d
    unfolding steps
    others-Untouched c [] v e h = (c, refl, v, record { pending = refl; cell = refl })
    others-Untouched c (a ∷ rest) v e h =
        let (d, ran, u) = handle_response-other w a.0 c v k p a.1 e h.0 in
        let vd : IsWellFormed d =
          subst (Ensures IsWellFormed) ran (handle_response-Ensures w a.0 c v a.1) in
        let (f, ran', vf, u') = others-Untouched d rest vd (u.pending ∙ e) h.1 in
        (
          f,
          rw (step-arrival a c d ran) ran',
          vf,
          record { pending = u'.pending ∙ u.pending; cell = u'.cell ∙ u.cell },
        )

    -- The answer goes into the channel of the request.
    answer-delivered :
        (now : ℕ) (c : HermesClient) (response : Bytes) (resp : ServiceResponse)
        → IsWellFormed c
        → lookup k c.pending ≡ some p
        → w.decode_response response ≡ some resp
        → resp.message_id ≡ k
        → k ≢ ""
        → handle_response w now c response ≡ ok (assign c p (delivered w resp (deref c p)))
    unfolding handle_response handle_service_response target
    answer-delivered now c response resp v e q named full =
        let some_id : (resp.message_id == "") ≡ false = ground arith in
        let found : lookup resp.message_id c.pending ≡ some p = rw named e in
        let aim : target c resp ≡ waiting p = rw (found, target) in
        rw (q, handle_response, some_id, aim, handle_service_response)
          (deliver-delivered w c p k resp (pending-IsReady c v k p e).1)

  -- The state at the end of the wait: the request is pending, with the response in its channel.
  select-delivered :
      (c : HermesClient) (resp : ServiceResponse) (r : PendingClientRequest)
      → resp.success ≡ true
      → r.response ≡ some (open_channel Bytes)
      → (select take_response c.cancelled (delivered w resp r)).0
        ≡ got_response (w.encode_response resp)
  unfolding select receive
  select-delivered c resp r s e = rw (s, e)

  -- An attempt whose message is sent waits.
  attempt-waits :
      (script : ℕ → Round) (k : Call) (n : ℕ) (again : Again) (b d : HermesClient)
      → steps w b (script n).before ≡ ok b
      → (send_request w (script n).sent_at b k.service k.message_id k.body).1 ≡ none
      → steps w
          (send_request w (script n).sent_at b k.service k.message_id k.body).0
          (script n).meanwhile
        ≡ ok d
      → attempt w script k n again b ≡ after_wait w script k n again d
  unfolding attempt
  attempt-waits script k n again b d e f g = rw (e, ◌>>=◌, f, g)

  module _ (script : ℕ → Round) (now : ℕ) (c : HermesClient) (message_id service : String)
      (body : Bytes) (timeout : ℕ) (others : List Arrival) (last : Arrival)
      (resp : ServiceResponse) where
    -- The only thing that happens before the answer is that messages for others arrive.
    pub record IsPrompt : Type 0 where
      pub well_formed : IsWellFormed c
      pub socket : c.has_socket ≡ true
      pub took :
          w.send c.calls ("" ∷ w.encode_client (request_message service message_id body) ∷ [])
          ≡ none
      pub before : (script 0).before ≡ []
      pub meanwhile : (script 0).meanwhile ≡ map arrival others ++ arrival last ∷ []
      pub choice : (script 0).choice ≡ take_response
      pub rest : All (λ a. IsForOther w message_id (w.decode_response a.1)) others
      pub decoded : w.decode_response last.1 ≡ some resp
      pub named : resp.message_id ≡ message_id
      pub some_id : message_id ≢ ""
      pub success : resp.success ≡ true

    abbrev r0 : PendingClientRequest
    r0 = waiting_request message_id service body now timeout

    abbrev c1 : HermesClient
    c1 = store c r0

    abbrev c2 : HermesClient
    c2 = (send_request w (script 0).sent_at c1 service message_id body).0

    -- The state in which the wait begins.
    sent : IsPrompt → (send_request w (script 0).sent_at c1 service message_id body).1 ≡ none
    unfolding send_request
    sent h = rw (h.socket, h.took)

    waits :
        IsPrompt
        → IsWellFormed c2
          × (lookup message_id c2.pending ≡ some (length c.heap))
          × (deref c2 (length c.heap) ≡ r0)
    waits h =
        let k = send_request-Keeps w (script 0).sent_at c1 service message_id body in
        (
          same-IsWellFormed c1
              (store-IsWellFormed c h.well_formed message_id service body now timeout) c2 k.pending
              k.pending_nonces k.heap,
          rw k.pending (lookup-insert_self message_id (length c.heap) c.pending),
          rw k.heap (get_or-append_length c.heap r0 zero_request),
        )

    -- The wait brings the response into the request's channel.
    arrived :
        IsPrompt
        → (d : HermesClient) × (steps w c2 (script 0).meanwhile ≡ ok d)
          × (deref d (length c.heap) ≡ delivered w resp r0)
    unfolding steps
    arrived h =
        let p = length c.heap in
        let (v, e, cell) = waits h in
        let (d, ran, vd, u) = others-Untouched message_id p c2 others v e h.rest in
        let found = u.pending ∙ e in
        let last_ran = step-arrival last d _ (
          answer-delivered message_id p last.0 d last.1 resp vd found h.decoded h.named
            h.some_id) in
        (
          assign d p (delivered w resp (deref d p)),
          rw (h.meanwhile, steps-append c2 (map arrival others) (arrival last ∷ []), ran, last_ran)
              refl,
          get_or-modify_self d.heap p _ zero_request (pending-IsReady d vd message_id p found).0
              ∙ ap (delivered w resp) (u.cell ∙ cell),
        )

    abbrev call : Call
    call = record {
      message_id = message_id;
      service = service;
      body = body;
      timeout = timeout;
      pointer = length c.heap;
      retries = c.retries;
    }

    after_wait-answered :
        (again : Again) (d : HermesClient)
        → IsPrompt
        → deref d (length c.heap) ≡ delivered w resp r0
        → (f : HermesClient) × (after_wait w script call 0 again d
            ≡ ok (f, answered (w.encode_response resp)))
          × (lookup message_id f.pending ≡ none)
    unfolding after_wait conclude succeed record_latency
    after_wait-answered again d h cell =
        let got = select-delivered d resp r0 h.success refl in
        rw (h.choice, cell, got)
          (_, refl, ground (arith, lookup-delete message_id message_id d.pending))

    -- In a well-formed client whose socket takes the request, a request whose first attempt sees
    -- nothing but responses for others and then a successful response with its own message id
    -- returns exactly that response, as JSON, and is no longer pending.
    pub request_with_timeout-answered :
        IsPrompt
        → (d : HermesClient) × (request_with_timeout w script now c message_id service body timeout
            ≡ ok (d, answered (w.encode_response resp)))
          × (lookup message_id d.pending ≡ none)
    unfolding request_with_timeout attempts attempt steps
    request_with_timeout-answered h =
        let (d, ran, cell) = arrived h in
        rw
          (attempt-waits script call 0 (attempts w script call c.retries 1) c1 d (rw h.before refl)
            (sent h) ran)
          (after_wait-answered (attempts w script call c.retries 1) d h cell)
