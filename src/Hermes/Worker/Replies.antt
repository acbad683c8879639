-- ===== src/Hermes/Worker/Replies.antt =====
-- internal/hermes/worker.go: what the worker sends, and when it sends nothing.
use lucas.Base.{
  inr, ap, inl, ◌⊎◌, false, ◌∙◌, String, ℕ, ◌≡◌, refl, List, [], ◌∷◌, ◌++◌, none, some, arith, true,
}
use lucas.Hermes.Wire.{Wire, Msg}
use lucas.Hermes.Worker.State.{HermesWorker, connecting, ready}
use lucas.Hermes.Worker.Connection.{send_reply, message, connect}
use lucas.Hermes.Worker.Connecting.{connect-Connects}
use lucas.Hermes.Worker.Requests.{
  begin_request, end_request, Reply, failure, response, ask, reply_content, request_body, Handler,
  handle_request,
}
use lucas.Hermes.Worker.Heartbeats.{tick, ticks}
use lucas.Hermes.Protocol.{null, hermes_reply, Bytes}
use lucas.Hermes.Message.{create_service_response}

module _ (w : Wire) where
  tick_silent :
      (v : HermesWorker) (now : ℕ)
      → v.state ≡ connecting
      → ((tick w v now).sent ≡ v.sent) × ((tick w v now).state ≡ connecting)
  unfolding tick
  tick_silent v now e = ground arith

  ticks_silent :
      (v : HermesWorker) (times : List ℕ) → v.state ≡ connecting → (ticks w v times).sent ≡ v.sent
  unfolding ticks
  ticks_silent v [] e = refl
  ticks_silent v (now ∷ later) e =
      let (same, still) = tick_silent v now e in ticks_silent (tick w v now) later still ∙ same

  -- After a connection, whether or not it succeeded, no tick of the heartbeat loop sends anything.
  pub ticks-connect :
      (v : HermesWorker) (times : List ℕ)
      → (ticks w (connect w v).0 times).sent ≡ (connect w v).0.sent
  ticks-connect v times = ticks_silent (connect w v).0 times (connect-Connects w v).1

  -- The content of the reply to a request: the handler's response, or a failed service response
  -- that carries the text of its error, or says that there is no handler.
  abbrev pub IsAnswer : Handler → HermesWorker → Bytes → Bytes → Type 0
  IsAnswer none v request content =
      content
      ≡ w.encode_response
          (create_service_response "" v.service false null (some "no request handler configured"))
  IsAnswer (some handle) v request content =
      ((r : Bytes) × (handle request ≡ response r) × (content ≡ r))
      ⊎ ((text : String) × (handle request ≡ failure text)
          × (content
              ≡ w.encode_response (create_service_response "" v.service false null (some text))))

  reply_content-IsAnswer :
      (handler : Handler) (v : HermesWorker) (request : Bytes)
      → IsAnswer handler v request (reply_content w v (ask handler request))
  unfolding ask reply_content
  reply_content-IsAnswer none v request = refl
  reply_content-IsAnswer (some handle) v request = go (handle request) refl
    where
      go : (r : Reply) → handle request ≡ r → IsAnswer (some handle) v request (reply_content w v r)
      go (response r) e = inl (r, e, refl)
      go (failure text) e = inr (text, e, refl)

  send_reply-sent :
      (v : HermesWorker) (client_id : String) (content : Bytes)
      → v.has_socket ≡ true
      → ((msg : Msg) → w.send v.calls msg ≡ none)
      → let (u, e) = send_reply w v client_id content in
        (u.sent
          ≡ v.sent ++ ("" ∷ w.encode_worker (message hermes_reply "" client_id content) ∷ []) ∷ [])
        × (u.state ≡ v.state)
        × (e ≡ none)
  unfolding send_reply
  send_reply-sent v client_id content on takes =
      ground (arith, takes ("" ∷ w.encode_worker (message hermes_reply "" client_id content) ∷ []))

  finished :
      (now : ℕ) (r : Reply) (v : HermesWorker)
      → let u = end_request r (begin_request now v) in
        (u.has_socket ≡ v.has_socket) × (u.calls ≡ v.calls) × (u.sent ≡ v.sent) × (u.state ≡ ready)
  unfolding end_request begin_request
  finished now r v = ground arith

  -- With a socket that takes the message, a request is answered by exactly one REPLY to its client,
  -- whatever the handler returns, and the worker is ready again.
  pub handle_request-IsAnswer :
      (now : ℕ) (handler : Handler) (v : HermesWorker) (client_id : String) (body : Bytes)
      (parts : List Bytes)
      → v.has_socket ≡ true
      → ((msg : Msg) → w.send v.calls msg ≡ none)
      → let (u, e) = handle_request w now handler v client_id body parts in
        (content : Bytes) × (u.sent
          ≡ v.sent ++ ("" ∷ w.encode_worker (message hermes_reply "" client_id content) ∷ []) ∷ [])
        × IsAnswer handler v (request_body body parts) content
        × (u.state ≡ ready)
        × (e ≡ none)
  unfolding handle_request
  handle_request-IsAnswer now handler v client_id body parts on takes =
      let r = ask handler (request_body body parts) in
      let (socket, calls, sent, state) = finished now r v in
      let (out, kept, fine) =
        send_reply-sent (end_request r (begin_request now v)) client_id (reply_content w v r)
          (socket ∙ on) (λ msg. ap (λ n. w.send n msg) calls ∙ takes msg) in
      (
        reply_content w v r,
        out
            ∙ ap
                (λ s.
                  s
                  ++ (""
                      ∷ w.encode_worker (message hermes_reply "" client_id (reply_content w v r))
                      ∷ [])
                    ∷ [])
                sent,
        reply_content-IsAnswer handler v (request_body body parts),
        kept ∙ state,
        fine,
      )
