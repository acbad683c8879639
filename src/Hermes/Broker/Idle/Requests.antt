-- ===== src/Hermes/Broker/Idle/Requests.antt =====
-- internal/hermes/broker.go: a request and a reply put no worker into a list of waiting workers.
use lucas.Base.{
  ap, inr, List-cases, inl, Option-cases, length, lookup, ℕ, ◌≤◌, ◌≡◌, refl, String, some, arith,
}
use lucas.Hermes.Wire.{Wire}
use lucas.Hermes.Broker.State.{deref, Broker, BrokerService}
use lucas.Hermes.Protocol.{Bytes, ClientMessage}
use lucas.Hermes.Broker.Frames.{send_to_worker-Keeps, send_to_client-Keeps}
use lucas.Hermes.Broker.Handlers.{
  ready_hub, refuse, ask_hub, serve, assign, note_client, handle_client_request,
  handle_worker_reply,
}
use lucas.Hermes.Broker.Sends.{send_reregistration_request, send_to_client}
use lucas.Hermes.Broker.Idle.{waiting-Keeps, waiting-insert-le, waiting-services, waiting}

module _ (w : Wire) (now : ℕ) (b : Broker) (client_id : String) (msg : ClientMessage) where
  waiting-assign :
      (s : BrokerService) (name : String)
      → lookup msg.service b.services ≡ some s
      → waiting (assign w now b s client_id msg).0 name ≤ waiting b name
  unfolding assign
  waiting-assign s name found = elim (List-cases s.waiting) [
    | inl e ↦ rw (e, assign) (waiting-insert-le b msg.service name s _ found (omega arith))
    | inr (p, ps, e) ↦
        rw (e, assign)
          (omega (
            arith,
            waiting-Keeps _ _ name
                (send_to_worker-Keeps w _ (deref b p).identity client_id msg.body),
            waiting-insert-le b msg.service name s (record s { waiting = ps }) found
                (omega (arith, ap length e)),
          ))
  ]

  waiting-ask_hub :
      (s : BrokerService) (name : String)
      → waiting (ask_hub w b s client_id msg).0 name ≡ waiting b name
  unfolding ask_hub refuse
  waiting-ask_hub s name = elim (Option-cases (ready_hub b s.workers)) [
    | inl e ↦ rw (e, ask_hub) (waiting-Keeps _ _ name (send_to_client-Keeps w b client_id _))
    | inr (p, e) ↦ rw (e, ask_hub) (waiting-Keeps _ _ name (send_to_worker-Keeps w b _ client_id _))
  ]

pub waiting-handle_client_request :
    (w : Wire) (now : ℕ) (b : Broker) (client_id : String) (msg : ClientMessage) (name : String)
    → waiting (handle_client_request w now b client_id msg).0 name ≤ waiting b name
unfolding handle_client_request serve refuse
waiting-handle_client_request w now b client_id msg name =
    elim (Option-cases (lookup msg.service b.services)) [
      | inl e ↦
          rw (e, handle_client_request)
            (omega (arith, same, waiting-Keeps _ _ name (send_to_client-Keeps w b' client_id _)))
      | inr (s, e) ↦
          rw (e, handle_client_request)
            (ground (
              arith,
              same,
              waiting-ask_hub w now b' client_id msg s name,
              waiting-assign w now b' client_id msg s name e,
            ))
    ]
  where
    b' : Broker
    b' = note_client now b client_id

    same : waiting b' name ≡ waiting b name
    same = waiting-services b b' name refl

-- A reply leaves every service as it was: the worker that replied does not wait again.
pub handle_worker_reply-services :
    (w : Wire) (now : ℕ) (b : Broker) (worker_id client_id : String) (reply : Bytes)
    → (handle_worker_reply w now b worker_id client_id reply).0.services ≡ b.services
unfolding handle_worker_reply send_to_client send_reregistration_request
handle_worker_reply-services w now b worker_id client_id reply = ground arith
