-- ===== src/Hermes/Broker/Invariant/Steps.antt =====
-- internal/hermes/broker.go: every handler keeps the broker well formed, and so does every run.
use lucas.Base.{
  ◌==◌, Bool-cases, All-lookup, List-cases, inl, inr, lookup, Option-cases, ℕ, String, none, some,
  arith,
}
use lucas.Hermes.Broker.State.{hub_control, Outcome, deref, BrokerService, Broker}
use lucas.Hermes.Broker.Invariant.{
  Keeps-IsWellFormed, with_service-IsWellFormed, IsListed, IsWellFormed,
}
use lucas.Hermes.Broker.Handlers.{
  ready_hub, wrap_forward, handle_worker_reply, handle_worker_heartbeat, route_reply, ask_hub,
  serve, refuse, handle_client_request, assign, note_client,
}
use lucas.Hermes.Broker.Registry.{actual_hub_id}
use lucas.Hermes.Protocol.{ClientMessage, Bytes}
use lucas.Hermes.Wire.{Wire}
use lucas.Hermes.Broker.Frames.{
  send_heartbeat_response-Keeps, send_reregistration_request-Keeps, send_to_client-Keeps,
  send_to_worker-Keeps,
}
use lucas.Hermes.Broker.Sends.{send_reregistration_request, send_to_client}
use lucas.Hermes.Broker.Invariant.Changes.{
  note_client-IsWellFormed, assigned-IsListed, process_device_list-IsWellFormed,
  refresh_worker-IsWellFormed, count_reply-IsWellFormed,
}

module _ (w : Wire) where
  assign-IsWellFormed :
      (now : ℕ) (b : Broker) (s : BrokerService) (client_id : String) (msg : ClientMessage)
      → IsWellFormed b
      → IsListed b.heap (msg.service, s)
      → IsWellFormed (assign w now b s client_id msg).0
  unfolding assign
  assign-IsWellFormed now b s client_id msg v (named, ws, qs, dr) = elim (List-cases s.waiting) [
    | inl e ↦ rw (e, assign) (with_service-IsWellFormed b msg.service _ v (named, ws, qs, inr e))
    | inr (p, ps, e) ↦
        rw (e, assign)
          (Keeps-IsWellFormed (send_to_worker-Keeps w _ (deref b p).identity client_id msg.body) (
            with_service-IsWellFormed b msg.service _ v
              (assigned-IsListed b.heap msg.service s p ps e (named, ws, qs, dr))))
  ]

  refuse-IsWellFormed :
      (b : Broker) (client_id : String) (msg : ClientMessage) (text : String)
      → IsWellFormed b
      → IsWellFormed (refuse w b client_id msg text).0
  unfolding refuse
  refuse-IsWellFormed b client_id msg text v =
      Keeps-IsWellFormed (send_to_client-Keeps w b client_id _) v

  ask_hub-IsWellFormed :
      (b : Broker) (s : BrokerService) (client_id : String) (msg : ClientMessage)
      → IsWellFormed b
      → IsWellFormed (ask_hub w b s client_id msg).0
  unfolding ask_hub
  ask_hub-IsWellFormed b s client_id msg v = elim (Option-cases (ready_hub b s.workers)) [
    | inl e ↦ rw (e, ask_hub) (refuse-IsWellFormed b client_id msg _ v)
    | inr (p, e) ↦ rw (e, ask_hub) (Keeps-IsWellFormed (send_to_worker-Keeps w b _ client_id _) v)
  ]

  serve-IsWellFormed :
      (now : ℕ) (b : Broker) (s : BrokerService) (client_id : String) (msg : ClientMessage)
      → IsWellFormed b
      → IsListed b.heap (msg.service, s)
      → IsWellFormed (serve w now b s client_id msg).0
  unfolding serve
  serve-IsWellFormed now b s client_id msg v fit = elim (Bool-cases (msg.service == hub_control)) [
    | inl e ↦ rw e (ask_hub-IsWellFormed b s client_id msg v)
    | inr e ↦ rw e (assign-IsWellFormed now b s client_id msg v fit)
  ]

  pub handle_client_request-IsWellFormed :
      (now : ℕ) (b : Broker) (client_id : String) (msg : ClientMessage)
      → IsWellFormed b
      → IsWellFormed (handle_client_request w now b client_id msg).0
  unfolding handle_client_request
  handle_client_request-IsWellFormed now b client_id msg v =
      elim (Option-cases (lookup msg.service b.services)) [
        | inl e ↦ rw (e, handle_client_request) (refuse-IsWellFormed _ client_id msg _ noted)
        | inr (s, e) ↦
            rw (e, handle_client_request)
              (serve-IsWellFormed now _ s client_id msg noted
                (All-lookup (IsListed b.heap) msg.service b.services e v.listed))
      ]
    where
      noted : IsWellFormed (note_client now b client_id)
      noted = note_client-IsWellFormed now b client_id v

  route_reply-IsWellFormed :
      (b : Broker) (p : ℕ) (worker_id client_id : String) (reply : Bytes)
      → IsWellFormed b
      → IsWellFormed (route_reply w b p worker_id client_id reply).0
  unfolding route_reply
  route_reply-IsWellFormed b p worker_id client_id reply v = ground (
    arith,
    process_device_list-IsWellFormed b (actual_hub_id worker_id (w.decode_response reply)) reply v,
    Keeps-IsWellFormed (send_to_client-Keeps w b client_id reply) v,
  )

  forwarded-IsWellFormed :
      (o : Outcome) (worker_id : String)
      → IsWellFormed o.0
      → IsWellFormed (wrap_forward o (λ b. send_reregistration_request w b worker_id)).0
  forwarded-IsWellFormed (b, none) worker_id v =
      Keeps-IsWellFormed (send_reregistration_request-Keeps w b worker_id) v
  forwarded-IsWellFormed (b, some e) worker_id v = v

  pub handle_worker_reply-IsWellFormed :
      (now : ℕ) (b : Broker) (worker_id client_id : String) (reply : Bytes)
      → IsWellFormed b
      → IsWellFormed (handle_worker_reply w now b worker_id client_id reply).0
  unfolding handle_worker_reply
  handle_worker_reply-IsWellFormed now b worker_id client_id reply v =
      elim (Option-cases (lookup worker_id b.workers)) [
        | inl e ↦
            rw (e, handle_worker_reply)
              (forwarded-IsWellFormed (send_to_client w b client_id reply) worker_id
                (Keeps-IsWellFormed (send_to_client-Keeps w b client_id reply) v))
        | inr (p, e) ↦
            rw (e, handle_worker_reply)
              (route_reply-IsWellFormed _ p worker_id client_id reply
                (count_reply-IsWellFormed now b p v))
      ]

  pub handle_worker_heartbeat-IsWellFormed :
      (now : ℕ) (b : Broker) (worker_id : String)
      → IsWellFormed b
      → IsWellFormed (handle_worker_heartbeat w now b worker_id).0
  unfolding handle_worker_heartbeat
  handle_worker_heartbeat-IsWellFormed now b worker_id v =
      elim (Option-cases (lookup worker_id b.workers)) [
        | inl e ↦
            rw (e, handle_worker_heartbeat)
              (Keeps-IsWellFormed (send_reregistration_request-Keeps w b worker_id) v)
        | inr (p, e) ↦
            rw (e, handle_worker_heartbeat)
              (Keeps-IsWellFormed (send_heartbeat_response-Keeps w _ worker_id)
                (refresh_worker-IsWellFormed now b p v))
      ]
