-- ===== src/Hermes/Broker/Idle/Ready.antt =====
-- internal/hermes/broker.go: READY puts one worker into the list of waiting workers of its service.
use lucas.Base.{
  length-append, inr, if_neg, inl, Option-cases, if_pos, str_dec, ite, length, lookup, ℕ, ◌+◌, ◌≤◌,
  ◌≡◌, String, List, [], ◌∷◌, arith,
}
use lucas.Hermes.Wire.{Wire}
use lucas.Hermes.Broker.State.{PendingRequest, deref, Broker}
use lucas.Hermes.Broker.Registry.{enlist, service_or_new, register_worker}
use lucas.Hermes.Broker.Frames.{send_immediate_device_list_request-Keeps, drain-Keeps}
use lucas.Hermes.Broker.Handlers.{drain, handle_worker_ready, process_pending_requests}
use lucas.Hermes.Broker.Sends.{send_to_worker}
use lucas.Hermes.Broker.Idle.{
  waiting-insert-le, waiting-insert, waiting-Keeps, count_waiting, waiting,
}

length-drain-le :
    (w : Wire) (rs : List PendingRequest) (ps : List ℕ) (b : Broker)
    → length (drain w rs ps b).2 ≤ length ps
unfolding drain
length-drain-le w [] ps b = omega arith
length-drain-le w (r ∷ rs) [] b = omega arith
length-drain-le w (r ∷ rs) (p ∷ ps) b =
    omega (
      arith,
      length-drain-le w rs ps (send_to_worker w b (deref b p).identity r.client_id r.body).0,
    )

waiting-process_pending_requests :
    (w : Wire) (b : Broker) (k name : String)
    → waiting (process_pending_requests w b k) name ≤ waiting b name
unfolding process_pending_requests
waiting-process_pending_requests w b k name = elim (Option-cases (lookup k b.services)) [
  | inl e ↦ rw (e, process_pending_requests) (omega arith)
  | inr (s, e) ↦
      let kept = drain-Keeps w s.requests s.waiting b in
      rw (e, process_pending_requests)
        (omega (
          arith,
          waiting-Keeps b _ name kept,
          waiting-insert-le (drain w s.requests s.waiting b).0 k name s _ (rw kept.services e)
              (length-drain-le w s.requests s.waiting b),
        ))
]

-- One more for the service of that name.
abbrev pub one_for : String → String → ℕ
one_for k name = ite (str_dec k name) 1 0

waiting-service_or_new :
    (b : Broker) (name : String) → length (service_or_new b name).waiting ≡ waiting b name
unfolding service_or_new waiting count_waiting
waiting-service_or_new b name = ground arith

waiting-enlist :
    (b : Broker) (k name : String) (p : ℕ)
    → waiting (enlist b k p) name ≡ waiting b name + one_for k name
unfolding enlist
waiting-enlist b k name p = elim (str_dec k name) [
  | yes q ↦
      rw (waiting-insert b k name _, if_pos _ q, if_pos _ q, ← q)
        (omega
          (arith, length-append (service_or_new b k).waiting (p ∷ []), waiting-service_or_new b k))
  | no q ↦ rw (waiting-insert b k name _, if_neg _ q, if_neg _ q) (omega arith)
]

waiting-register_worker :
    (now : ℕ) (b : Broker) (worker_id k name : String)
    → waiting (register_worker now b worker_id k).0 name ≡ waiting b name
unfolding register_worker waiting
waiting-register_worker now b worker_id k name = ground arith

pub waiting-handle_worker_ready :
    (w : Wire) (now : ℕ) (message_id : String) (b : Broker) (worker_id k name : String)
    → waiting (handle_worker_ready w now message_id b worker_id k).0 name
      ≤ waiting b name + one_for k name
unfolding handle_worker_ready
waiting-handle_worker_ready w now message_id b worker_id k name =
    let r : Broker × ℕ = register_worker now b worker_id k in
    let served : Broker = process_pending_requests w (enlist r.0 k r.1) k in
    ground (
      arith,
      waiting-register_worker now b worker_id k name,
      waiting-enlist r.0 k name r.1,
      waiting-process_pending_requests w (enlist r.0 k r.1) k name,
      waiting-Keeps served _ name
          (send_immediate_device_list_request-Keeps w message_id served worker_id),
    )
