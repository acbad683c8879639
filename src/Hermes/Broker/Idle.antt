-- ===== src/Hermes/Broker/Idle.antt =====
-- internal/hermes/broker.go: which messages put a worker into the list of those that wait.
pub mod Requests
pub mod Ready
pub mod Runs
use lucas.Base.{
  ap, inr, if_neg, subst, List-cases, inl, Option-cases, if_pos, lookup-insert, str_dec, ite,
  length, insert, lookup, Option, ℕ, ◌+◌, ◌≤◌, ◌≡◌, refl, String, List, [], ◌∷◌, none, some, arith,
}
use lucas.Hermes.Wire.{Wire}
use lucas.Hermes.Broker.State.{deref, Broker, BrokerService}
use lucas.Hermes.Protocol.{Bytes, ClientMessage}
use lucas.Hermes.Broker.Registry.{remove_from_service, remove_worker, remove_first}
use lucas.Hermes.Broker.Frames.{send_to_worker-Keeps, send_to_client-Keeps, Keeps}
use lucas.Hermes.Broker.Handlers.{
  ready_hub, refuse, ask_hub, serve, assign, note_client, handle_client_request,
  handle_worker_reply,
}
use lucas.Hermes.Broker.Sends.{send_reregistration_request, send_to_client}

unfoldable pub count_waiting : Option BrokerService → ℕ
count_waiting none = 0
count_waiting (some s) = length s.waiting

-- How many workers wait for a request of that service.
unfoldable pub waiting : Broker → String → ℕ
unfolding count_waiting
waiting b name = count_waiting (lookup name b.services)

pub waiting-insert :
    (b : Broker) (k name : String) (s : BrokerService)
    → waiting (record b { services = insert k s b.services }) name
      ≡ ite (str_dec k name) (length s.waiting) (waiting b name)
unfolding waiting
waiting-insert b k name s = ground (arith, lookup-insert k name s b.services)

pub waiting-Keeps : (b b' : Broker) (name : String) → Keeps b b' → waiting b' name ≡ waiting b name
unfolding waiting
waiting-Keeps b b' name k = rw k.services

pub waiting-services :
    (b b' : Broker) (name : String) → b'.services ≡ b.services → waiting b' name ≡ waiting b name
unfolding waiting
waiting-services b b' name e = rw e

pub length-remove_first-le :
    (b : Broker) (k : String) (ps : List ℕ) → length (remove_first b k ps) ≤ length ps
unfolding remove_first
length-remove_first-le b k [] = omega arith
length-remove_first-le b k (p ∷ ps) = ground (arith, length-remove_first-le b k ps)

pub waiting-lookup :
    (b : Broker) (name : String) (s : BrokerService)
    → lookup name b.services ≡ some s
    → waiting b name ≡ length s.waiting
unfolding waiting count_waiting
waiting-lookup b name s e = rw e

-- A write of a service with no more waiting workers.
pub waiting-insert-le :
    (b : Broker) (k name : String) (s s' : BrokerService)
    → lookup k b.services ≡ some s
    → length s'.waiting ≤ length s.waiting
    → waiting (record b { services = insert k s' b.services }) name ≤ waiting b name
waiting-insert-le b k name s s' e h = elim (str_dec k name) [
  | yes q ↦
      rw (waiting-insert b k name s', if_pos _ q)
        (omega (arith, waiting-lookup b name s (subst (λ j. lookup j b.services ≡ some s) q e)))
  | no q ↦ rw (waiting-insert b k name s', if_neg _ q) (omega arith)
]

pub waiting-remove_from_service :
    (b : Broker) (k service name : String)
    → waiting (record b { services = remove_from_service b k service }) name ≤ waiting b name
unfolding remove_from_service
waiting-remove_from_service b k service name = elim (Option-cases (lookup service b.services)) [
  | inl e ↦ rw (e, remove_from_service) (omega arith)
  | inr (s, e) ↦
      rw (e, remove_from_service)
        (waiting-insert-le b service name s _ e (length-remove_first-le b k s.waiting))
]

pub waiting-remove_worker :
    (b : Broker) (k name : String) → waiting (remove_worker b k).0 name ≤ waiting b name
unfolding remove_worker waiting
waiting-remove_worker b k name = elim (Option-cases (lookup k b.workers)) [
  | inl e ↦ rw (e, remove_worker) (omega arith)
  | inr (p, e) ↦ rw (e, remove_worker) (waiting-remove_from_service b k (deref b p).service name)
]
