-- ===== src/Hermes/Broker/Idle/Runs.antt =====
-- internal/hermes/broker.go: over a run, the workers that wait are paid for by READY messages.
use lucas.Base.{◌==◌, if◌then◌else◌, ℕ, ◌+◌, ◌≤◌, ◌≡◌, String, List, [], ◌∷◌, arith}
use lucas.Hermes.Wire.{Wire}
use lucas.Hermes.Broker.Handlers.{
  handle_worker_reply, handle_client_message, handle_worker_heartbeat,
}
use lucas.Hermes.Broker.Run.{liveness_turn, client_turn, worker_turn, run, step, Event}
use lucas.Hermes.Broker.Registry.{
  expired_workers, check_worker_liveness, refresh_worker, remove_workers,
}
use lucas.Hermes.Broker.Routing.{message_of, process_client_event, process_worker_event}
use lucas.Hermes.Broker.Idle.{
  waiting-services, send_reregistration_request, waiting-remove_worker, remove_worker, waiting,
}
use lucas.Hermes.Broker.State.{Broker}
use lucas.Hermes.Broker.Sends.{send_reregistration_request, send_heartbeat_response}
use lucas.Hermes.Protocol.{hermes_ready}
use lucas.Hermes.Broker.Idle.Ready.{waiting-handle_worker_ready, one_for}
use lucas.Hermes.Broker.Idle.Requests.{waiting-handle_client_request, handle_worker_reply-services}

-- How many READY messages for the service an event brings.
pub readies_in : String → Event → ℕ
readies_in name (worker_turn now message_id e) =
    if e.kind == hermes_ready then one_for e.service name else 0
readies_in name (client_turn now e) = 0
readies_in name (liveness_turn now) = 0

pub readies : String → List Event → ℕ
unfolding readies_in
readies name [] = 0
readies name (e ∷ es) = readies_in name e + readies name es

remove_workers-waiting :
    (b : Broker) (ids : List String) (name : String)
    → waiting (remove_workers b ids) name ≤ waiting b name
unfolding remove_workers
remove_workers-waiting b [] name = omega arith
remove_workers-waiting b (k ∷ ks) name =
    omega
      (arith, remove_workers-waiting (remove_worker b k).0 ks name, waiting-remove_worker b k name)

module _ (w : Wire) where
  waiting-handle_worker_heartbeat :
      (now : ℕ) (b : Broker) (worker_id name : String)
      → waiting (handle_worker_heartbeat w now b worker_id).0 name ≡ waiting b name
  unfolding handle_worker_heartbeat waiting refresh_worker send_heartbeat_response
      send_reregistration_request
  waiting-handle_worker_heartbeat now b worker_id name = ground arith

  waiting-step :
      (b : Broker) (e : Event) (name : String)
      → waiting (step w b e) name ≤ waiting b name + readies_in name e
  unfolding step process_worker_event process_client_event readies_in handle_client_message
      check_worker_liveness
  waiting-step b (worker_turn now message_id e) name = ground (
    arith,
    waiting-handle_worker_ready w now message_id b e.worker_id e.service name,
    waiting-services b (handle_worker_reply w now b e.worker_id e.client_id e.body).0 name
        (handle_worker_reply-services w now b e.worker_id e.client_id e.body),
    waiting-handle_worker_heartbeat now b e.worker_id name,
    waiting-remove_worker b e.worker_id name,
  )
  waiting-step b (client_turn now e) name =
      ground (arith, waiting-handle_client_request w now b e.client_id (message_of e) name)
  waiting-step b (liveness_turn now) name =
      omega (arith, remove_workers-waiting b (expired_workers now b b.workers) name)

  -- Over any run the number of workers that wait for a service grows by at most the number of READY
  -- messages for that service: no reply, heartbeat or request makes a worker wait again.
  pub waiting-run :
      (b : Broker) (es : List Event) (name : String)
      → waiting (run w b es) name ≤ waiting b name + readies name es
  unfolding run readies
  waiting-run b [] name = omega arith
  waiting-run b (e ∷ es) name =
      omega (arith, waiting-run (step w b e) es name, waiting-step b e name)
