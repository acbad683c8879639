-- ===== src/Hermes/Broker/Invariant/Runs.antt =====
-- internal/hermes/broker.go: every event, and so every run, keeps the broker well formed.
use lucas.Base.{arith, ℕ, String, List, [], ◌∷◌, none}
use lucas.Hermes.Wire.{Wire}
use lucas.Hermes.Broker.Routing.{
  message_of, ClientEvent, WorkerEvent, process_client_event, process_worker_event,
}
use lucas.Hermes.Broker.Run.{client_turn, worker_turn, liveness_turn, Event, step, run}
use lucas.Hermes.Broker.State.{Broker, new_broker}
use lucas.Hermes.Broker.Reports.{start}
use lucas.Hermes.Broker.Handlers.{handle_client_message}
use lucas.Hermes.Broker.Invariant.{IsWellFormed}
use lucas.Hermes.Broker.Invariant.Ready.{handle_worker_ready-IsWellFormed}
use lucas.Hermes.Broker.Invariant.Steps.{
  handle_worker_heartbeat-IsWellFormed, handle_worker_reply-IsWellFormed,
  handle_client_request-IsWellFormed,
}
use lucas.Hermes.Broker.Invariant.Changes.{
  check_worker_liveness-IsWellFormed, remove_worker-IsWellFormed,
}

new_broker-IsWellFormed : (address : String) (now : ℕ) → IsWellFormed (new_broker address now)
unfolding new_broker
new_broker-IsWellFormed address now = record { registered = tt; listed = tt; distinct = tt }

module _ (w : Wire) where
  process_worker_event-IsWellFormed :
      (now : ℕ) (message_id : String) (b : Broker) (e : WorkerEvent)
      → IsWellFormed b
      → IsWellFormed (process_worker_event w now message_id b e).0
  unfolding process_worker_event
  process_worker_event-IsWellFormed now message_id b e v = ground (
    arith,
    handle_worker_ready-IsWellFormed w now message_id b e.worker_id e.service v,
    handle_worker_reply-IsWellFormed w now b e.worker_id e.client_id e.body v,
    handle_worker_heartbeat-IsWellFormed w now b e.worker_id v,
    remove_worker-IsWellFormed b e.worker_id v,
  )

  process_client_event-IsWellFormed :
      (now : ℕ) (b : Broker) (e : ClientEvent)
      → IsWellFormed b
      → IsWellFormed (process_client_event w now b e).0
  unfolding process_client_event handle_client_message
  process_client_event-IsWellFormed now b e v =
      ground (arith, handle_client_request-IsWellFormed w now b e.client_id (message_of e) v)

  step-IsWellFormed : (b : Broker) (e : Event) → IsWellFormed b → IsWellFormed (step w b e)
  unfolding step
  step-IsWellFormed b (worker_turn now message_id e) v =
      process_worker_event-IsWellFormed now message_id b e v
  step-IsWellFormed b (client_turn now e) v = process_client_event-IsWellFormed now b e v
  step-IsWellFormed b (liveness_turn now) v = check_worker_liveness-IsWellFormed now b v

  pub run-IsWellFormed : (b : Broker) (es : List Event) → IsWellFormed b → IsWellFormed (run w b es)
  unfolding run
  run-IsWellFormed b [] v = v
  run-IsWellFormed b (e ∷ es) v = run-IsWellFormed (step w b e) es (step-IsWellFormed b e v)

  started-IsWellFormed : (b : Broker) → IsWellFormed b → IsWellFormed (start b none).0
  unfolding start
  started-IsWellFormed b v = record {
    registered = v.registered;
    listed = v.listed;
    distinct = v.distinct;
  }

  -- A new broker that has started, its address bound, keeps the invariant through every sequence of
  -- worker, client and liveness events, whichever of its sends fail: the registered ids are distinct, each points to a worker of that id in the heap whose service
  -- exists, the services' lists point into the heap, and in no service does a request wait while
  -- a worker waits.
  pub run-new_broker-IsWellFormed :
      (address : String) (now : ℕ) (es : List Event)
      → IsWellFormed (run w (start (new_broker address now) none).0 es)
  run-new_broker-IsWellFormed address now es =
      run-IsWellFormed (start (new_broker address now) none).0 es
        (started-IsWellFormed (new_broker address now) (new_broker-IsWellFormed address now))
