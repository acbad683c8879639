-- ===== src/Hermes/Broker/Run.antt =====
-- internal/hermes/broker.go: the loops that take events off the channels, as steps of one broker.
-- The order of the steps is the order in which the loops take the locks; an error goes to the log.
use lucas.Base.{ℕ, String, List, [], ◌∷◌}
use lucas.Hermes.Wire.{Wire}
use lucas.Hermes.Broker.State.{Broker}
use lucas.Hermes.Broker.Routing.{
  process_client_event, ClientEvent, WorkerEvent, process_worker_event,
}
use lucas.Hermes.Broker.Registry.{check_worker_liveness}
use lucas.Hermes.Broker.Ticker.{Manager, tick}

-- What a loop does at a time: an event of a worker (with the id that a device list request would
-- draw from the clock), an event of a client, or a look for dead workers.
pub data Event : Type 0 where
  worker_turn : ℕ → String → WorkerEvent → Event
  client_turn : ℕ → ClientEvent → Event
  liveness_turn : ℕ → Event

module _ (w : Wire) where
  unfoldable pub step : Broker → Event → Broker
  unfolding process_worker_event process_client_event check_worker_liveness
  step b (worker_turn now message_id e) = (process_worker_event w now message_id b e).0
  step b (client_turn now e) = (process_client_event w now b e).0
  step b (liveness_turn now) = check_worker_liveness now b

  unfoldable pub run : Broker → List Event → Broker
  unfolding step
  run b [] = b
  run b (e ∷ es) = run (step b e) es

-- The event loops beside the loop that looks for dead workers: its turns are ticks.
unfoldable pub managed_step : Wire → Manager → Event → Manager
unfolding tick step
managed_step w m (liveness_turn now) = tick m now
managed_step w m (worker_turn now message_id e) = record m {
  broker = step w m.broker (worker_turn now message_id e);
}
managed_step w m (client_turn now e) = record m { broker = step w m.broker (client_turn now e) }

unfoldable pub managed : Wire → Manager → List Event → Manager
unfolding managed_step
managed w m [] = m
managed w m (e ∷ es) = managed w (managed_step w m e) es
