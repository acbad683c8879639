-- ===== src/Hermes/Broker/Delivery.antt =====
-- internal/hermes/broker.go: the two ways of a raw message to its handler.
use lucas.Base.{str_dec, ℕ, ◌≡◌, String, [], ◌∷◌, arith}
use lucas.Hermes.Wire.{Wire}
use lucas.Hermes.Broker.State.{Broker}
use lucas.Hermes.Broker.Routing.{
  process_client_event, route_message, process_worker_event, Channels, route_message_to_channels,
}
use lucas.Hermes.Broker.Handlers.{handle_client_message, handle_worker_message}

abbrev pub no_events : Channels
no_events = record { worker_events = []; client_events = [] }

-- What the two event loops do with the oldest event of their channels.
pub take_events : Wire → ℕ → String → Broker → Channels → Broker
take_events w now message_id b ch = elim ch.worker_events [
  | e ∷ _ ↦ (process_worker_event w now message_id b e).0
  | [] ↦ elim ch.client_events [ e ∷ _ ↦ (process_client_event w now b e).0 | [] ↦ b ]
]

module _ (w : Wire) (now : ℕ) (message_id : String) (b : Broker) where
  -- A message without frames after the content takes the same effect over the channels as directly,
  -- whether or not it can be parsed and whatever command it has.
  pub take_events-route_message :
      (sender content : String)
      → take_events w now message_id b
          (route_message_to_channels w no_events (sender ∷ "" ∷ content ∷ [])).0
        ≡ (route_message w now message_id b sender (content ∷ [])).0
  unfolding take_events route_message_to_channels route_message process_worker_event
      process_client_event handle_worker_message handle_client_message str_dec
  take_events-route_message sender content = ground arith
