-- ===== src/Hermes/Broker.antt =====
-- internal/hermes/broker.go. `State` has the data, `Sends` what goes out through the socket,
-- `Registry` the lists of workers, `Handlers` what the broker does with each message, `Routing` how a raw message reaches its
-- handler, `Ticker` the loop that removes dead workers; the other modules prove.
pub mod State
pub mod Sends
pub mod Registry
pub mod Handlers
pub mod Routing
pub mod Ticker
pub mod Run
pub mod Delivery
pub mod Liveness
pub mod Queue
pub mod Idle
pub mod Stall
pub mod Reports
pub mod Frames
pub mod Invariant
