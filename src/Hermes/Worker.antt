-- ===== src/Hermes/Worker.antt =====
-- internal/hermes/worker.go. `State` has the data, `Connection` the sends, the connection and the
-- reconnection, `Requests` the broker's messages, `Heartbeats` the heartbeat loop; the others prove.
pub mod State
pub mod Connection
pub mod Requests
pub mod Heartbeats
pub mod Turns
pub mod Connecting
pub mod Backoff
pub mod Accounts
pub mod Replies
