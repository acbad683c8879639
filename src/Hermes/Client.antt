-- ===== src/Hermes/Client.antt =====
-- internal/hermes/client.go.
pub mod Channel
pub mod State
pub mod Sends
pub mod Responses
pub mod Requests
pub mod Calls
pub mod Invariant
pub mod Keeping
pub mod Turns
pub mod Endings
pub mod Asking
pub mod Runs
pub mod Expiry
pub mod Late
pub mod Latency
pub mod Correlation
pub mod RoundTrip
pub mod Counts
pub mod Loops
pub mod Queues
