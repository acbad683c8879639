-- ===== src/Hermes.antt =====
-- internal/hermes: the Majordomo protocol between the gateway's broker and the hubs' workers.
pub mod Protocol
pub mod Message
pub mod Wire
pub mod Broker
pub mod Worker
pub mod Client
mod Tests
mod WorkerTests
mod ClientTests
