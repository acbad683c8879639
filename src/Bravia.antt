-- ===== src/Bravia.antt =====
-- internal/bravia: the Sony televisions, as devices of a hub.
pub mod Codes
pub mod World
pub mod Client
pub mod Remote
pub mod Sending
pub mod Status
pub mod Parameters
pub mod Hosting
mod Tests
