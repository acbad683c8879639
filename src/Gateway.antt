-- ===== src/Gateway.antt =====
-- internal/gateway: the database of hubs and devices, and the broker service over it.
pub mod Store
pub mod Hubs
pub mod Presence
pub mod Devices
pub mod Users
pub mod Registry
pub mod DeviceList
pub mod Service
pub mod Sender
pub mod Address
pub mod Rows
pub mod Ensuring
pub mod Keys
pub mod Integrity
pub mod Writes
pub mod HubKeeping
pub mod Operations
pub mod DeviceRows
pub mod Listing
pub mod HubList
pub mod KnownHub
pub mod Registration
pub mod NewHub
pub mod Spellings
pub mod Providers
pub mod Commands
mod Tests
mod CommandTests
