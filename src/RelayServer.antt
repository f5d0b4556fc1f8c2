-- ===== src/RelayServer.antt =====
-- relayserver.
pub mod Rocks
pub mod Database
pub mod Ranges
pub mod Messages
pub mod Queries
pub mod Profiles
pub mod Payments
pub mod Rejections
pub mod Instances
mod Tests
mod MessageTests
mod PaymentTests
mod QueryTests
