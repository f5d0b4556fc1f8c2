-- ===== src/Relay.antt =====
-- lib/cashweb-relay.
pub mod Stamp
pub mod Message
pub mod Opening
pub mod Instances
mod Tests
