-- ===== src/KeyServer.antt =====
-- keyserver.
pub mod TokenCache
pub mod Database
pub mod Metadata
pub mod PubSub
pub mod Payments
pub mod Rejections
pub mod Peering
pub mod Instances
mod MetadataTests
mod PeeringTests
mod PubSubTests
mod PaymentTests
