-- ===== src/KeyserverClient.antt =====
-- lib/cashweb-keyserver-client.
pub mod Services
pub mod Manager
pub mod Client
pub mod Instances
mod Tests
