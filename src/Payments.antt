-- ===== src/Payments.antt =====
-- lib/cashweb-payments.
pub mod Bip70
pub mod Preprocess
pub mod Wallet
mod Tests
