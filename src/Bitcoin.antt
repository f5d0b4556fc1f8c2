-- ===== src/Bitcoin.antt =====
-- lib/cashweb-bitcoin.
pub mod Buf
pub mod Encodable
pub mod Network
pub mod VarInt
pub mod Transaction
pub mod Merkle
pub mod Secp
pub mod Bip32
pub mod Tests
pub mod Instances
mod HashTests
