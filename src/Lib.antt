-- ===== src/Lib.antt =====
-- cashweb-backends: the libraries of the Cashweb protocols and the servers built on them. A client pays for
-- what it stores: messages carry a stamp, an output that only their destination can spend, and tokens show
-- that a payment or a commitment was made. The parts, and the files that model them:
--
-- - lib/cashweb-bitcoin: Bitcoin. `bytes::Buf` and `BufMut` are the interfaces Buf and BufMut of
--   Bitcoin/Buf, with what their documentation promises; Bitcoin/Buf/Slice fills both. src/lib.rs is
--   Bitcoin/Encodable and Bitcoin/Network, src/var_int.rs is Bitcoin/VarInt, src/transaction is
--   Bitcoin/Transaction with a module per structure. Each structure has a function `encoding`, its bytes in closed form, that the
--   coders are compared with. transaction/mod.rs also holds the hashes, in Bitcoin/Transaction/SignatureHash.
--   src/merkle.rs is Bitcoin/Merkle, and src/bip32.rs is Bitcoin/Bip32 over the interface of Bitcoin/Secp.
-- - lib/cashweb-relay: Relay. src/stamp.rs is Relay/Stamp; `verify_stamp` is split into the bodies of its
--   loops. src/lib.rs is Relay/Message (digest, parse, authenticate) and Relay/Opening (open,
--   open_in_place, both ways to encrypt, pages). `open` is `open_message` there.
-- - lib/cashweb-auth-wrapper: AuthWrapper. lib/cashweb-token: Token, with a module per scheme.
-- - lib/cashweb-payments: Payments. The wallet's concurrent map is an association list; the future that
--   `add_outputs` returns is the step `expire`, so that an interleaving is a sequence of steps.
-- - relayserver/src/db.rs: RelayServer/Database (keys and the index by digest) and RelayServer/Ranges,
--   over the interface of RocksDB in RelayServer/Rocks, whose calls may fail. `put_message` of
--   relayserver/src/net/messages.rs is RelayServer/Messages; what goes out on the message bus is a log.
--   The handlers that get and remove messages are RelayServer/Queries, and net/profiles.rs is Profiles.
--   net/payments.rs and net/protection.rs are RelayServer/Payments: the wallet is the state, and each handler
--   returns the wallet that it leaves. net/mod.rs, the responses to rejections, is Rejections.
-- - keyserver/src: KeyServer. peering/token_cache.rs is TokenCache; a run is a list of events on the queue.
--   db.rs is Database, net/metadata and the check of tokens in net/protection.rs are Metadata, net/payments.rs
--   is Payments, pubsub is PubSub (pubsub/db.rs) with PubSub/Handlers, and net/mod.rs is Rejections.
--   peering/mod.rs, net/peers.rs and what a broadcast does with a block are Peering; a broadcast is the list
--   of the calls that it makes of the manager.
-- - lib/cashweb-bitcoin-client: BitcoinClient, whose record of that name is what the servers call.
--   lib/cashweb-keyserver-client: KeyserverClient, with Services (client/services.rs) and Manager
--   (manager.rs). The services read one answer of a server, which is a parameter; a sample over many servers
--   takes the answers in the order of the URIs. client/mod.rs is Client. lib/cashweb-relay-client: RelayClient.
-- - Http: responses as the servers build them. Payments/Bip70: the records of BIP 70 that both servers use.
--
-- How code is written here: bytes are natural numbers, and a type of w bits keeps its wrap-around where the
-- code casts or adds. A call that can fail is an `Outcome` (`ok`, `err`, `panic`), so an index out of range
-- and an `unwrap` are values, and a call that changes a buffer or a database is an `Exec`, which returns the
-- state beside the outcome. An `i32` or `i64` of protobuf is its bit pattern. Strings are their UTF-8 bytes.
--
-- Parameters: SHA-256, RIPEMD-160, HMAC and AES (`ring`, `ripemd160`, `aes`), the curve (`secp256k1`),
-- protobuf (`prost`), Base64, HTTP headers, RocksDB and the Bitcoin node. What a theorem needs of them is a
-- record of laws (IsSecp, IsCipher, IsRocks, …), and the Instances and Tests modules fill each record with a
-- concrete instance.
--
-- Fuel: `lotus_merkle_root_inline` runs on fuel, the length of the list of hashes. A call halves a list
-- of two or more, rounding up, so it is never used up. The crawl of peers runs on fuel too, and two tests of
-- its condition are always enough. All other loops run over a list or count down.
--
-- Not modelled: the HTTP routes of both servers, web sockets, settings and metrics; generated protobuf code,
-- whose records are written out.
pub mod AuthWrapper
pub mod Bitcoin
pub mod BitcoinClient
pub mod Common
pub mod Http
pub mod KeyServer
pub mod KeyserverClient
pub mod Payments
pub mod Relay
pub mod RelayClient
pub mod RelayServer
pub mod Token
