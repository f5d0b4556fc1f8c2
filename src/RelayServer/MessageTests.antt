-- ===== src/RelayServer/MessageTests.antt =====
-- The theorem on `put_message` at a concrete message, sent by an address to itself.
use cashweb_backends.Common.{
  ℕ, ◌≡◌, ◌≢◌, ◌⊎◌, refl, List, [], ◌∷◌, ◌++◌, some, true, replicate, to_be_bytes, bytes_eq, arith,
}
use cashweb_backends.Common.Exec.{ok, ◌>>=◌}
use cashweb_backends.Bitcoin.Transaction.{Transaction}
use cashweb_backends.Relay.Message.{
  Message, ParsedMessage, parse, parsed_verify_stamp, scheme_from_i32, digest,
}
use cashweb_backends.Relay.Instances.{small_crypto}
use cashweb_backends.RelayServer.Database.{get_message_by_digest, push_message, msg_key}
use cashweb_backends.RelayServer.Database.Digests.{UnlessError}
use cashweb_backends.RelayServer.Messages.{
  Net, Server, broadcast, check_stamp, accept, on_database, truncated, send, notify, store,
  received, put_one,
}
use cashweb_backends.RelayServer.Messages.Stored.{put_one_lem}
use cashweb_backends.RelayServer.Instances.{Memory, memory, memory_laws}

abbrev net : Net
net = record {
  DecodeError = Unit {0};
  NodeError = Unit {0};
  decode_set = λ raw. ok [];
  encode = λ (m : Message). m.received_time ∷ m.payload;
  send_tx = λ raw. ok tt;
  subscribed = λ address. true;
  truncation_length = 10;
}

abbrev note_to_self : Message
note_to_self = record {
  source_public_key = replicate 32 4;
  destination_public_key = replicate 32 4;
  received_time = 0;
  payload_digest = replicate 32 2;
  stamp = some (record { stamp_type = 0; stamp_outpoints = [] });
  scheme = 1;
  salt = [];
  payload_hmac = replicate 32 9;
  payload_size = 2;
  payload = 5 ∷ 6 ∷ [];
}

abbrev address : List ℕ
address = replicate 20 32

abbrev empty : Server Memory
empty = record { database = []; sent = [] }

abbrev after : Server Memory
after = record {
  database =
      (address ++ (100 ∷ replicate 32 2), to_be_bytes 8 100)
      ∷ (address ++ (109 ∷ (to_be_bytes 8 100 ++ (2 ∷ 2 ∷ 2 ∷ 2 ∷ []))), 100 ∷ 5 ∷ 6 ∷ [])
      ∷ [];
  sent = (address, 100 ∷ 5 ∷ 6 ∷ []) ∷ [];
}

put_note : put_one small_crypto net memory 100 109 note_to_self empty ≡ (ok tt, after)
unfolding put_one accept parse scheme_from_i32 digest check_stamp broadcast on_database store
    push_message msg_key notify send truncated ◌>>=◌
put_note = refl

abbrev namespace_apart : ◌≢◌ {A = ℕ} 109 100
namespace_apart = λ e. omega (arith, e)

put_one_lem_example :
    (parsed : ParsedMessage (List ℕ)) × (parse small_crypto
        (received small_crypto net memory 100 note_to_self)
      ≡ ok parsed)
    × ((bytes_eq address address ≡ true)
        ⊎ ((txs : List Transaction) × (parsed_verify_stamp small_crypto parsed ≡ ok txs)))
    × (broadcast small_crypto net memory parsed.stamp.stamp_outpoints ≡ ok tt)
    × UnlessError
        (get_message_by_digest memory address parsed.payload_digest 109 after.database)
        (some (100 ∷ 5 ∷ 6 ∷ []))
put_one_lem_example =
    put_one_lem small_crypto net memory memory_laws 100 109 note_to_self empty after namespace_apart
      put_note
