-- ===== src/RelayServer/Messages.antt =====
-- relayserver/src/net/messages.rs: `put_message`. The database is that of RelayServer/Database; protobuf, the
-- Bitcoin node and the subscribers of the message bus are parameters, and what is sent on the bus is a log.
pub mod Stored
use cashweb_backends.Common.{
  ℕ, ◌^◌, ◌%◌, List, [], ◌∷◌, ◌++◌, Bool, true, false, if◌then◌else◌, ltb, length, bytes_eq,
}
use cashweb_backends.Common.Exec.{
  Outcome, ok, err, panic, Exec, and_then, map_err, with_err, lift, pure, ◌>>=◌, ◌>>◌,
}
use cashweb_backends.Bitcoin.Secp.{Secp}
use cashweb_backends.Relay.Stamp.{Crypto, StampError, StampOutpoints}
use cashweb_backends.Relay.Message.{
  Message, ParsedMessage, ParseError, parse, into_message, parsed_verify_stamp,
}
use cashweb_backends.RelayServer.Rocks.{Rocks}
use cashweb_backends.RelayServer.Database.{push_message}

pub record Net : Type 1 where
  pub DecodeError : Type 0
  pub NodeError : Type 0
  pub decode_set : List ℕ → Outcome DecodeError (List Message)
  pub encode : Message → List ℕ
  pub send_tx : List ℕ → Outcome NodeError (Unit {0})
  pub subscribed : List ℕ → Bool
  pub truncation_length : ℕ

-- `PutMessageError`, without the two kinds that are never made.
pub data PutMessageError (RocksError DecodeError SecpError NodeError : Type 0) : Type 0 where
  db_error : RocksError → PutMessageError RocksError DecodeError SecpError NodeError
  messages_decode : DecodeError → PutMessageError RocksError DecodeError SecpError NodeError
  message_parsing :
      ParseError SecpError → PutMessageError RocksError DecodeError SecpError NodeError
  stamp_verify : StampError → PutMessageError RocksError DecodeError SecpError NodeError
  stamp_broadcast : NodeError → PutMessageError RocksError DecodeError SecpError NodeError

-- The database, and what was sent on the bus: an address and the bytes sent to it, latest first.
pub record Server (D : Type 0) : Type 0 where
  pub database : D
  pub sent : List (List ℕ × List ℕ)

module _ (crypto : Crypto) (net : Net) {D : Type 0} (rocks : Rocks D) where
  open crypto use {secp, sha256, ripemd160}
  open secp use {PublicKey, SecpError}
  open net use {DecodeError, NodeError, decode_set, encode, send_tx, subscribed, truncation_length}

  abbrev pub Error : Type 0
  Error = PutMessageError rocks.RocksError DecodeError SecpError NodeError

  abbrev pub pubkey_hash_of : List ℕ → List ℕ
  pubkey_hash_of key = ripemd160 (sha256 key)

  -- `try_join_all` of the broadcasts: the first error, if there is one.
  unfoldable pub broadcast : List StampOutpoints → Outcome NodeError (Unit {0})
  broadcast [] = ok tt
  broadcast (outpoint ∷ outpoints) = and_then (send_tx outpoint.stamp_tx) λ u. broadcast outpoints

  unfoldable pub check_stamp : Bool → ParsedMessage PublicKey → Outcome Error (Unit {0})
  check_stamp true parsed = ok tt
  check_stamp false parsed =
      and_then (map_err stamp_verify (parsed_verify_stamp crypto parsed)) λ txs. ok tt

  -- All that happens before the first write.
  unfoldable pub accept : Bool → Message → Outcome Error (ParsedMessage PublicKey)
  accept is_self_send message = and_then (map_err message_parsing (parse crypto message)) λ parsed.
      and_then (check_stamp is_self_send parsed) λ u.
        and_then (map_err stamp_broadcast (broadcast parsed.stamp.stamp_outpoints)) λ v. ok parsed

  -- A call on the database of the server.
  abbrev pub set_database :
      Outcome rocks.RocksError (Unit {0}) × D → Server D → Outcome Error (Unit {0}) × Server D
  set_database (r, d) s = (map_err db_error r, record s { database = d })

  unfoldable pub on_database : Exec D rocks.RocksError (Unit {0}) → Exec (Server D) Error (Unit {0})
  on_database m s = set_database (m s.database) s

  unfoldable pub truncated : ParsedMessage PublicKey → List ℕ → List ℕ
  truncated parsed raw_message =
      if ltb truncation_length (length parsed.payload)
      then encode (record (into_message crypto parsed) { payload = [] })
      else raw_message

  -- A failed send only warns.
  unfoldable pub send : List ℕ → List ℕ → Exec (Server D) Error (Unit {0})
  send address raw_message_ws s = (
    ok tt,
    if subscribed address then record s { sent = (address, raw_message_ws) ∷ s.sent } else s,
  )

  unfoldable pub notify : Bool → List ℕ → List ℕ → List ℕ → Exec (Server D) Error (Unit {0})
  notify true source destination raw_message_ws = send destination raw_message_ws
  notify false source destination raw_message_ws = do
    send source raw_message_ws
    send destination raw_message_ws

  -- Both writes.
  unfoldable pub store :
      List ℕ → List ℕ → ℕ → List ℕ → List ℕ → ℕ → Exec D rocks.RocksError (Unit {0})
  store source destination timestamp raw_message payload_digest namespace = do
    push_message rocks source timestamp raw_message payload_digest namespace
    push_message rocks destination timestamp raw_message payload_digest namespace

  abbrev pub received : ℕ → Message → Message
  received timestamp message = record message { received_time = timestamp }

  -- The body of the loop. The test of the URL's address has no effect.
  unfoldable pub put_one : ℕ → ℕ → Message → Exec (Server D) Error (Unit {0})
  put_one timestamp namespace given =
      let message = received timestamp given in
      let source = pubkey_hash_of message.source_public_key in
      let destination = pubkey_hash_of message.destination_public_key in
      let raw_message = encode message in
      let is_self_send = bytes_eq destination source in
      do
        parsed ← lift (accept is_self_send message)
        on_database (store source destination timestamp raw_message parsed.payload_digest namespace)
        notify is_self_send source destination (truncated parsed raw_message)

  unfoldable pub put_all : ℕ → ℕ → List Message → Exec (Server D) Error (Unit {0})
  put_all timestamp namespace [] = pure tt
  put_all timestamp namespace (message ∷ messages) = do
    put_one timestamp namespace message
    put_all timestamp namespace messages

  unfoldable pub put_message : ℕ → ℕ → List ℕ → Exec (Server D) Error (Unit {0})
  put_message timestamp namespace messages_raw = do
    messages ← lift (map_err messages_decode (decode_set messages_raw))
    put_all timestamp namespace messages
