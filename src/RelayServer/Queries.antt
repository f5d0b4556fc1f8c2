-- ===== src/RelayServer/Queries.antt =====
-- relayserver/src/net/messages.rs: the handlers that get and remove messages, and the statuses of errors.
-- Hexadecimal and protobuf are parameters.
pub mod Answers
pub mod Between
use cashweb_backends.Common.{ℕ, List, [], Option, none, some}
use cashweb_backends.Common.Exec.{
  Outcome, ok, err, Exec, and_then, map_err, ok_or, unwrap_ok, lift, pure, mapping_err, ◌>>=◌, ◌>>◌,
}
use cashweb_backends.BitcoinClient.{NodeError, node_status}
use cashweb_backends.Http.{Response, with_body}
use cashweb_backends.Relay.Message.{Message}
use cashweb_backends.Relay.Opening.{MessagePage, PayloadPage, into_payload_page}
use cashweb_backends.RelayServer.Rocks.{Rocks}
use cashweb_backends.RelayServer.Database.{
  msg_prefix, get_msg_key_by_digest, get_message_by_digest, remove_message_by_digest,
}
use cashweb_backends.RelayServer.Ranges.{get_messages_range, remove_messages_range}
use cashweb_backends.RelayServer.Messages.{
  PutMessageError, db_error, messages_decode, message_parsing, stamp_verify, stamp_broadcast,
}

-- Digests are given in hexadecimal.
pub record Query : Type 0 where
  pub start_digest : Option (List ℕ)
  pub end_digest : Option (List ℕ)
  pub start_time : Option ℕ
  pub end_time : Option ℕ
  pub digest : Option (List ℕ)

pub data GetMessageError (RocksError FromHexError : Type 0) : Type 0 where
  get_db : RocksError → GetMessageError RocksError FromHexError
  digest_decode start_digest_malformed end_digest_malformed :
      FromHexError → GetMessageError RocksError FromHexError
  destination_malformed not_found start_both_given start_digest_not_found missing_start :
      GetMessageError RocksError FromHexError
  end_both_given end_digest_not_found : GetMessageError RocksError FromHexError

unfoldable pub get_status : {R H : Type 0} → GetMessageError R H → ℕ
get_status (get_db e) = 500
get_status not_found = 404
get_status (digest_decode e) = 400
get_status (start_digest_malformed e) = 400
get_status (end_digest_malformed e) = 400
get_status destination_malformed = 400
get_status start_both_given = 400
get_status start_digest_not_found = 400
get_status missing_start = 400
get_status end_both_given = 400
get_status end_digest_not_found = 400

unfoldable pub put_status :
    {Rocks D S R J H : Type 0} → PutMessageError Rocks D S (NodeError R J H) → ℕ
put_status (db_error e) = 500
put_status (stamp_verify e) = 400
put_status (stamp_broadcast e) = node_status e
put_status (messages_decode e) = 400
put_status (message_parsing e) = 400

pub record Codec : Type 1 where
  pub FromHexError : Type 0
  pub DecodeError : Type 0
  pub hex_decode : List ℕ → Outcome FromHexError (List ℕ)
  pub decode : List ℕ → Outcome DecodeError Message
  pub encode_page : MessagePage → List ℕ
  pub encode_payloads : PayloadPage → List ℕ

module _ (codec : Codec) (sha256 : List ℕ → List ℕ) {D : Type 0} (rocks : Rocks D) where
  open codec use {FromHexError, hex_decode, decode, encode_page, encode_payloads}
  open rocks use {RocksError}

  abbrev pub Error : Type 0
  Error = GetMessageError RocksError FromHexError

  -- The key of the message with a digest that the query gives in hexadecimal.
  abbrev pub key_of_digest :
      (FromHexError → Error) → Error → List ℕ → List ℕ → ℕ → D → Outcome Error (List ℕ)
  key_of_digest malformed missing addr digest_hex namespace d =
      and_then (map_err malformed (hex_decode digest_hex)) λ digest.
        and_then (map_err get_db (get_msg_key_by_digest rocks addr digest namespace d))
          λ key. ok_or key missing

  unfoldable pub start_prefix : List ℕ → Option ℕ → Option (List ℕ) → ℕ → D → Outcome Error (List ℕ)
  start_prefix addr (some time) none namespace d = ok (msg_prefix addr time namespace)
  start_prefix addr none (some digest) namespace d =
      key_of_digest start_digest_malformed start_digest_not_found addr digest namespace d
  start_prefix addr (some time) (some digest) namespace d = err start_both_given
  start_prefix addr none none namespace d = err missing_start

  unfoldable pub end_prefix :
      List ℕ → Option ℕ → Option (List ℕ) → ℕ → D → Outcome Error (Option (List ℕ))
  end_prefix addr (some time) none namespace d = ok (some (msg_prefix addr time namespace))
  end_prefix addr none (some digest) namespace d =
      and_then (key_of_digest end_digest_malformed end_digest_not_found addr digest namespace d)
        λ key. ok (some key)
  end_prefix addr (some time) (some digest) namespace d = err end_both_given
  end_prefix addr none none namespace d = ok none

  unfoldable pub construct_prefixes :
      List ℕ → Query → ℕ → D → Outcome Error (List ℕ × Option (List ℕ))
  construct_prefixes addr query namespace d =
      and_then (start_prefix addr query.start_time query.start_digest namespace d) λ start.
        and_then (end_prefix addr query.end_time query.end_digest namespace d)
          λ end. ok (start, end)

  -- The message that the digest of a query leads to.
  unfoldable pub get_single : List ℕ → List ℕ → ℕ → D → Outcome Error (List ℕ)
  get_single addr digest namespace d =
      and_then (map_err digest_decode (hex_decode digest)) λ raw_digest.
        and_then (map_err get_db (get_message_by_digest rocks addr raw_digest namespace d))
          λ found. ok_or found not_found

  unfoldable pub get_page : List ℕ → Query → ℕ → D → Outcome Error MessagePage
  get_page addr query namespace d =
      and_then (construct_prefixes addr query namespace d)
        λ prefixes. map_err get_db (get_messages_range decode sha256 rocks prefixes.0 prefixes.1 d)

  abbrev pub payloads_for : List ℕ → Query → ℕ → D → Option (List ℕ) → Outcome Error Response
  payloads_for addr query namespace d (some digest) =
      and_then (get_single addr digest namespace d) λ raw_message.
        and_then (unwrap_ok (decode raw_message)) λ message. ok (with_body 200 message.payload)
  payloads_for addr query namespace d none =
      and_then (get_page addr query namespace d)
        λ page. ok (with_body 200 (encode_payloads (into_payload_page page)))

  unfoldable pub get_payloads : List ℕ → Query → ℕ → D → Outcome Error Response
  get_payloads addr query namespace d = payloads_for addr query namespace d query.digest

  abbrev pub messages_for : List ℕ → Query → ℕ → D → Option (List ℕ) → Outcome Error Response
  messages_for addr query namespace d (some digest) =
      and_then (get_single addr digest namespace d) λ message. ok (with_body 200 message)
  messages_for addr query namespace d none =
      and_then (get_page addr query namespace d) λ page. ok (with_body 200 (encode_page page))

  unfoldable pub get_messages : List ℕ → Query → ℕ → D → Outcome Error Response
  get_messages addr query namespace d = messages_for addr query namespace d query.digest

  unfoldable pub remove_single : List ℕ → List ℕ → ℕ → Exec D Error Response
  remove_single addr digest namespace = do
    raw_digest ← lift (map_err digest_decode (hex_decode digest))
    removed ← mapping_err get_db (remove_message_by_digest rocks addr raw_digest namespace)
    lift (ok_or removed not_found)
    pure (with_body 200 [])

  unfoldable pub remove_page : List ℕ → Query → ℕ → Exec D Error Response
  remove_page addr query namespace = do
    prefixes ← λ d. (construct_prefixes addr query namespace d, d)
    mapping_err get_db (remove_messages_range decode sha256 rocks prefixes.0 prefixes.1)
    pure (with_body 200 [])

  abbrev pub remove_for : List ℕ → Query → ℕ → Option (List ℕ) → Exec D Error Response
  remove_for addr query namespace (some digest) = remove_single addr digest namespace
  remove_for addr query namespace none = remove_page addr query namespace

  unfoldable pub remove_messages : List ℕ → Query → ℕ → Exec D Error Response
  remove_messages addr query namespace = remove_for addr query namespace query.digest
