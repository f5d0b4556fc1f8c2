-- ===== src/KeyServer/PubSub.antt =====
-- keyserver/src/pubsub/db.rs. Each column family is a RocksDB; protobuf, SHA-256, and the classes and the
-- encoding of characters are parameters. A topic is the list of its characters.
pub mod Handlers
pub mod Burns
pub mod Counted
pub mod Stored
use cashweb_backends.Common.{
  ℕ, zero, suc, ◌+◌, List, [], ◌∷◌, ◌++◌, Option, none, some, Bool, true, false, not, ◌&&◌, ◌||◌,
  if◌then◌else◌, length, take, ltb, ◌==◌, to_be_bytes, ◌^◌, ◌-◌,
}
use cashweb_backends.Common.Exec.{
  Outcome, ok, err, panic, Exec, and_then, map_err, with_err, lift, pure, raise, ◌>>=◌, ◌>>◌,
}
use cashweb_backends.AuthWrapper.{AuthWrapper}
use cashweb_backends.RelayServer.Rocks.{Rocks}
use cashweb_backends.RelayServer.Ranges.{bytes_lt}

pub record Text : Type 1 where
  pub DecodeError : Type 0
  pub encode : AuthWrapper → List ℕ
  pub decode : List ℕ → Outcome DecodeError AuthWrapper
  pub sha256 : List ℕ → List ℕ
  pub is_lowercase : ℕ → Bool
  pub is_numeric : ℕ → Bool
  pub as_bytes : List ℕ → List ℕ

pub data PubSubDatabaseError (RocksError DecodeError : Type 0) : Type 0 where
  rocks_db : RocksError → PubSubDatabaseError RocksError DecodeError
  prost_decode : DecodeError → PubSubDatabaseError RocksError DecodeError
  missing_value : List ℕ → PubSubDatabaseError RocksError DecodeError
  topic_too_long : ℕ → PubSubDatabaseError RocksError DecodeError
  topic_invalid_characters topic_invalid_segments : PubSubDatabaseError RocksError DecodeError

-- The two column families.
pub record Families (D : Type 0) : Type 0 where
  pub messages : D
  pub payloads : D

abbrev pub cons_first : ℕ → List (List ℕ) → List (List ℕ)
cons_first c [] = (c ∷ []) ∷ []
cons_first c (part ∷ parts) = (c ∷ part) ∷ parts

-- `topic.split('.')`
unfoldable pub split_topic : List ℕ → List (List ℕ)
split_topic [] = [] ∷ []
split_topic (c ∷ topic) =
    let parts = split_topic topic in if c == 46 then [] ∷ parts else cons_first c parts

-- `join(".")`
unfoldable pub join_topic : List (List ℕ) → List ℕ
join_topic [] = []
join_topic (part ∷ []) = part
join_topic (part ∷ next ∷ parts) = part ++ (46 ∷ join_topic (next ∷ parts))

abbrev pub is_empty_segment : List ℕ → Bool
is_empty_segment [] = true
is_empty_segment (c ∷ segment) = false

abbrev pub any_empty : List (List ℕ) → Bool
any_empty [] = false
any_empty (part ∷ parts) = is_empty_segment part || any_empty parts

-- `<=` on byte slices.
abbrev pub bytes_le : List ℕ → List ℕ → Bool
bytes_le xs ys = not (bytes_lt ys xs)

unfoldable pub take_while_le : List ℕ → List (List ℕ × List ℕ) → List (List ℕ × List ℕ)
take_while_le end_prefix [] = []
take_while_le end_prefix (entry ∷ entries) =
    let rest = take_while_le end_prefix entries in
    if bytes_le entry.0 end_prefix then entry ∷ rest else []

module _ (text : Text) where
  open text use {sha256, is_lowercase, is_numeric, as_bytes}

  abbrev pub valid_char : ℕ → Bool
  valid_char c = is_lowercase c || is_numeric c || c == 46 || c == 45

  unfoldable pub valid_topic : List ℕ → Bool
  valid_topic [] = true
  valid_topic (c ∷ topic) = valid_char c && valid_topic topic

  unfoldable pub topical_key : List (List ℕ) → ℕ → List ℕ → List ℕ
  topical_key base_topic_parts timestamp payload_digest =
      sha256 (as_bytes (join_topic base_topic_parts)) ++ (to_be_bytes 8 timestamp ++ payload_digest)

  module _ {D : Type 0} (rocks : Rocks D) where
    open rocks use {RocksError, get, put, iterator}
    open text use {DecodeError, encode, decode}

    abbrev pub DbError : Type 0
    DbError = PubSubDatabaseError RocksError DecodeError

    abbrev pub set_payloads :
        Outcome RocksError (Unit {0}) × D → Families D → Outcome DbError (Unit {0}) × Families D
    set_payloads (r, d) s = (map_err rocks_db r, record s { payloads = d })

    abbrev pub set_messages :
        Outcome RocksError (Unit {0}) × D → Families D → Outcome DbError (Unit {0}) × Families D
    set_messages (r, d) s = (map_err rocks_db r, record s { messages = d })

    unfoldable pub put_payload : List ℕ → List ℕ → Exec (Families D) DbError (Unit {0})
    put_payload key value s = set_payloads (put key value s.payloads) s

    unfoldable pub put_index : List ℕ → List ℕ → Exec (Families D) DbError (Unit {0})
    put_index key value s = set_messages (put key value s.messages) s

    -- `for idx in first..first + count`
    unfoldable pub put_indices :
        List (List ℕ) → ℕ → List ℕ → ℕ → ℕ → Exec (Families D) DbError (Unit {0})
    put_indices parts timestamp payload_digest idx zero = pure tt
    put_indices parts timestamp payload_digest idx (suc count) = do
      put_index (topical_key (take idx parts) timestamp payload_digest) payload_digest
      put_indices parts timestamp payload_digest (idx + 1) count

    unfoldable pub check_topic : List (List ℕ) → Outcome DbError (Unit {0})
    check_topic parts =
        if ltb 10 (length parts)
        then err (topic_too_long (length parts))
        else if any_empty parts
        then err topic_invalid_segments
        else ok tt

    unfoldable pub put_message : ℕ → List ℕ → AuthWrapper → Exec (Families D) DbError (Unit {0})
    put_message timestamp topic message = do
      lift (check_topic (split_topic topic))
      put_payload message.payload_digest (encode message)
      put_indices (split_topic topic) timestamp message.payload_digest 0
          (length (split_topic topic) + 1)

    unfoldable pub update_message : AuthWrapper → Exec (Families D) DbError (Unit {0})
    update_message message = put_payload message.payload_digest (encode message)

    abbrev pub decode_found : List ℕ → Option (List ℕ) → Outcome DbError AuthWrapper
    decode_found payload_digest none = err (missing_value payload_digest)
    decode_found payload_digest (some wrapper_bytes) = map_err prost_decode (decode wrapper_bytes)

    unfoldable pub get_message : List ℕ → Families D → Outcome DbError AuthWrapper
    get_message payload_digest s =
        and_then (map_err rocks_db (get payload_digest s.payloads))
          λ found. decode_found payload_digest found

    -- `.map(…).collect()`
    unfoldable pub get_all :
        List (List ℕ × List ℕ) → Families D → Outcome DbError (List AuthWrapper)
    get_all [] s = ok []
    get_all (entry ∷ entries) s =
        and_then (get_message entry.1 s)
          λ message. and_then (get_all entries s) λ messages. ok (message ∷ messages)

    -- The times are `i64` values, kept as their bit patterns.
    unfoldable pub get_messages_to :
        List ℕ → ℕ → ℕ → Families D → Outcome DbError (List AuthWrapper)
    get_messages_to topic from to s =
        if not (valid_topic topic)
        then err topic_invalid_characters
        else (let topic_digest = sha256 (as_bytes topic) in
            get_all
              (take_while_le (topic_digest ++ to_be_bytes 8 to)
                (iterator (topic_digest ++ to_be_bytes 8 from) s.messages))
              s)

    -- `i64::MAX`
    unfoldable pub get_messages : List ℕ → ℕ → Families D → Outcome DbError (List AuthWrapper)
    get_messages topic from s = get_messages_to topic from (2 ^ 63 - 1) s
