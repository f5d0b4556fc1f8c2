-- ===== src/RelayServer/QueryTests.antt =====
-- The theorems on requests for messages at concrete requests.
use cashweb_backends.Common.{
  ℕ, ◌≡◌, ◌≢◌, ◌⊎◌, refl, List, [], ◌∷◌, ◌++◌, some, none, true, replicate, take, to_be_bytes,
  arith, Bool, false, Option, inl, inr, sym, ap, ap₂, ◌∙◌, ◌≤◌, ◌↔◌, if◌then◌else◌, length, ltb,
  bytes_eq, bytes_eq→eq, Bool-cases,
}
use cashweb_backends.Common.Exec.{ok, err, ◌>>=◌, mapping_err}
use cashweb_backends.Http.{with_body}
use cashweb_backends.Bitcoin.Instances.{sum_digest}
use cashweb_backends.Relay.Message as Relay
use cashweb_backends.Relay.Message.{Message, ParsedMessage, ephemeral_dh}
use cashweb_backends.Relay.Opening.{MessagePage, PayloadPage}
use cashweb_backends.Relay.Instances.{small_crypto}
use cashweb_backends.RelayServer.Database.{
  digest_key, key_of, key_at, get_msg_key_by_digest, remove_message_by_digest, delete_at,
  push_message, msg_key, msg_prefix,
}
use cashweb_backends.RelayServer.Database.Digests.{UnlessFails}
use cashweb_backends.RelayServer.Messages.{
  Net, Server, broadcast, check_stamp, accept, on_database, truncated, send, notify, store, put_one,
}
use cashweb_backends.RelayServer.Queries.{
  Query, Codec, get_db, not_found, get_payloads, get_messages, get_page, construct_prefixes,
  start_prefix, end_prefix, remove_single, remove_messages,
}
use cashweb_backends.RelayServer.Queries.Answers.{
  get_messages-put_one, get_messages-remove_messages,
}
use mathlib.Core.List.{Memᴰ}
use mathlib.Core.List.Memᴰ.{head, tail}
use cashweb_backends.RelayServer.Ranges.{
  get_messages_range, entries_in_range, take_while, in_range, in_namespace, before_end_key,
  decode_all, page_of, set_start,
}
use cashweb_backends.RelayServer.Ranges.Times.{namespace_of}
use cashweb_backends.RelayServer.Ranges.Complete.{Entry, IsIteration}
use cashweb_backends.RelayServer.Queries.Between.{get_messages-between}
use cashweb_backends.RelayServer.Instances.{Memory, memory, memory_laws}

abbrev net : Net
net = record {
  DecodeError = Unit {0};
  NodeError = Unit {0};
  decode_set = λ raw. ok [];
  encode = λ (m : Message). m.received_time ∷ m.payload;
  send_tx = λ raw. ok tt;
  subscribed = λ address. true;
  truncation_length = 10;
}

abbrev note : Message
note = record {
  source_public_key = replicate 32 4;
  destination_public_key = replicate 32 4;
  received_time = 100;
  payload_digest = replicate 32 2;
  stamp = some (record { stamp_type = 0; stamp_outpoints = [] });
  scheme = 1;
  salt = [];
  payload_hmac = replicate 32 9;
  payload_size = 2;
  payload = 5 ∷ 6 ∷ [];
}

abbrev codec : Codec
codec = record {
  FromHexError = Unit {0};
  DecodeError = Unit {0};
  hex_decode = λ text. ok text;
  decode = λ raw. ok note;
  encode_page = λ (page : MessagePage). [];
  encode_payloads = λ (page : PayloadPage). [];
}

abbrev digest : List ℕ
digest = replicate 32 2

-- A start is given too, and not read.
abbrev query : Query
query = record {
  start_digest = none;
  end_digest = none;
  start_time = some 7;
  end_time = none;
  digest = some digest;
}

abbrev address : List ℕ
address = replicate 20 32

abbrev namespace_apart : ◌≢◌ {A = ℕ} 109 100
namespace_apart = λ e. omega (arith, e)

abbrev parsed : ParsedMessage (List ℕ)
parsed = record {
  source_public_key = replicate 32 4;
  destination_public_key = replicate 32 4;
  received_time = 100;
  payload_digest = digest;
  stamp = record { stamp_type = 0; stamp_outpoints = [] };
  scheme = ephemeral_dh;
  salt = [];
  payload_hmac = replicate 32 9;
  payload_size = 2;
  payload = 5 ∷ 6 ∷ [];
}

abbrev full : Memory
full =
    (address ++ (100 ∷ digest), to_be_bytes 8 100)
    ∷ (address ++ (109 ∷ (to_be_bytes 8 100 ++ (2 ∷ 2 ∷ 2 ∷ 2 ∷ []))), 100 ∷ 5 ∷ 6 ∷ [])
    ∷ []

abbrev after : Server Memory
after = record { database = full; sent = (address, 100 ∷ 5 ∷ 6 ∷ []) ∷ [] }

get_messages-put_one_example :
    UnlessFails get_db
      (get_messages codec sum_digest memory address query 109 full)
      (with_body 200 (100 ∷ 5 ∷ 6 ∷ []))
    × UnlessFails get_db
        (get_payloads codec sum_digest memory address query 109 full)
        (with_body 200 (5 ∷ 6 ∷ []))
unfolding put_one accept Relay.parse Relay.scheme_from_i32 Relay.digest check_stamp broadcast
    on_database store push_message msg_key notify send truncated ◌>>=◌
get_messages-put_one_example =
    get_messages-put_one codec sum_digest memory memory_laws small_crypto net 100 109 note parsed
      query digest (record { database = []; sent = [] }) after namespace_apart refl refl refl refl
      refl

get_messages-remove_messages_example :
    let left : Memory = (address ++ (100 ∷ digest), to_be_bytes 8 100) ∷ [] in
    (with_body 200 [] ≡ with_body 200 [])
    × ((get_messages codec sum_digest memory address query 109 left ≡ err not_found)
        ⊎ ((e : Unit {0}) × (get_messages codec sum_digest memory address query 109 left
              ≡ err (get_db e))))
    × (timestamp : List ℕ) × (memory_laws.contents left (digest_key address digest)
        ≡ some timestamp)
    × ((key : List ℕ)
        → key ≢ key_of address 109 timestamp (take 4 digest)
        → memory_laws.contents left key ≡ memory_laws.contents full key)
unfolding remove_messages remove_single remove_message_by_digest get_msg_key_by_digest key_at
    delete_at mapping_err ◌>>=◌
get_messages-remove_messages_example =
    get_messages-remove_messages codec sum_digest memory memory_laws address digest digest query 109
      full ((address ++ (100 ∷ digest), to_be_bytes 8 100) ∷ []) (with_body 200 []) namespace_apart
      refl refl refl

abbrev key : List ℕ
key = key_of address 109 (to_be_bytes 8 100) (2 ∷ 2 ∷ 2 ∷ 2 ∷ [])

abbrev one : Memory
one = (key, 100 ∷ 5 ∷ 6 ∷ []) ∷ []

-- The only key that has something is that of the message.
only :
    (other stored : List ℕ)
    → memory_laws.contents one other ≡ some stored
    → (other ≡ key) × (stored ≡ 100 ∷ 5 ∷ 6 ∷ [])
only other stored c =
    let chosen : Bool → Option (List ℕ) = λ b. if b then some (100 ∷ 5 ∷ 6 ∷ []) else none in
    elim (Bool-cases (bytes_eq other key)) [
      | inl same ↦
          let found : some (100 ∷ 5 ∷ 6 ∷ []) ≡ some stored = sym (ap chosen same) ∙ c in
          (bytes_eq→eq other key same, cc found)
      | inr differ ↦ let missing : none ≡ some stored = sym (ap chosen differ) ∙ c in cc missing
    ]

iteration : IsIteration memory memory_laws (msg_prefix address 50 109) one
unfolding msg_prefix
iteration = record {
  sorted = (tt, tt);
  entries_lem = λ other stored. (
    λ m. elim m [
      | head e ↦
          let o : other ≡ key = ap (λ (z : Entry). z.0) e in
          let v : stored ≡ 100 ∷ 5 ∷ 6 ∷ [] = ap (λ (z : Entry). z.1) e in rw (o, v) (refl, refl)
      | tail later ↦ elim later [ ]
    ],
    λ (c, b). let (o, v) = only other stored c in head (ap₂ (λ x y. (x, y)) o v),
  );
}

roomy : (other stored : List ℕ) → memory_laws.contents one other ≡ some stored → 21 ≤ length other
roomy other stored c =
    let (o, v) = only other stored c in
    let len : length other ≡ 33 = ap length o in omega (arith, len)

get_messages-between_example :
    (page : MessagePage) × (entries : List Entry) × (with_body 200 []
      ≡ with_body 200 (codec.encode_page page))
    × (decode_all codec.decode sum_digest {E = Unit {0}} entries ≡ ok page.messages)
    × (Memᴰ (key, 100 ∷ 5 ∷ 6 ∷ []) entries ↔ (
        (memory_laws.contents one key ≡ some (100 ∷ 5 ∷ 6 ∷ []))
        × (ltb 100 50 ≡ false)
        × (ltb 100 200 ≡ true)))
    × ((other stored : List ℕ)
        → Memᴰ (other, stored) entries
        → (memory_laws.contents one other ≡ some stored)
          × (take 21 other ≡ namespace_of address 109))
unfolding get_messages get_page construct_prefixes start_prefix end_prefix msg_prefix
    get_messages_range entries_in_range take_while in_range in_namespace before_end_key decode_all
    page_of set_start Relay.digest
get_messages-between_example =
    get_messages-between codec sum_digest memory memory_laws address (2 ∷ 2 ∷ 2 ∷ 2 ∷ [])
      (100 ∷ 5 ∷ 6 ∷ []) 109 50 200 100 one (with_body 200 []) refl (omega arith) (omega arith)
      (omega arith) iteration roomy refl
