-- ===== src/RelayServer/Tests.antt =====
-- The theorems on the database at concrete inputs, and runs of the ranges of the test `get_time_range`.
use cashweb_backends.Common.{
  ℕ, ◌≡◌, ◌≢◌, refl, List, [], ◌∷◌, ◌++◌, none, some, replicate, take, to_be_bytes, All, arith,
}
use cashweb_backends.Common.Exec.{Outcome, ok, err, ◌>>=◌}
use cashweb_backends.Bitcoin.Instances.{sum_digest}
use cashweb_backends.Relay.Message as Relay
use cashweb_backends.Relay.Message.{Message}
use cashweb_backends.Relay.Opening.{MessagePage}
use cashweb_backends.RelayServer.Database.{
  digest_key, key_of, msg_key, push_message, get_message_by_digest,
}
use cashweb_backends.RelayServer.Database.Digests.{UnlessError, push_message-get}
use cashweb_backends.RelayServer.Ranges.{
  last, decode_all, set_start, page_of, take_while, in_range, in_namespace, before_end_key,
  entries_in_range, get_messages_range, remove_messages_range, delete_all,
}
use cashweb_backends.RelayServer.Ranges.Bounds.{get_messages_range_lem, remove_messages_range_lem}
use cashweb_backends.RelayServer.Instances.{Memory, memory, memory_laws}

abbrev pubkey_hash : List ℕ
pubkey_hash = replicate 20 7

abbrev digest : List ℕ
digest = replicate 32 9

abbrev first_key : List ℕ
first_key = pubkey_hash ++ (109 ∷ (to_be_bytes 8 100 ++ (9 ∷ 9 ∷ 9 ∷ 9 ∷ [])))

abbrev second_key : List ℕ
second_key = pubkey_hash ++ (109 ∷ (to_be_bytes 8 105 ++ (8 ∷ 8 ∷ 8 ∷ 8 ∷ [])))

abbrev one_message : Memory
one_message = (pubkey_hash ++ (100 ∷ digest), to_be_bytes 8 100) ∷ (first_key, 5 ∷ []) ∷ []

abbrev message_apart : ◌≢◌ {A = ℕ} 109 100
message_apart = λ e. omega (arith, e)

push_message-get_example :
    UnlessError (get_message_by_digest memory pubkey_hash digest 109 one_message) (some (5 ∷ []))
    × ((key : List ℕ)
        → key ≢ digest_key pubkey_hash digest
        → key ≢ key_of pubkey_hash 109 (to_be_bytes 8 100) (take 4 digest)
        → memory_laws.contents one_message key ≡ memory_laws.contents [] key)
unfolding push_message ◌>>=◌ msg_key
push_message-get_example =
    push_message-get memory memory_laws pubkey_hash (5 ∷ []) digest 100 109 [] one_message
      message_apart refl

-- A stored entry decodes to a message with it as its payload, received at the time in its first byte.
abbrev message_of : List ℕ → ℕ → Message
message_of payload time = record {
  source_public_key = [];
  destination_public_key = [];
  received_time = time;
  payload_digest = [];
  stamp = none;
  scheme = 0;
  salt = [];
  payload_hmac = [];
  payload_size = 0;
  payload = payload;
}

abbrev decode : List ℕ → Outcome (Unit {0}) Message
decode [] = err tt
decode (x ∷ xs) = ok (message_of (x ∷ xs) x)

abbrev two_messages : Memory
two_messages = (second_key, 105 ∷ 1 ∷ []) ∷ (first_key, 100 ∷ []) ∷ []

abbrev start : List ℕ
start = pubkey_hash ++ (109 ∷ to_be_bytes 8 100)

abbrev page : MessagePage
page = record {
  messages = message_of (100 ∷ []) 100 ∷ message_of (105 ∷ 1 ∷ []) 105 ∷ [];
  start_time = 105;
  end_time = 0;
  start_digest = replicate 32 2;
  end_digest = [];
}

get_messages_range_lem_example :
    (entries : List (List ℕ × List ℕ)) × (entries_in_range decode sum_digest memory start none
        two_messages
      ≡ ok entries)
    × (decode_all decode sum_digest {E = Unit {0}} entries ≡ ok page.messages)
    × (page.end_time ≡ 0)
    × (page.end_digest ≡ [])
    × ((m : Message)
        → last page.messages ≡ some m
        → (page.start_time ≡ m.received_time)
          × (Relay.digest sum_digest m.payload_digest m.payload ≡ ok page.start_digest))
unfolding get_messages_range entries_in_range take_while in_range in_namespace before_end_key
    decode_all page_of set_start Relay.digest
get_messages_range_lem_example =
    get_messages_range_lem decode sum_digest memory start none two_messages page refl

remove_messages_range_lem_example :
    (entries : List (List ℕ × List ℕ)) × (entries_in_range decode sum_digest memory start
        (some second_key)
        two_messages
      ≡ ok entries)
    × All (λ entry. memory_laws.contents ((second_key, 105 ∷ 1 ∷ []) ∷ []) entry.0 ≡ none) entries
    × ((key : List ℕ)
        → All (λ entry. key ≢ entry.0) entries
        → memory_laws.contents ((second_key, 105 ∷ 1 ∷ []) ∷ []) key
          ≡ memory_laws.contents two_messages key)
unfolding remove_messages_range ◌>>=◌ delete_all entries_in_range take_while in_range in_namespace
    before_end_key
remove_messages_range_lem_example =
    remove_messages_range_lem decode sum_digest memory memory_laws start (some second_key)
      two_messages ((second_key, 105 ∷ 1 ∷ []) ∷ []) refl
