-- ===== src/RelayServer/Ranges.antt =====
-- relayserver/src/db.rs: reading and removing the messages of a range. A decoded entry is a message; the
-- decoder of protobuf and SHA-256 are parameters.
pub mod Bounds
pub mod Times
pub mod Order
pub mod Complete
use cashweb_backends.Common.{
  ℕ, List, [], ◌∷◌, ◌++◌, Option, none, some, Bool, true, false, ◌&&◌, ◌||◌, if◌then◌else◌, length,
  take, drop, ltb, bytes_eq, ◌==◌, map,
}
use cashweb_backends.Common.Exec.{
  Outcome, ok, err, panic, Exec, and_then, unwrap_ok, lift, pure, ◌>>=◌, ◌>>◌,
}
use cashweb_backends.Relay.Message.{Message, digest}
use cashweb_backends.Relay.Opening.{MessagePage}
use cashweb_backends.RelayServer.Rocks.{Rocks}
use cashweb_backends.RelayServer.Database.{namespace_len}
use cashweb_backends.Common.Slices.{slice_to, slice_from}

-- `<` on byte slices.
abbrev pub bytes_lt : List ℕ → List ℕ → Bool
bytes_lt xs [] = false
bytes_lt [] (y ∷ ys) = true
bytes_lt (x ∷ xs) (y ∷ ys) = ltb x y || ((x == y) && bytes_lt xs ys)

unfoldable pub in_namespace : {E : Type 0} → List ℕ → List ℕ → Outcome E Bool
in_namespace namespace key =
    and_then (slice_to namespace_len key) λ own. ok (bytes_eq own namespace)

unfoldable pub before_end_key : {E : Type 0} → Option (List ℕ) → List ℕ → Outcome E Bool
before_end_key none key = ok true
before_end_key (some end_prefix) key =
    and_then (slice_from namespace_len key)
      λ rest. and_then (slice_from namespace_len end_prefix) λ end_rest. ok (bytes_lt rest end_rest)

-- `in_namespace(key) && before_end_key(key)`
abbrev pub and_before : {E : Type 0} → Bool → Outcome E Bool → Outcome E Bool
and_before false rest = ok false
and_before true rest = rest

unfoldable pub in_range : {E : Type 0} → List ℕ → Option (List ℕ) → List ℕ → Outcome E Bool
in_range namespace opt_end_prefix key =
    and_then (in_namespace namespace key)
      λ inside. and_before inside (before_end_key opt_end_prefix key)

abbrev pub keep : {E A : Type 0} → A → Bool → Outcome E (List A) → Outcome E (List A)
keep x false rest = ok []
keep x true rest = and_then rest λ xs. ok (x ∷ xs)

-- `iter.take_while(…)`
unfoldable pub take_while : {E A : Type 0} → (A → Outcome E Bool) → List A → Outcome E (List A)
take_while test [] = ok []
take_while test (x ∷ xs) =
    let rest = take_while test xs in and_then (test x) λ kept. keep x kept rest

abbrev pub default_page : MessagePage
default_page = record {
  messages = [];
  start_time = 0;
  end_time = 0;
  start_digest = [];
  end_digest = [];
}

abbrev pub first : List Message → Option Message
first [] = none
first (m ∷ ms) = some m

abbrev pub last : List Message → Option Message
last [] = none
last (m ∷ []) = some m
last (m ∷ n ∷ ms) = last (n ∷ ms)

module _ {DecodeError : Type 0} (decode : List ℕ → Outcome DecodeError Message)
    (sha256 : List ℕ → List ℕ) where
  -- `map(|(_, item)| Message::decode(&item[..]).unwrap()).collect()`
  unfoldable pub decode_all : {E : Type 0} → List (List ℕ × List ℕ) → Outcome E (List Message)
  decode_all [] = ok []
  decode_all (entry ∷ entries) =
      and_then (unwrap_ok (decode entry.1))
        λ message. and_then (decode_all entries) λ messages. ok (message ∷ messages)

  -- Both blocks, for the first and for the last message, set the same two fields.
  unfoldable pub set_start : {E : Type 0} → MessagePage → Option Message → Outcome E MessagePage
  set_start page none = ok page
  set_start page (some message) =
      and_then (unwrap_ok (digest sha256 message.payload_digest message.payload)) λ payload_digest.
        ok (record page { start_time = message.received_time; start_digest = payload_digest })

  unfoldable pub page_of : {E : Type 0} → List Message → Outcome E MessagePage
  page_of messages = and_then (set_start default_page (first messages)) λ page.
      and_then (set_start page (last messages)) λ page'. ok (record page' { messages = messages })

  module _ {D : Type 0} (rocks : Rocks D) where
    open rocks use {RocksError, delete, iterator}

    unfoldable pub entries_in_range :
        List ℕ → Option (List ℕ) → D → Outcome RocksError (List (List ℕ × List ℕ))
    entries_in_range start_prefix opt_end_prefix d =
        and_then (slice_to namespace_len start_prefix) λ namespace.
          take_while (λ entry. in_range namespace opt_end_prefix entry.0) (iterator start_prefix d)

    unfoldable pub get_messages_range :
        List ℕ → Option (List ℕ) → D → Outcome RocksError MessagePage
    get_messages_range start_prefix opt_end_prefix d =
        and_then (entries_in_range start_prefix opt_end_prefix d)
          λ entries. and_then (decode_all entries) λ messages. page_of messages

    -- `for (key, _) in iter`
    unfoldable pub delete_all : List (List ℕ × List ℕ) → Exec D RocksError (Unit {0})
    delete_all [] = pure tt
    delete_all (entry ∷ entries) = delete entry.0 >> delete_all entries

    -- The iterator reads the database as it was when it was made.
    unfoldable pub remove_messages_range : List ℕ → Option (List ℕ) → Exec D RocksError (Unit {0})
    remove_messages_range start_prefix opt_end_prefix = do
      entries ← λ d. (entries_in_range start_prefix opt_end_prefix d, d)
      delete_all entries
