-- ===== src/RelayServer/Database.antt =====
-- relayserver/src/db.rs: the keys of messages, the index by digest, and profiles. RocksDB is an interface,
-- and protobuf's decoder is a parameter where stored messages are decoded.
pub mod Digests
use cashweb_backends.Common.{
  ℕ, List, [], ◌∷◌, ◌++◌, Option, none, some, Bool, true, false, ◌&&◌, if◌then◌else◌, length, take,
  drop, ltb, bytes_eq, to_be_bytes, ◌==◌,
}
use cashweb_backends.Common.Exec.{
  Outcome, ok, err, panic, Exec, and_then, unwrap_ok, lift, pure, ◌>>=◌, ◌>>◌,
}
use cashweb_backends.AuthWrapper.{AuthWrapper}
use cashweb_backends.Relay.Message.{Message, digest}
use cashweb_backends.Relay.Opening.{MessagePage}
use cashweb_backends.Common.Slices.{slice_to}
use cashweb_backends.RelayServer.Rocks.{Rocks}

abbrev pub digest_len : ℕ
digest_len = 4

abbrev pub namespace_len : ℕ
namespace_len = 21

abbrev pub digest_namespace : ℕ
digest_namespace = 100

abbrev pub feed_namespace : ℕ
feed_namespace = 102

abbrev pub message_namespace : ℕ
message_namespace = 109

abbrev pub profile_namespace : ℕ
profile_namespace = 112

-- The key of a message from the bytes of its time and the beginning of its digest.
abbrev pub key_of : List ℕ → ℕ → List ℕ → List ℕ → List ℕ
key_of pubkey_hash namespace raw_timestamp head =
    pubkey_hash ++ (namespace ∷ (raw_timestamp ++ head))

unfoldable pub msg_key : {E : Type 0} → List ℕ → ℕ → List ℕ → ℕ → Outcome E (List ℕ)
msg_key pubkey_hash timestamp digest namespace =
    and_then (slice_to digest_len digest)
      λ head. ok (key_of pubkey_hash namespace (to_be_bytes 8 timestamp) head)

unfoldable pub msg_prefix : List ℕ → ℕ → ℕ → List ℕ
msg_prefix pubkey_hash timestamp namespace = pubkey_hash ++ (namespace ∷ to_be_bytes 8 timestamp)

abbrev pub digest_key : List ℕ → List ℕ → List ℕ
digest_key pubkey_hash digest = pubkey_hash ++ (digest_namespace ∷ digest)

module _ {D : Type 0} (rocks : Rocks D) where
  open rocks use {RocksError, get, put, delete, iterator}

  unfoldable pub key_at :
      List ℕ → List ℕ → ℕ → Option (List ℕ) → Outcome RocksError (Option (List ℕ))
  key_at pubkey_hash digest namespace none = ok none
  key_at pubkey_hash digest namespace (some timestamp) =
      and_then (slice_to digest_len digest)
        λ head. ok (some (key_of pubkey_hash namespace timestamp head))

  unfoldable pub get_msg_key_by_digest :
      List ℕ → List ℕ → ℕ → D → Outcome RocksError (Option (List ℕ))
  get_msg_key_by_digest pubkey_hash digest namespace d =
      and_then (get (digest_key pubkey_hash digest) d)
        λ opt_timestamp. key_at pubkey_hash digest namespace opt_timestamp

  unfoldable pub push_message : List ℕ → ℕ → List ℕ → List ℕ → ℕ → Exec D RocksError (Unit {0})
  push_message pubkey_hash timestamp raw_message digest namespace = do
    key ← lift (msg_key pubkey_hash timestamp digest namespace)
    put key raw_message
    put (digest_key pubkey_hash digest) (to_be_bytes 8 timestamp)

  unfoldable pub get_message_by_key : List ℕ → D → Outcome RocksError (Option (List ℕ))
  get_message_by_key key d = get key d

  unfoldable pub get_at : D → Option (List ℕ) → Outcome RocksError (Option (List ℕ))
  get_at d none = ok none
  get_at d (some key) = get_message_by_key key d

  unfoldable pub get_message_by_digest :
      List ℕ → List ℕ → ℕ → D → Outcome RocksError (Option (List ℕ))
  get_message_by_digest pubkey_hash digest namespace d =
      and_then (get_msg_key_by_digest pubkey_hash digest namespace d) λ key. get_at d key

  unfoldable pub delete_at : Option (List ℕ) → Exec D RocksError (Option (Unit {0}))
  delete_at none = pure none
  delete_at (some key) = delete key >> pure (some tt)

  unfoldable pub remove_message_by_digest :
      List ℕ → List ℕ → ℕ → Exec D RocksError (Option (Unit {0}))
  remove_message_by_digest pubkey_hash digest namespace = do
    key ← λ d. (get_msg_key_by_digest pubkey_hash digest namespace d, d)
    delete_at key

  unfoldable pub get_raw_profile : List ℕ → D → Outcome RocksError (Option (List ℕ))
  get_raw_profile addr d = get (addr ++ (profile_namespace ∷ [])) d

  -- A stored profile that does not decode is a panic.
  abbrev pub decode_profile :
      {DecodeError : Type 0}
      → (List ℕ → Outcome DecodeError AuthWrapper)
      → Option (List ℕ)
      → Outcome RocksError (Option AuthWrapper)
  decode_profile decode none = ok none
  decode_profile decode (some raw_profile) =
      and_then (unwrap_ok (decode raw_profile)) λ profile. ok (some profile)

  unfoldable pub get_profile :
      {DecodeError : Type 0}
      → (List ℕ → Outcome DecodeError AuthWrapper)
      → List ℕ
      → D
      → Outcome RocksError (Option AuthWrapper)
  get_profile decode addr d =
      and_then (get_raw_profile addr d) λ raw_profile_opt. decode_profile decode raw_profile_opt

  unfoldable pub put_profile : List ℕ → List ℕ → Exec D RocksError (Unit {0})
  put_profile addr raw_profile = put (addr ++ (profile_namespace ∷ [])) raw_profile
