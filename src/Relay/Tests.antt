-- ===== src/Relay/Tests.antt =====
-- The theorems on stamps and messages at concrete inputs.
use cashweb_backends.Common.{ℕ, ◌≡◌, ◌↔◌, refl, List, [], ◌∷◌, replicate, arith, length, take, drop}
use cashweb_backends.Common.Exec.{ok, err, ◌>>=◌}
use cashweb_backends.Bitcoin.Transaction.{Transaction}
use cashweb_backends.Bitcoin.Transaction.Encoding.{encoding}
use cashweb_backends.Bitcoin.VarInt.Encoding as VarIntEncoding
use cashweb_backends.Bitcoin.Transaction.Input.Encoding as InputEncoding
use cashweb_backends.Bitcoin.Transaction.Output.Encoding as OutputEncoding
use cashweb_backends.Bitcoin.Transaction.Outpoint.Encoding as OutpointEncoding
use cashweb_backends.Bitcoin.Bip32.{
  derive_private_path, derive_private_child, private_data, from_normal_index, new_master_private,
  derive_public_path, derive_public_child, ExtendedPublicKey,
}
use cashweb_backends.Bitcoin.Tests.{one_input}
use cashweb_backends.Bitcoin.Transaction.Script.P2pkh.{p2pkh_script}
use cashweb_backends.Relay.Stamp.{
  StampOutpoints, stamp_verify_stamp, type_from_i32, verify_outpoints, none_type, none_stamp_type,
  message_commitment, verify_stamp, intermediate_public, create_stamp_private_keys, create_outputs,
  create_keys,
}
use cashweb_backends.Relay.Stamp.Covers.{Covers, verify_stamp_iff}
use cashweb_backends.Relay.Stamp.Keys.{create_stamp_private_keys-verify_stamp}
use cashweb_backends.Relay.Message.{
  Message, ParsedMessage, ephemeral_dh, into_message, parse, parsed_authenticate, create_shared_key,
  parsed_verify_stamp, create_merged_key, authenticate,
}
use cashweb_backends.Relay.Message.Parsing.{IsParsed, parse-into_message}
use cashweb_backends.Relay.Opening.{
  Opened, admit, open_admitted, decode_opened, decrypt_payload, decode_self, split_key,
  encrypt_payload, open_message, open_in_place,
}
use cashweb_backends.Relay.Opening.Outcomes.{
  Admitted, parsed_authenticate_iff, open_message_lem, open_in_place_lem, create_shared_key-agree,
}
use cashweb_backends.Relay.Instances.{
  small_crypto, small_crypto_laws, plain_cipher, plain_cipher_laws,
}

-- A stamp of one transaction with one output.
abbrev stamp_tx : Transaction
stamp_tx = record {
  version = 1;
  inputs = one_input ∷ [];
  outputs = record { value = 5; script = p2pkh_script (replicate 20 32) } ∷ [];
  lock_time = 0;
}

abbrev outpoints : List StampOutpoints
outpoints = record { stamp_tx = encoding stamp_tx; vouts = 0 ∷ [] } ∷ []

abbrev digest : List ℕ
digest = replicate 32 3

verify_stamp_iff_example :
    ((verify_stamp small_crypto outpoints digest (replicate 32 1) message_commitment
        ≡ ok (stamp_tx ∷ []))
      ↔ ((intermediate : ExtendedPublicKey (List ℕ)) × (intermediate_public small_crypto digest
              (replicate 32 1)
            ≡ ok intermediate)
          × Covers small_crypto intermediate 0 outpoints (stamp_tx ∷ [])))
    × (verify_stamp small_crypto outpoints digest (replicate 32 1) none_type ≡ err none_stamp_type)
verify_stamp_iff_example =
    verify_stamp_iff small_crypto outpoints digest (replicate 32 1) (stamp_tx ∷ [])

create_stamp_private_keys-verify_stamp_example :
    verify_stamp small_crypto outpoints digest (replicate 32 1) message_commitment
    ≡ ok (stamp_tx ∷ [])
unfolding create_stamp_private_keys create_outputs create_keys derive_private_path
    derive_private_child private_data from_normal_index new_master_private encoding
    VarIntEncoding.encoding InputEncoding.encoding OutputEncoding.encoding OutpointEncoding.encoding
create_stamp_private_keys-verify_stamp_example =
    create_stamp_private_keys-verify_stamp small_crypto small_crypto_laws (replicate 32 1) digest
      digest (1 ∷ []) ((replicate 32 148 ∷ []) ∷ []) outpoints (stamp_tx ∷ []) refl
      (omega arith, tt) refl ((refl, omega arith, omega arith, ((_, refl, refl), tt)), tt)

abbrev message : ParsedMessage (List ℕ)
message = record {
  source_public_key = replicate 32 4;
  destination_public_key = replicate 32 1;
  received_time = 7;
  payload_digest = replicate 32 2;
  stamp = record { stamp_type = 1; stamp_outpoints = [] };
  scheme = ephemeral_dh;
  salt = replicate 32 32;
  payload_hmac = replicate 32 9;
  payload_size = 2;
  payload = 5 ∷ 6 ∷ [];
}

parse-into_message_example :
    ((m : Message) (p : ParsedMessage (List ℕ))
      → parse small_crypto m ≡ ok p
      → IsParsed small_crypto.sha256 p)
    × ((p : ParsedMessage (List ℕ))
        → IsParsed small_crypto.sha256 p
        → parse small_crypto (into_message small_crypto p) ≡ ok p)
parse-into_message_example =
    parse-into_message small_crypto small_crypto_laws.secp_laws (λ xs. refl)

message-IsParsed : IsParsed small_crypto.sha256 message
message-IsParsed = record { digest_len = refl; digest_of_payload = λ n. refl; hmac_len = refl }

parsed_authenticate_iff_example :
    ((parsed_authenticate small_crypto message (replicate 32 1) ≡ ok tt)
      ↔ (replicate 32 32 ≡ message.salt))
    × ((payload_hmac : List ℕ)
        → parsed_authenticate small_crypto
            (record message { payload_hmac = payload_hmac })
            (replicate 32 1)
          ≡ parsed_authenticate small_crypto message (replicate 32 1))
parsed_authenticate_iff_example = parsed_authenticate_iff small_crypto message (replicate 32 1)

abbrev opened : Opened (List ℕ)
opened = record { txs = []; payload = 5 ∷ 6 ∷ [] }

open_message_lem_example :
    (shared_key : List ℕ) × (plaintext : List ℕ) × Admitted small_crypto plain_cipher message
      (replicate 32 1)
      []
      shared_key
    × (length shared_key ≡ 32)
    × (plain_cipher.decrypt_vec (take 16 shared_key) (drop 16 shared_key) message.payload
        ≡ ok plaintext)
    × (plain_cipher.decode_payload message.payload ≡ ok opened.payload)
unfolding open_message admit parsed_verify_stamp stamp_verify_stamp type_from_i32 verify_stamp
    intermediate_public from_normal_index derive_public_path derive_public_child verify_outpoints
    create_shared_key create_merged_key parsed_authenticate authenticate split_key
open_message_lem_example =
    open_message_lem small_crypto plain_cipher message (replicate 32 1) opened refl

open_in_place_lem_example :
    (shared_key : List ℕ) × Admitted small_crypto plain_cipher message
      (replicate 32 1)
      []
      shared_key
    × (length shared_key ≡ 32)
    × (plain_cipher.decrypt_in_place (take 16 shared_key) (drop 16 shared_key) message.payload
        ≡ (ok tt, message.payload))
    × (plain_cipher.decode_payload message.payload ≡ ok opened.payload)
    × (message ≡ record message { payload = message.payload })
unfolding ◌>>=◌ open_in_place open_admitted decode_opened decrypt_payload decode_self admit
    parsed_verify_stamp stamp_verify_stamp type_from_i32 verify_stamp intermediate_public
    from_normal_index derive_public_path derive_public_child verify_outpoints create_shared_key
    create_merged_key parsed_authenticate authenticate split_key
open_in_place_lem_example =
    open_in_place_lem small_crypto plain_cipher message message (replicate 32 1) opened refl

create_shared_key-agree_example :
    (create_shared_key small_crypto (replicate 32 2) (replicate 32 1) (7 ∷ [])
      ≡ create_shared_key small_crypto (replicate 32 1) (replicate 32 2) (7 ∷ []))
    × ((shared_key plaintext : List ℕ)
        → create_shared_key small_crypto (replicate 32 1) (replicate 32 2) (7 ∷ []) ≡ ok shared_key
        → (halves : List ℕ × List ℕ) × (ciphertext : List ℕ) × (split_key {E = Unit {0}} shared_key
            ≡ ok halves)
          × (encrypt_payload small_crypto plain_cipher {E = Unit {0}} shared_key plaintext
              ≡ ok ciphertext)
          × (plain_cipher.decrypt_vec halves.0 halves.1 ciphertext ≡ ok plaintext))
create_shared_key-agree_example =
    create_shared_key-agree small_crypto plain_cipher small_crypto_laws.secp_laws plain_cipher_laws
      (replicate 32 1) (replicate 32 2) (7 ∷ [])
