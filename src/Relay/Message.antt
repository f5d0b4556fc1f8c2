-- ===== src/Relay/Message.antt =====
-- lib/cashweb-relay/src/lib.rs: messages, their digests, parsing and authentication.
pub mod Parsing
use cashweb_backends.Common.{
  ℕ, ◌^◌, List, [], ◌∷◌, Option, none, some, Bool, true, false, map, if◌then◌else◌, ◌==◌, length,
  take, drop, leb, bytes_eq,
}
use cashweb_backends.Common.Exec.{Outcome, ok, err, panic, and_then, map_err, unwrap_ok, ok_or}
use cashweb_backends.Bitcoin.Secp.{Secp}
use cashweb_backends.Bitcoin.Bip32.{array_32}
use cashweb_backends.Bitcoin.Transaction.{Transaction}
use cashweb_backends.Bitcoin.Transaction.Script.{is_empty}
use cashweb_backends.Relay.Stamp.{Crypto, Stamp, StampError, stamp_verify_stamp}

pub data EncryptionScheme : Type 0 where
  no_encryption ephemeral_dh : EncryptionScheme

-- `EncryptionScheme::from_i32` and `into`; an `i32` is its bit pattern of 32 bits.
unfoldable pub scheme_from_i32 : ℕ → Option EncryptionScheme
scheme_from_i32 n =
    if n == 0 then some no_encryption else if n == 1 then some ephemeral_dh else none

unfoldable pub scheme_into : EncryptionScheme → ℕ
scheme_into no_encryption = 0
scheme_into ephemeral_dh = 1

pub record Message : Type 0 where
  pub source_public_key : List ℕ
  pub destination_public_key : List ℕ
  pub received_time : ℕ
  pub payload_digest : List ℕ
  pub stamp : Option Stamp
  pub scheme : ℕ
  pub salt : List ℕ
  pub payload_hmac : List ℕ
  pub payload_size : ℕ
  pub payload : List ℕ

pub record ParsedMessage (PublicKey : Type 0) : Type 0 where
  pub source_public_key : PublicKey
  pub destination_public_key : PublicKey
  pub received_time : ℕ
  pub payload_digest : List ℕ
  pub stamp : Stamp
  pub scheme : EncryptionScheme
  pub salt : List ℕ
  pub payload_hmac : List ℕ
  pub payload_size : ℕ
  pub payload : List ℕ

pub data DigestError : Type 0 where
  digest_and_payload_missing fraudulent_digest unexpected_length_digest : DigestError

pub data ParseError (SecpError : Type 0) : Type 0 where
  digest_error : DigestError → ParseError SecpError
  source_error destination_error : SecpError → ParseError SecpError
  missing_stamp unsupported_scheme unexpected_length_payload_hmac : ParseError SecpError

pub data InvalidHmac : Type 0 where
  invalid_hmac : InvalidHmac

module _ (sha256 : List ℕ → List ℕ) where
  -- `Message::digest`: its two fields are all that it reads.
  unfoldable pub digest : List ℕ → List ℕ → Outcome DigestError (List ℕ)
  digest payload_digest payload =
      if length payload_digest == 0
      then (if is_empty payload then err digest_and_payload_missing else array_32 (sha256 payload))
      else if length payload_digest == 32
      then (if is_empty payload
          then array_32 payload_digest
          else and_then (array_32 (sha256 payload)) λ calculated.
            if bytes_eq calculated payload_digest then ok calculated else err fraudulent_digest)
      else err unexpected_length_digest

module _ (crypto : Crypto) where
  open crypto use {secp, sha256}
  open secp use {PublicKey, SecpError, serialize, public_from_slice, mul_assign, hmac_sha256}

  unfoldable pub into_message : ParsedMessage PublicKey → Message
  into_message p = record {
    source_public_key = serialize p.source_public_key;
    destination_public_key = serialize p.destination_public_key;
    received_time = p.received_time;
    payload_digest = p.payload_digest;
    stamp = some p.stamp;
    scheme = scheme_into p.scheme;
    salt = p.salt;
    payload_hmac = p.payload_hmac;
    payload_size = p.payload_size;
    payload = p.payload;
  }

  unfoldable pub parse : Message → Outcome (ParseError SecpError) (ParsedMessage PublicKey)
  parse m =
      and_then (map_err source_error (public_from_slice m.source_public_key)) λ source_public_key.
        and_then (map_err destination_error (public_from_slice m.destination_public_key))
          λ destination_public_key.
            and_then (map_err digest_error (digest sha256 m.payload_digest m.payload))
              λ payload_digest. and_then (ok_or m.stamp missing_stamp) λ stamp.
                and_then (ok_or (scheme_from_i32 m.scheme) unsupported_scheme) λ scheme.
                  and_then
                    (if length m.payload_hmac == 32
                      then ok m.payload_hmac
                      else err unexpected_length_payload_hmac)
                    λ payload_hmac. ok (record {
                      source_public_key = source_public_key;
                      destination_public_key = destination_public_key;
                      received_time = m.received_time;
                      payload_digest = payload_digest;
                      stamp = stamp;
                      scheme = scheme;
                      salt = m.salt;
                      payload_hmac = payload_hmac;
                      payload_size = m.payload_size;
                      payload = m.payload;
                    })

  unfoldable pub create_merged_key : PublicKey → List ℕ → Outcome SecpError PublicKey
  create_merged_key source_public_key private_key = mul_assign source_public_key private_key

  unfoldable pub create_shared_key : PublicKey → List ℕ → List ℕ → Outcome SecpError (List ℕ)
  create_shared_key source_public_key private_key salt =
      and_then (create_merged_key source_public_key private_key)
        λ merged_key. array_32 (hmac_sha256 (serialize merged_key) salt)

  -- The function, and the method that passes the salt to it.
  unfoldable pub authenticate : List ℕ → List ℕ → List ℕ → Outcome InvalidHmac (Unit {0})
  authenticate shared_key payload_digest payload_hmac =
      if bytes_eq (hmac_sha256 shared_key payload_digest) payload_hmac
      then ok tt
      else err invalid_hmac

  unfoldable pub parsed_authenticate :
      ParsedMessage PublicKey → List ℕ → Outcome InvalidHmac (Unit {0})
  parsed_authenticate p shared_key = authenticate shared_key p.payload_digest p.salt

  unfoldable pub parsed_verify_stamp :
      ParsedMessage PublicKey → Outcome StampError (List Transaction)
  parsed_verify_stamp p =
      stamp_verify_stamp crypto p.stamp p.payload_digest p.destination_public_key
