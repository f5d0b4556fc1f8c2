-- ===== src/AuthWrapper.antt =====
-- lib/cashweb-auth-wrapper/src/lib.rs. The signatures of the `secp256k1` crate and SHA-256 are parameters.
pub mod Checked
pub mod Instances
mod Tests
use cashweb_backends.Common.{ℕ, List, Option, none, some, if◌then◌else◌, ◌==◌, length, bytes_eq}
use cashweb_backends.Common.Exec.{Outcome, ok, err, panic, and_then, map_err, ok_or}
use cashweb_backends.Bitcoin.Bip32.{array_32}
use cashweb_backends.Bitcoin.Transaction.Script.{is_empty}

pub record Signing : Type 1 where
  pub PublicKey : Type 0
  pub Signature : Type 0
  pub SecpError : Type 0
  pub sha256 : List ℕ → List ℕ
  pub public_from_slice : List ℕ → Outcome SecpError PublicKey
  pub from_compact : List ℕ → Outcome SecpError Signature
  pub verify_message : List ℕ → Signature → PublicKey → Outcome SecpError (Unit {0})

pub data SignatureScheme : Type 0 where
  schnorr ecdsa : SignatureScheme

-- `SignatureScheme::from_i32`; an `i32` is its bit pattern of 32 bits.
unfoldable pub scheme_from_i32 : ℕ → Option SignatureScheme
scheme_from_i32 n = if n == 0 then some schnorr else if n == 1 then some ecdsa else none

pub record BurnOutputs : Type 0 where
  pub tx : List ℕ
  pub index : ℕ

pub record AuthWrapper : Type 0 where
  pub public_key : List ℕ
  pub signature : List ℕ
  pub scheme : ℕ
  pub payload : List ℕ
  pub payload_digest : List ℕ
  pub burn_amount : ℕ
  pub transactions : List BurnOutputs

pub data ParseError (SecpError : Type 0) : Type 0 where
  public_key_error signature_error : SecpError → ParseError SecpError
  unsupported_scheme fraudulent_digest digest_and_payload_missing unexpected_length_digest :
      ParseError SecpError

pub data VerifyError (SecpError : Type 0) : Type 0 where
  invalid_signature : SecpError → VerifyError SecpError
  scheme_not_verified : VerifyError SecpError

pub record ParsedAuthWrapper (PublicKey Signature : Type 0) : Type 0 where
  pub public_key : PublicKey
  pub signature : Signature
  pub scheme : SignatureScheme
  pub payload : List ℕ
  pub payload_digest : List ℕ

module _ (signing : Signing) where
  open signing use {
    PublicKey, Signature, SecpError, sha256, public_from_slice, from_compact, verify_message,
  }

  unfoldable pub digest_of : List ℕ → List ℕ → Outcome (ParseError SecpError) (List ℕ)
  digest_of payload_digest payload =
      if length payload_digest == 0
      then (if is_empty payload then err digest_and_payload_missing else array_32 (sha256 payload))
      else if length payload_digest == 32
      then (if bytes_eq (sha256 payload) payload_digest
          then array_32 payload_digest
          else err fraudulent_digest)
      else err unexpected_length_digest

  unfoldable pub parse :
      AuthWrapper → Outcome (ParseError SecpError) (ParsedAuthWrapper PublicKey Signature)
  parse w = and_then (map_err public_key_error (public_from_slice w.public_key)) λ public_key.
      and_then (ok_or (scheme_from_i32 w.scheme) unsupported_scheme) λ scheme.
        and_then (map_err signature_error (from_compact w.signature)) λ signature.
          and_then (digest_of w.payload_digest w.payload) λ payload_digest. ok (record {
            public_key = public_key;
            signature = signature;
            scheme = scheme;
            payload = w.payload;
            payload_digest = payload_digest;
          })

  unfoldable pub verify_ecdsa :
      ParsedAuthWrapper PublicKey Signature → Outcome (VerifyError SecpError) (Unit {0})
  verify_ecdsa p =
      and_then (array_32 p.payload_digest)
        λ msg. map_err invalid_signature (verify_message msg p.signature p.public_key)

  unfoldable pub verify_scheme :
      SignatureScheme
      → ParsedAuthWrapper PublicKey Signature
      → Outcome (VerifyError SecpError) (Unit {0})
  verify_scheme schnorr p = err scheme_not_verified
  verify_scheme ecdsa p = verify_ecdsa p

  unfoldable pub verify :
      ParsedAuthWrapper PublicKey Signature → Outcome (VerifyError SecpError) (Unit {0})
  verify p = verify_scheme p.scheme p
