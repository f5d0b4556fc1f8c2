-- ===== src/Relay/Stamp.antt =====
-- lib/cashweb-relay/src/stamp.rs: the keys that a stamp pays to, and the verification of a stamp. The
-- curve, both digests and the buffer of a byte slice are parameters.
pub mod Covers
pub mod Keys
use cashweb_backends.Common.{
  ℕ, zero, suc, ◌+◌, ◌^◌, ◌%◌, List, [], ◌∷◌, Option, none, some, not, if◌then◌else◌, take, drop,
  get_elem?, bytes_eq, ◌==◌,
}
use cashweb_backends.Common.Exec.{Outcome, ok, err, panic, and_then, map_err, unwrap_ok, ok_or}
use cashweb_backends.Bitcoin.Buf.{Buf}
use cashweb_backends.Bitcoin.Transaction
use cashweb_backends.Bitcoin.Transaction.{Transaction}
use cashweb_backends.Bitcoin.Transaction.Output.{Output}
use cashweb_backends.Bitcoin.Transaction.Script.{is_p2pkh}
use cashweb_backends.Bitcoin.Secp.{Secp}
use cashweb_backends.Bitcoin.Bip32.{
  normal, from_normal_index, ExtendedPublicKey, ExtendedPrivateKey, new_master_public,
  new_master_private, derive_public_child, derive_private_child, derive_public_path,
  derive_private_path,
}

pub data StampType : Type 0 where
  none_type message_commitment : StampType

pub record StampOutpoints : Type 0 where
  pub stamp_tx : List ℕ
  pub vouts : List ℕ

pub record Stamp : Type 0 where
  pub stamp_type : ℕ
  pub stamp_outpoints : List StampOutpoints

pub data StampError : Type 0 where
  decode_error : Transaction.DecodeError → StampError
  missing_output not_p2pkh degenerate_combination child_number_overflow unsupported_stamp_type
        none_stamp_type :
      StampError
  unexpected_address : List ℕ → List ℕ → StampError

pub data StampKeyError (SecpError : Type 0) : Type 0 where
  addition : SecpError → StampKeyError SecpError
  key_number_overflow : StampKeyError SecpError

-- `StampType::from_i32`
unfoldable pub type_from_i32 : ℕ → Option StampType
type_from_i32 n =
    if n == 0 then some none_type else if n == 1 then some message_commitment else none

-- The digests and the buffer that the code uses beside the curve.
pub record Crypto : Type 1 where
  pub secp : Secp
  pub sha256 : List ℕ → List ℕ
  pub ripemd160 : List ℕ → List ℕ
  pub Slice : Type 0
  pub slice_buf : Buf Slice
  pub as_slice : List ℕ → Slice

module _ (crypto : Crypto) where
  open crypto use {secp, sha256, ripemd160, Slice, slice_buf, as_slice}
  open secp use {
    PublicKey, SecretKey, SecpError, serialize, secret_from_slice, from_secret_key, combine,
    add_assign,
  }

  abbrev pub hash160 : List ℕ → List ℕ
  hash160 raw = ripemd160 (sha256 raw)

  abbrev pub decode_slice : List ℕ → Outcome Transaction.DecodeError Transaction
  decode_slice raw = (Transaction.decode ⦃buf = slice_buf⦄ (as_slice raw)).0

  unfoldable pub check_hash : List ℕ → List ℕ → Outcome StampError (Unit {0})
  check_hash digest pubkey_hash =
      if bytes_eq digest pubkey_hash then ok tt else err (unexpected_address digest pubkey_hash)

  -- The body of the loop over the output indices of a transaction.
  unfoldable pub verify_vout :
      ExtendedPublicKey PublicKey → List Output → ℕ → ℕ → Outcome StampError (Unit {0})
  verify_vout tx_child outputs index vout =
      and_then (ok_or (get_elem? outputs vout) missing_output) λ output.
        if not (is_p2pkh output.script)
        then err not_p2pkh
        else and_then (map_err (λ e. child_number_overflow) (from_normal_index (index % 2 ^ 32)))
            λ child_number.
              and_then (unwrap_ok (derive_public_child secp tx_child child_number)) λ child_key.
                check_hash (hash160 (serialize child_key.public_key))
                  (take 20 (drop 3 output.script.raw))

  unfoldable pub verify_vouts :
      ExtendedPublicKey PublicKey → List Output → ℕ → List ℕ → Outcome StampError (Unit {0})
  verify_vouts tx_child outputs index [] = ok tt
  verify_vouts tx_child outputs index (vout ∷ vouts) =
      and_then (verify_vout tx_child outputs index vout)
        λ u. verify_vouts tx_child outputs (index + 1) vouts

  -- The body of the loop over the outpoints.
  unfoldable pub verify_outpoint :
      ExtendedPublicKey PublicKey → ℕ → StampOutpoints → Outcome StampError Transaction
  verify_outpoint intermediate_child tx_num outpoint =
      and_then (map_err decode_error (decode_slice outpoint.stamp_tx)) λ tx.
        and_then (map_err (λ e. child_number_overflow) (from_normal_index (tx_num % 2 ^ 32)))
          λ child_number.
            and_then (unwrap_ok (derive_public_child secp intermediate_child child_number))
              λ tx_child. and_then (verify_vouts tx_child tx.outputs 0 outpoint.vouts) λ u. ok tx

  unfoldable pub verify_outpoints :
      ExtendedPublicKey PublicKey → ℕ → List StampOutpoints → Outcome StampError (List Transaction)
  verify_outpoints intermediate_child tx_num [] = ok []
  verify_outpoints intermediate_child tx_num (outpoint ∷ outpoints) =
      and_then (verify_outpoint intermediate_child tx_num outpoint) λ tx.
        and_then (verify_outpoints intermediate_child (tx_num + 1) outpoints) λ txs. ok (tx ∷ txs)

  -- The key above the keys of all transactions, from the digest and the destination's key.
  unfoldable pub intermediate_public :
      List ℕ → PublicKey → Outcome StampError (ExtendedPublicKey PublicKey)
  intermediate_public payload_digest destination_public_key =
      and_then (unwrap_ok (secret_from_slice payload_digest)) λ payload_secret_key.
        and_then
          (map_err (λ e. degenerate_combination)
            (combine destination_public_key (from_secret_key payload_secret_key)))
          λ combined_key. and_then (unwrap_ok (from_normal_index 44)) λ purpose.
            and_then (unwrap_ok (from_normal_index 145)) λ coin. unwrap_ok (
              derive_public_path secp (new_master_public secp combined_key payload_digest)
                (purpose ∷ coin ∷ []))

  unfoldable pub verify_stamp :
      List StampOutpoints → List ℕ → PublicKey → StampType → Outcome StampError (List Transaction)
  verify_stamp stamp_outpoints payload_digest destination_public_key none_type = err none_stamp_type
  verify_stamp stamp_outpoints payload_digest destination_public_key message_commitment =
      and_then (intermediate_public payload_digest destination_public_key)
        λ intermediate_child. verify_outpoints intermediate_child 0 stamp_outpoints

  -- The method of the same name.
  unfoldable pub stamp_verify_stamp :
      Stamp → List ℕ → PublicKey → Outcome StampError (List Transaction)
  stamp_verify_stamp stamp payload_digest destination_public_key =
      and_then (ok_or (type_from_i32 stamp.stamp_type) unsupported_stamp_type) λ stamp_type.
        verify_stamp stamp.stamp_outpoints payload_digest destination_public_key stamp_type

  -- `(index..index + n).map(…).collect()`: the keys of one transaction.
  unfoldable pub create_keys :
      ExtendedPrivateKey SecretKey → ℕ → ℕ → Outcome (StampKeyError SecpError) (List SecretKey)
  create_keys tx_child index zero = ok []
  create_keys tx_child index (suc n) =
      and_then (map_err (λ e. key_number_overflow) (from_normal_index index)) λ child_number.
        and_then (derive_private_child secp tx_child child_number) λ child_key.
          and_then (create_keys tx_child (index + 1) n) λ keys. ok (child_key.private_key ∷ keys)

  unfoldable pub create_outputs :
      ExtendedPrivateKey SecretKey
      → ℕ
      → List ℕ
      → Outcome (StampKeyError SecpError) (List (List SecretKey))
  create_outputs intermediate_child tx_num [] = ok []
  create_outputs intermediate_child tx_num (n_index ∷ profile) =
      and_then (map_err (λ e. key_number_overflow) (from_normal_index (tx_num % 2 ^ 32)))
        λ child_number.
          and_then (derive_private_child secp intermediate_child child_number) λ tx_child.
            and_then (create_keys tx_child 0 n_index) λ keys.
              and_then (create_outputs intermediate_child (tx_num + 1) profile)
                λ rest. ok (keys ∷ rest)

  unfoldable pub create_stamp_private_keys :
      SecretKey → List ℕ → List ℕ → Outcome (StampKeyError SecpError) (List (List SecretKey))
  create_stamp_private_keys private_key payload_digest output_profile =
      and_then (map_err addition (add_assign private_key payload_digest)) λ sum_key.
        and_then (unwrap_ok (from_normal_index 44)) λ purpose.
          and_then (unwrap_ok (from_normal_index 145)) λ coin.
            and_then
              (derive_private_path secp (new_master_private secp sum_key payload_digest)
                (purpose ∷ coin ∷ []))
              λ intermediate_child. create_outputs intermediate_child 0 output_profile
