-- ===== src/Token/ChainCommitment.antt =====
-- lib/cashweb-token/src/schemes/chain_commitment.rs. Base64, SHA-256, the node's client and the buffer of
-- a byte slice are parameters.
pub mod Commits
use cashweb_backends.Common.{
  ℕ, ◌+◌, List, [], ◌∷◌, ◌++◌, not, ◌||◌, if◌then◌else◌, ◌==◌, length, take, drop, get_or,
  get_elem?, bytes_eq, to_le_bytes, from_le_bytes,
}
use cashweb_backends.Common.Exec.{Outcome, ok, err, panic, and_then, map_err, ok_or}
use cashweb_backends.Bitcoin.Buf.{Buf}
use cashweb_backends.Bitcoin.Transaction
use cashweb_backends.Bitcoin.Transaction.{Transaction}
use cashweb_backends.Bitcoin.Transaction.Script.{Script, is_op_return}
use cashweb_backends.Token.HmacBearer.{Base64}

pub data ValidationError (Base64Error NodeError : Type 0) : Type 0 where
  base64_error : Base64Error → ValidationError Base64Error NodeError
  node_error : NodeError → ValidationError Base64Error NodeError
  transaction_error : Transaction.DecodeError → ValidationError Base64Error NodeError
  incorrect_length invalid not_op_return output_not_found token_length :
      ValidationError Base64Error NodeError

-- The node's client and the digest.
pub record Chain : Type 1 where
  pub NodeError : Type 0
  pub get_raw_transaction : List ℕ → Outcome NodeError (List ℕ)
  pub sha256 : List ℕ → List ℕ
  pub Slice : Type 0
  pub slice_buf : Buf Slice
  pub as_slice : List ℕ → Slice

abbrev pub commitment_len : ℕ
commitment_len = 32

unfoldable pub construct_token_raw : List ℕ → ℕ → List ℕ
construct_token_raw tx_id vout = tx_id ++ to_le_bytes 4 vout

module _ (base64 : Base64) (chain : Chain) where
  open base64 use {Base64Error, encode, decode}
  open chain use {NodeError, get_raw_transaction, sha256, slice_buf, as_slice}

  abbrev pub Error : Type 0
  Error = ValidationError Base64Error NodeError

  -- The context is updated with both parts in turn.
  unfoldable pub construct_commitment : List ℕ → List ℕ → List ℕ
  construct_commitment pub_key_hash address_metadata_hash =
      sha256 (pub_key_hash ++ address_metadata_hash)

  unfoldable pub construct_token : List ℕ → ℕ → List ℕ
  construct_token tx_id vout = encode (construct_token_raw tx_id vout)

  abbrev pub decode_slice : List ℕ → Outcome Transaction.DecodeError Transaction
  decode_slice raw = (Transaction.decode ⦃buf = slice_buf⦄ (as_slice raw)).0

  -- The checks of the output's script.
  unfoldable pub check_script : Script → List ℕ → Outcome Error (Unit {0})
  check_script script expected_commitment =
      if not (is_op_return script)
      then err not_op_return
      else if not (length script.raw == 2 + commitment_len)
          || not (get_or script.raw 1 0 == commitment_len)
      then err incorrect_length
      else if not (bytes_eq expected_commitment (take 32 (drop 2 script.raw)))
      then err invalid
      else ok tt

  unfoldable pub check_length : List ℕ → Outcome Error (Unit {0})
  check_length outpoint_raw = if length outpoint_raw == 32 + 4 then ok tt else err token_length

  unfoldable pub validate_token : List ℕ → List ℕ → List ℕ → Outcome Error (List ℕ)
  validate_token pub_key_hash address_metadata_hash token =
      and_then (map_err base64_error (decode token)) λ outpoint_raw.
        and_then (check_length outpoint_raw) λ u.
          and_then (map_err node_error (get_raw_transaction (take 32 outpoint_raw)))
            λ raw_transaction.
              and_then (map_err transaction_error (decode_slice raw_transaction)) λ transaction.
                and_then
                  (ok_or
                    (get_elem? transaction.outputs (from_le_bytes (take 4 (drop 32 outpoint_raw))))
                    output_not_found)
                  λ output.
                    and_then
                      (check_script output.script
                        (construct_commitment pub_key_hash address_metadata_hash))
                      λ v. ok outpoint_raw
