-- ===== src/Bitcoin/Transaction/SignatureHash.antt =====
-- lib/cashweb-bitcoin/src/transaction/mod.rs: transaction hashes and IDs, and the hash that an input's
-- signature commits to. SHA-256 (the `ring` crate) and the byte vectors are parameters.
pub mod Signed
pub mod Ids
use mathlib.Core.Option
use cashweb_backends.Common.{
  ℕ, zero, suc, ◌+◌, List, [], ◌∷◌, ◌++◌, Option, none, some, Bool, true, false, not, ◌&&◌, ◌||◌,
  length, map, reverse, replicate, take, get_elem?, leb, ◌==◌, if◌then◌else◌, to_le_bytes,
}
use cashweb_backends.Common.Exec.{Outcome, ok, err, panic, and_then, unwrap, ◌>>◌}
use cashweb_backends.Bitcoin.Buf.{BufMut, put_uint}
use cashweb_backends.Bitcoin.Buf.ByteVec.{ByteVec, write_to_vec}
use cashweb_backends.Bitcoin.Merkle.{Hash, sha256d, lotus_merkle_root}
use cashweb_backends.Bitcoin.Transaction.{Transaction, encode_raw}
use cashweb_backends.Bitcoin.Transaction.Script
use cashweb_backends.Bitcoin.Transaction.Script.{Script}
use cashweb_backends.Bitcoin.Transaction.Outpoint
use cashweb_backends.Bitcoin.Transaction.Input.{Input}
use cashweb_backends.Bitcoin.Transaction.Output
use cashweb_backends.Bitcoin.Transaction.Output.{Output}

pub data SignatureHashType : Type 0 where
  sig_all sig_none sig_single any_all any_none any_single : SignatureHashType

-- `sig_hash_type as u32`
unfoldable pub type_number : SignatureHashType → ℕ
type_number sig_all = 0x01
type_number sig_none = 0x02
type_number sig_single = 0x03
type_number any_all = 0x81
type_number any_none = 0x82
type_number any_single = 0x83

unfoldable pub is_anyone_can_pay : SignatureHashType → Bool
is_anyone_can_pay sig_all = true
is_anyone_can_pay sig_none = true
is_anyone_can_pay sig_single = true
is_anyone_can_pay _ = false

abbrev pub is_single : SignatureHashType → Bool
is_single sig_single = true
is_single _ = false

abbrev pub is_none : SignatureHashType → Bool
is_none sig_none = true
is_none _ = false

-- `iter().enumerate().map(f)` from index `i` on.
abbrev pub map_enumerate : {A B : Type 0} → ℕ → (ℕ → A → B) → List A → List B
map_enumerate i f [] = []
map_enumerate i f (x ∷ xs) = f i x ∷ map_enumerate (i + 1) f xs

-- No error is returned: `None` is `ok none`.
pub data Never : Type 0 where

unfoldable pub unit_hash : Hash
unit_hash = 1 ∷ replicate 31 0

-- The inputs that are hashed; `none` is the early return by `?`.
unfoldable pub signed_inputs : Transaction → ℕ → Script → SignatureHashType → Option (List Input)
signed_inputs tx input_index script_pubkey t =
    if is_anyone_can_pay t
    then Option.map (λ (input : Input). record input { script = script_pubkey } ∷ [])
        (get_elem? tx.inputs input_index)
    else some (
        map_enumerate 0
          (λ local_index input. record {
            outpoint = input.outpoint;
            script = if local_index == input_index then script_pubkey else Script.default;
            sequence =
                if not (local_index == input_index) && (is_single t || is_none t)
                then 0
                else input.sequence;
          })
          tx.inputs)

-- `unreachable!()` in the last arm.
unfoldable pub signed_outputs : Transaction → ℕ → SignatureHashType → Outcome Never (List Output)
signed_outputs tx input_index sig_all = ok tx.outputs
signed_outputs tx input_index sig_single = ok (
    map_enumerate 0
      (λ local_index output. if local_index == input_index then output else Output.default)
      (take (input_index + 1) tx.outputs))
signed_outputs tx input_index sig_none = ok []
signed_outputs tx input_index _ = panic

module _ (sha256 : List ℕ → Hash) {W : Type 0} ⦃buf : BufMut W⦄ (vec : ByteVec W) where
  -- The hash of the serialized transaction with the type behind it.
  unfoldable pub hash_signed : Transaction → SignatureHashType → Outcome Never (Option Hash)
  hash_signed transaction t =
      and_then (write_to_vec vec (encode_raw transaction)) λ raw_transaction.
        ok (some (sha256d sha256 (raw_transaction ++ to_le_bytes 4 (type_number t))))

  unfoldable pub hash_inputs :
      Transaction → ℕ → SignatureHashType → Option (List Input) → Outcome Never (Option Hash)
  hash_inputs tx input_index t none = ok none
  hash_inputs tx input_index t (some inputs) = and_then (signed_outputs tx input_index t) λ outputs.
      hash_signed
        (record {
          version = tx.version;
          inputs = inputs;
          outputs = outputs;
          lock_time = tx.lock_time;
        })
        t

  unfoldable pub signature_hash :
      Transaction → ℕ → Script → SignatureHashType → Outcome Never (Option Hash)
  signature_hash tx input_index script_pubkey t =
      if is_single t && leb (length tx.outputs) input_index
      then ok (some unit_hash)
      else hash_inputs tx input_index t (signed_inputs tx input_index script_pubkey t)

  -- The free function of a raw transaction, and the two methods.
  unfoldable pub raw_transaction_hash : List ℕ → Hash
  raw_transaction_hash raw = sha256d sha256 raw

  unfoldable pub raw_transaction_hash_rev : List ℕ → Hash
  raw_transaction_hash_rev raw = reverse (raw_transaction_hash raw)

  unfoldable pub transaction_hash : Transaction → Outcome Never Hash
  transaction_hash tx =
      and_then (write_to_vec vec (encode_raw tx)) λ raw. ok (raw_transaction_hash raw)

  unfoldable pub transaction_hash_rev : Transaction → Outcome Never Hash
  transaction_hash_rev tx =
      and_then (write_to_vec vec (encode_raw tx)) λ raw. ok (raw_transaction_hash raw)

  -- `for item in items { …; leaves.push(sha256d(&itembuf)); }`
  unfoldable pub leaves :
      {A : Type 0} → (A → Outcome Never (List ℕ)) → List A → Outcome Never (List Hash)
  leaves item [] = ok []
  leaves item (x ∷ xs) =
      let rest = leaves item xs in
      and_then (item x) λ raw. and_then rest λ hashes. ok (sha256d sha256 raw ∷ hashes)

  abbrev pub input_leaf : Input → Outcome Never (List ℕ)
  input_leaf i = write_to_vec vec (Outpoint.encode_raw i.outpoint >> put_uint i.sequence 4)

  abbrev pub output_leaf : Output → Outcome Never (List ℕ)
  output_leaf o = write_to_vec vec (Output.encode_raw o)

  unfoldable pub transaction_id : Transaction → Outcome Never Hash
  transaction_id tx = and_then (write_to_vec vec (put_uint tx.version 4)) λ version.
      and_then (leaves input_leaf tx.inputs) λ inputleaves.
        and_then (unwrap (lotus_merkle_root sha256 inputleaves)) λ inputs.
          and_then (leaves output_leaf tx.outputs) λ outputleaves.
            and_then (unwrap (lotus_merkle_root sha256 outputleaves)) λ outputs.
              and_then (write_to_vec vec (put_uint tx.lock_time 4)) λ lock_time. ok (
                sha256d sha256
                  (version ++ (inputs.0 ++ (inputs.1 ∷ (outputs.0 ++ (outputs.1 ∷ lock_time))))))

  unfoldable pub transaction_id_rev : Transaction → Outcome Never Hash
  transaction_id_rev tx = and_then (transaction_id tx) λ txid. ok (reverse txid)
