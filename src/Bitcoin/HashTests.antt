-- ===== src/Bitcoin/HashTests.antt =====
-- The theorems on hashes, roots and derived keys at concrete inputs.
use cashweb_backends.Common.{
  ℕ, ◌+◌, ◌≤◌, ◌<◌, ◌^◌, ◌≡◌, refl, List, [], ◌∷◌, ◌++◌, none, some, length, map, replicate,
  get_elem?, to_le_bytes, IsU64, arith,
}
use cashweb_backends.Common.Exec.{ok, err, panic}
use cashweb_backends.Bitcoin.Buf.Slice.{room_buf}
use cashweb_backends.Bitcoin.Transaction.Script.{Script}
use cashweb_backends.Bitcoin.Transaction.Input.{Input}
use cashweb_backends.Bitcoin.Transaction.Encoding.{encoding}
use cashweb_backends.Bitcoin.Transaction.SignatureHash.{
  sig_single, any_all, any_none, any_single, signature_hash, transaction_id, transaction_id_rev,
  unit_hash, type_number,
}
use cashweb_backends.Bitcoin.Transaction.SignatureHash.Signed.{
  HasOutput, committed, anyone_can_pay_panics, signature_hash-committed,
}
use cashweb_backends.Bitcoin.Transaction.SignatureHash.Ids.{transaction_id-rescript}
use cashweb_backends.Bitcoin.Merkle.{
  Hash, null_hash, sha256d, lotus_merkle_root, lotus_merkle_root_inline, pair_loop, pair_hash,
}
use cashweb_backends.Bitcoin.Merkle.Root.{IsRoot, lotus_merkle_root_lem}
use cashweb_backends.Bitcoin.Bip32.{
  normal, hardened, index_error, from_normal_index, from_hardened_index, from_u32,
  ExtendedPrivateKey, derive_public_path, derive_private_path, derive_private_child, private_data,
}
use cashweb_backends.Bitcoin.Bip32.Commutes.{child_number_lem, neuter, path_commutes}
use cashweb_backends.Bitcoin.Instances.{
  sum_digest, room_vec, room_is_vec, byte_keys, byte_keys_laws,
}
use cashweb_backends.Bitcoin.Tests.{small}

lotus_merkle_root_lem_example :
    (lotus_merkle_root sum_digest [] ≡ some (null_hash, 0))
    × ((x : Hash) (r : List Hash)
        → IsU64 (length (x ∷ r))
        → (k : ℕ) × (root : Hash) × (lotus_merkle_root sum_digest (x ∷ r) ≡ some (root, 1 + k))
          × IsRoot sum_digest (x ∷ r) k root)
lotus_merkle_root_lem_example = lotus_merkle_root_lem sum_digest

-- Three leaves have a root two levels up.
three_leaves :
    lotus_merkle_root sum_digest (replicate 32 1 ∷ replicate 32 2 ∷ replicate 32 3 ∷ [])
    ≡ some (replicate 32 32, 3)
unfolding lotus_merkle_root lotus_merkle_root_inline pair_loop pair_hash sha256d
three_leaves = refl

abbrev script : Script
script = record { raw = 0x52 ∷ [] }

anyone_can_pay_panics_example :
    (signature_hash sum_digest room_vec small 0 script any_all ≡ panic)
    × (signature_hash sum_digest room_vec small 0 script any_none ≡ panic)
    × (signature_hash sum_digest room_vec small 0 script any_single ≡ panic)
anyone_can_pay_panics_example = anyone_can_pay_panics sum_digest room_vec small 0 script

signature_hash-committed_example :
    (HasOutput small 0 sig_single
      → get_elem? small.inputs 0 ≡ none
      → signature_hash sum_digest room_vec small 0 script sig_single ≡ ok none)
    × ((input : Input)
        → HasOutput small 0 sig_single
        → get_elem? small.inputs 0 ≡ some input
        → length (encoding (committed small 0 input script sig_single)) < 2 ^ 63
        → signature_hash sum_digest room_vec small 0 script sig_single
          ≡ ok (
              some (
                sha256d sum_digest (
                  encoding (committed small 0 input script sig_single)
                  ++ to_le_bytes 4 (type_number sig_single)))))
    × (length small.outputs ≤ 0
        → signature_hash sum_digest room_vec small 0 script sig_single ≡ ok (some unit_hash))
signature_hash-committed_example =
    signature_hash-committed sum_digest room_vec room_is_vec small 0 script sig_single tt

transaction_id-rescript_example :
    (transaction_id sum_digest room_vec
        (record small { inputs = map (λ (i : Input). record i { script = script }) small.inputs })
      ≡ transaction_id sum_digest room_vec small)
    × (transaction_id_rev sum_digest room_vec
          (record small { inputs = map (λ (i : Input). record i { script = script }) small.inputs })
        ≡ transaction_id_rev sum_digest room_vec small)
transaction_id-rescript_example = transaction_id-rescript sum_digest room_vec small (λ i. script)

child_number_lem_example :
    (44 < 2 ^ 31
      → (from_normal_index 44 ≡ ok (normal 44))
        × (from_hardened_index 44 ≡ ok (hardened 44))
        × (from_u32 44 ≡ normal 44)
        × (from_u32 (44 + 2 ^ 31) ≡ hardened 44))
    × (2 ^ 31 ≤ 44
        → (from_normal_index 44 ≡ err (index_error 44))
          × (from_hardened_index 44 ≡ err (index_error 44)))
child_number_lem_example = child_number_lem 44 (omega arith)

abbrev root_key : ExtendedPrivateKey (List ℕ)
root_key = record { private_key = replicate 32 1; chain_code = replicate 32 2 }

abbrev child_key : ExtendedPrivateKey (List ℕ)
child_key = record { private_key = replicate 32 73; chain_code = replicate 32 36 }

path_commutes_example :
    derive_public_path byte_keys
      (neuter byte_keys byte_keys_laws root_key)
      (normal 44 ∷ normal 145 ∷ [])
    ≡ ok (neuter byte_keys byte_keys_laws child_key)
unfolding derive_private_path derive_private_child private_data
path_commutes_example =
    path_commutes byte_keys byte_keys_laws {E = Unit {0}} (normal 44 ∷ normal 145 ∷ []) root_key
      child_key (tt, (tt, tt)) refl
