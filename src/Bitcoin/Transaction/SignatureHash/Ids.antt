-- ===== src/Bitcoin/Transaction/SignatureHash/Ids.antt =====
-- Hashes and IDs of transactions in closed form, and what an ID depends on.
use cashweb_backends.Common.{
  ℕ, ◌<◌, ◌^◌, ◌≡◌, refl, ap, List, [], ◌∷◌, ◌++◌, some, All, length, map, reverse, to_le_bytes,
  arith,
}
use cashweb_backends.Common.Exec.{Outcome, ok, and_then}
use cashweb_backends.Bitcoin.Buf.{BufMut, IsBufMut}
use cashweb_backends.Bitcoin.Buf.Writes.{Writes-then, Writes-uint}
use cashweb_backends.Bitcoin.Buf.ByteVec.{ByteVec, IsByteVec, write_to_vec_lem}
use cashweb_backends.Bitcoin.Merkle.{Hash, sha256d, lotus_merkle_root}
use cashweb_backends.Bitcoin.Transaction.{Transaction}
use cashweb_backends.Bitcoin.Transaction.Encoding.{encoding, encode_raw-Writes}
use cashweb_backends.Bitcoin.Transaction.Script.{Script}
use cashweb_backends.Bitcoin.Transaction.Outpoint.Encoding as OutpointEncoding
use cashweb_backends.Bitcoin.Transaction.Input.{Input}
use cashweb_backends.Bitcoin.Transaction.Output.Encoding as OutputEncoding
use cashweb_backends.Bitcoin.Transaction.SignatureHash.{
  Never, leaves, input_leaf, output_leaf, raw_transaction_hash, raw_transaction_hash_rev,
  transaction_hash, transaction_hash_rev, transaction_id, transaction_id_rev,
}

-- The part of an input that an ID commits to.
abbrev pub input_id_bytes : Input → List ℕ
input_id_bytes i = OutpointEncoding.encoding i.outpoint ++ to_le_bytes 4 i.sequence

abbrev pub Fits : List ℕ → Type 0
Fits xs = length xs < 2 ^ 63

module _ (sha256 : List ℕ → Hash) {W : Type 0} ⦃buf : BufMut W⦄ (vec : ByteVec W) where
  leaves-rescript :
      (f : Input → Script) (xs : List Input)
      → leaves sha256 vec
          (input_leaf sha256 vec)
          (map (λ (i : Input). record i { script = f i }) xs)
        ≡ leaves sha256 vec (input_leaf sha256 vec) xs
  unfolding leaves
  leaves-rescript f [] = refl
  leaves-rescript f (x ∷ xs) =
      ap
        (λ rest.
          and_then (input_leaf sha256 vec x)
            λ raw. and_then rest λ hashes. ok (sha256d sha256 raw ∷ hashes))
        (leaves-rescript f xs)

  -- A transaction keeps its ID when the scripts of its inputs are replaced by any others: who signs
  -- or re-signs a transaction cannot change its ID.
  pub transaction_id-rescript :
      (tx : Transaction) (f : Input → Script)
      → (transaction_id sha256 vec
            (record tx { inputs = map (λ (i : Input). record i { script = f i }) tx.inputs })
          ≡ transaction_id sha256 vec tx)
        × (transaction_id_rev sha256 vec
              (record tx { inputs = map (λ (i : Input). record i { script = f i }) tx.inputs })
            ≡ transaction_id_rev sha256 vec tx)
  unfolding transaction_id transaction_id_rev
  transaction_id-rescript tx f = rw (leaves-rescript f tx.inputs) (refl, refl)

  module _ {laws : IsBufMut buf} (is_vec : IsByteVec laws vec) where
    leaves-map :
        {A : Type 0} (item : A → Outcome Never (List ℕ)) (bytes : A → List ℕ)
        → ((a : A) → Fits (bytes a) → item a ≡ ok (bytes a))
        → (xs : List A) → All (λ a. Fits (bytes a)) xs
        → leaves sha256 vec item xs ≡ ok (map (λ a. sha256d sha256 (bytes a)) xs)
    unfolding leaves
    leaves-map item bytes each [] h = refl
    leaves-map item bytes each (x ∷ xs) h = rw (each x h.0, leaves-map item bytes each xs h.1)

    -- The ID is the double SHA-256 of the version, the root and the height of the inputs' tree, the
    -- root and the height of the outputs' tree and the lock time. A leaf is the double SHA-256 of an
    -- outpoint with its sequence number, or of an encoded output. It is returned for every
    -- transaction with fewer than 2 ^ 63 bytes a leaf whose two trees have roots.
    pub transaction_id_lem :
        (tx : Transaction) (r s : Hash) (h k : ℕ)
        → All (λ i. Fits (input_id_bytes i)) tx.inputs
        → All (λ o. Fits (OutputEncoding.encoding o)) tx.outputs
        → lotus_merkle_root sha256 (map (λ i. sha256d sha256 (input_id_bytes i)) tx.inputs)
          ≡ some (r, h)
        → lotus_merkle_root sha256
            (map (λ o. sha256d sha256 (OutputEncoding.encoding o)) tx.outputs)
          ≡ some (s, k)
        → transaction_id sha256 vec tx
          ≡ ok (
              sha256d sha256
                (to_le_bytes 4 tx.version ++ (r ++ (h ∷ (s ++ (k ∷ to_le_bytes 4 tx.lock_time))))))
    unfolding transaction_id
    transaction_id_lem tx r s h k fit_in fit_out root_in root_out =
        let ins =
          leaves-map (input_leaf sha256 vec) input_id_bytes
            (λ i fits.
              write_to_vec_lem is_vec
                (Writes-then _ (OutpointEncoding.encode_raw-Writes laws i.outpoint)
                  (Writes-uint i.sequence 4))
                fits)
            tx.inputs fit_in in
        let outs =
          leaves-map (output_leaf sha256 vec) OutputEncoding.encoding
            (λ o fits. write_to_vec_lem is_vec (OutputEncoding.encode_raw-Writes laws o) fits)
            tx.outputs fit_out in
        rw (
          write_to_vec_lem is_vec (Writes-uint tx.version 4) (omega arith),
          ins,
          root_in,
          outs,
          root_out,
          write_to_vec_lem is_vec (Writes-uint tx.lock_time 4) (omega arith),
        )

    -- Both methods return the double SHA-256 of the encoding, in one and the same byte order, and only
    -- the function on raw bytes reverses it.
    pub transaction_hash_lem :
        (tx : Transaction)
        → Fits (encoding tx)
        → (transaction_hash sha256 vec tx ≡ ok (sha256d sha256 (encoding tx)))
          × (transaction_hash_rev sha256 vec tx ≡ ok (sha256d sha256 (encoding tx)))
          × (raw_transaction_hash_rev sha256 vec (encoding tx)
              ≡ reverse (sha256d sha256 (encoding tx)))
    unfolding transaction_hash transaction_hash_rev raw_transaction_hash raw_transaction_hash_rev
    transaction_hash_lem tx fits =
        let e = write_to_vec_lem {E = Never} is_vec (encode_raw-Writes laws tx) fits in
        (rw e, rw e, refl)
