-- ===== src/Relay/Stamp/Keys.antt =====
-- A sender who pays to the keys that `create_stamp_private_keys` makes has a stamp that verifies.
use cashweb_backends.Common.{
  ℕ, zero, suc, ◌+◌, ◌^◌, ◌%◌, ◌<◌, ◌≤◌, ◌≡◌, refl, sym, ap, ◌∙◌, List, [], ◌∷◌, some, get_elem?,
  arith, subst, length, All, IsU32, IsBytes, append-nil,
}
use cashweb_backends.Common.Exec.{ok, and_then}
use cashweb_backends.Common.Exec.Rules.{and_then-eq-ok, map_err-eq-ok, value-eq-ok}
use cashweb_backends.Bitcoin.Buf.{IsBuf}
use cashweb_backends.Bitcoin.Secp.{IsSecp}
use cashweb_backends.Bitcoin.Transaction.{Transaction}
use cashweb_backends.Bitcoin.Transaction.Encoding.{encoding, IsValid}
use cashweb_backends.Bitcoin.Transaction.Wire.{decode-encoding}
use cashweb_backends.Bitcoin.Transaction.Output.{Output}
use cashweb_backends.Bitcoin.Transaction.Script.P2pkh.{
  p2pkh_script, p2pkh_script-is_p2pkh, p2pkh_script-hash,
}
use cashweb_backends.Bitcoin.Bip32.{
  normal, from_normal_index, new_master_public, new_master_private, ExtendedPrivateKey,
  derive_private_child,
}
use cashweb_backends.Bitcoin.Bip32.Commutes.{neuter, child_commutes, path_commutes}
use cashweb_backends.Relay.Stamp.{
  Crypto, StampOutpoints, StampKeyError, message_commitment, hash160, decode_slice,
  intermediate_public, verify_stamp, create_keys, create_outputs, create_stamp_private_keys,
}
use cashweb_backends.Relay.Stamp.Covers.{
  from_index_iff, low32, CoversOutput, CoversOutputs, Covers, verify_stamp_iff,
}

-- What the documentation states of the parameters: RIPEMD-160 has 20 bytes, and a slice has its bytes.
pub record IsCrypto (crypto : Crypto) : Type 0 where
  pub secp_laws : IsSecp crypto.secp
  pub slice_laws : IsBuf crypto.slice_buf
  pub as_slice_lem : (xs : List ℕ) → IsBytes xs → slice_laws.bytes (crypto.as_slice xs) ≡ xs
  pub ripemd160_len : (xs : List ℕ) → length (crypto.ripemd160 xs) ≡ 20

in_range : (index n : ℕ) → index + suc n ≤ 2 ^ 32 → index < 2 ^ 32
in_range index n b = omega arith

module _ (crypto : Crypto) (laws : IsCrypto crypto) where
  open crypto use {secp}
  open secp use {PublicKey, SecretKey, serialize, from_secret_key, secret_from_slice}

  -- The output at each index pays to the key in the same place.
  abbrev pub PaysOutputs : List SecretKey → List ℕ → List Output → Type 0
  PaysOutputs [] [] outputs = Unit
  PaysOutputs (key ∷ keys) (vout ∷ vouts) outputs =
      ((output : Output) × (get_elem? outputs vout ≡ some output)
        × (output.script ≡ p2pkh_script (hash160 crypto (serialize (from_secret_key key)))))
      × PaysOutputs keys vouts outputs
  PaysOutputs _ _ outputs = ⊥

  -- Each outpoint holds the encoding of its transaction and names the outputs that pay to its keys.
  abbrev pub Pays : List (List SecretKey) → List StampOutpoints → List Transaction → Type 0
  Pays [] [] [] = Unit
  Pays (keys ∷ rest) (outpoint ∷ outpoints) (tx ∷ txs) =
      ((outpoint.stamp_tx ≡ encoding tx)
        × IsBytes outpoint.stamp_tx
        × IsValid tx
        × PaysOutputs keys outpoint.vouts tx.outputs)
      × Pays rest outpoints txs
  Pays _ _ _ = ⊥

  covers_output :
      {E : Type 0} (tx_child child : ExtendedPrivateKey SecretKey) (outputs : List Output)
      (index vout : ℕ) (output : Output)
      → index < 2 ^ 31
      → derive_private_child secp {E = E} tx_child (normal index) ≡ ok child
      → get_elem? outputs vout ≡ some output
      → output.script
        ≡ p2pkh_script (hash160 crypto (serialize (from_secret_key child.private_key)))
      → CoversOutput crypto (neuter secp laws.secp_laws tx_child) outputs index vout
  covers_output tx_child child outputs index vout output low derived e script =
      let same : index % 2 ^ 32 ≡ index = omega arith in
      let len =
        laws.ripemd160_len (crypto.sha256 (serialize (from_secret_key child.private_key))) in
      (
        output,
        neuter secp laws.secp_laws child,
        e,
        rw script (p2pkh_script-is_p2pkh _ len),
        rw same low,
        rw same (child_commutes secp laws.secp_laws tx_child child index derived),
        rw script (sym (p2pkh_script-hash _ len)),
      )

  create_keys-cover :
      (tx_child : ExtendedPrivateKey SecretKey) (outputs : List Output) (index n : ℕ)
      (keys : List SecretKey) (vouts : List ℕ)
      → index + n ≤ 2 ^ 32
      → create_keys crypto tx_child index n ≡ ok keys
      → PaysOutputs keys vouts outputs
      → CoversOutputs crypto (neuter secp laws.secp_laws tx_child) outputs index vouts
  unfolding create_keys
  create_keys-cover tx_child outputs index zero keys [] b h pays = tt
  create_keys-cover tx_child outputs index zero keys (vout ∷ vouts) b h pays =
      let same : [] ≡ keys = value-eq-ok (ok []) h in
      absurd (subst (λ ks. PaysOutputs ks (vout ∷ vouts) outputs) (sym same) pays)
  create_keys-cover tx_child outputs index (suc n) keys [] b h pays = tt
  create_keys-cover tx_child outputs index (suc n) keys (vout ∷ vouts) b h pays =
      let more = λ (child : ExtendedPrivateKey SecretKey).
        and_then (create_keys crypto tx_child (index + 1) n)
          λ keys. ok (child.private_key ∷ keys) in
      let (num, e, h1) = and_then-eq-ok _ _ h in
      let (child, derived, h2) = and_then-eq-ok (derive_private_child secp tx_child num) more h1 in
      let (rest, others, h3) = and_then-eq-ok (create_keys crypto tx_child (index + 1) n) _ h2 in
      let same : child.private_key ∷ rest ≡ keys = value-eq-ok (ok (child.private_key ∷ rest)) h3 in
      let ((output, at, script), pays') =
        subst (λ ks. PaysOutputs ks (vout ∷ vouts) outputs) (sym same) pays in
      let (is_normal, low) =
        (from_index_iff index num (in_range index n b)).0 (map_err-eq-ok _ _ e) in
      (
        covers_output tx_child child outputs index vout output low
            (subst
              (λ c.
                derive_private_child secp {E = StampKeyError secp.SecpError} tx_child c ≡ ok child)
              is_normal derived)
            at script,
        create_keys-cover tx_child outputs (index + 1) n rest vouts (omega arith) others pays',
      )

  decodes :
      (outpoint : StampOutpoints) (tx : Transaction)
      → outpoint.stamp_tx ≡ encoding tx
      → IsBytes outpoint.stamp_tx
      → IsValid tx
      → decode_slice crypto outpoint.stamp_tx ≡ ok tx
  decodes outpoint tx e bytes v =
      let slice = crypto.as_slice outpoint.stamp_tx in
      let (rest, d, _) =
        decode-encoding ⦃buf = crypto.slice_buf⦄ laws.slice_laws tx v slice []
          (laws.as_slice_lem outpoint.stamp_tx bytes ∙ e ∙ sym (append-nil _)) in
      ap (λ r. r.0) d

  cover_outpoint :
      {E : Type 0} (intermediate tx_child : ExtendedPrivateKey SecretKey) (tx_num n : ℕ)
      (first : List SecretKey) (rest : List (List SecretKey)) (outpoints : List StampOutpoints)
      (txs : List Transaction)
      → tx_num % 2 ^ 32 < 2 ^ 31
      → derive_private_child secp {E = E} intermediate (normal (tx_num % 2 ^ 32)) ≡ ok tx_child
      → create_keys crypto tx_child 0 n ≡ ok first
      → n < 2 ^ 32
      → ((outpoints : List StampOutpoints) (txs : List Transaction)
          → Pays rest outpoints txs
          → Covers crypto (neuter secp laws.secp_laws intermediate) (tx_num + 1) outpoints txs)
      → Pays (first ∷ rest) outpoints txs
      → Covers crypto (neuter secp laws.secp_laws intermediate) tx_num outpoints txs
  cover_outpoint intermediate tx_child tx_num n first rest [] txs low derived made b others pays =
      absurd pays
  cover_outpoint intermediate tx_child tx_num n first rest (outpoint ∷ outpoints) [] low derived
        made b others pays =
      absurd pays
  cover_outpoint intermediate tx_child tx_num n first rest (outpoint ∷ outpoints) (tx ∷ txs) low
        derived made b others ((e, bytes, v, paid), pays) =
      (
        (
          neuter secp laws.secp_laws tx_child,
          decodes outpoint tx e bytes v,
          low,
          child_commutes secp laws.secp_laws intermediate tx_child (tx_num % 2 ^ 32) derived,
          create_keys-cover tx_child tx.outputs 0 n first outpoint.vouts (omega arith) made paid,
        ),
        others outpoints txs pays,
      )

  create_outputs-cover :
      (intermediate : ExtendedPrivateKey SecretKey) (tx_num : ℕ) (profile : List ℕ)
      (keys : List (List SecretKey)) (outpoints : List StampOutpoints) (txs : List Transaction)
      → All IsU32 profile
      → create_outputs crypto intermediate tx_num profile ≡ ok keys
      → Pays keys outpoints txs
      → Covers crypto (neuter secp laws.secp_laws intermediate) tx_num outpoints txs
  unfolding create_outputs
  create_outputs-cover intermediate tx_num [] keys [] [] b h pays = tt
  create_outputs-cover intermediate tx_num [] keys [] (tx ∷ txs) b h pays =
      let same : [] ≡ keys = value-eq-ok (ok []) h in
      absurd (subst (λ ks. Pays ks [] (tx ∷ txs)) (sym same) pays)
  create_outputs-cover intermediate tx_num [] keys (outpoint ∷ outpoints) txs b h pays =
      let same : [] ≡ keys = value-eq-ok (ok []) h in
      absurd (subst (λ ks. Pays ks (outpoint ∷ outpoints) txs) (sym same) pays)
  create_outputs-cover intermediate tx_num (n ∷ profile) keys outpoints txs b h pays =
      let more = λ (first : List SecretKey).
        and_then (create_outputs crypto intermediate (tx_num + 1) profile)
          λ rest. ok (first ∷ rest) in
      let (num, e, h1) = and_then-eq-ok _ _ h in
      let (tx_child, derived, h2) =
        and_then-eq-ok (derive_private_child secp intermediate num)
          (λ child. and_then (create_keys crypto child 0 n) more) h1 in
      let (first, made, h3) = and_then-eq-ok (create_keys crypto tx_child 0 n) more h2 in
      let (rest, others, h4) =
        and_then-eq-ok (create_outputs crypto intermediate (tx_num + 1) profile) _ h3 in
      let same : first ∷ rest ≡ keys = value-eq-ok (ok (first ∷ rest)) h4 in
      let (is_normal, low) =
        (from_index_iff (tx_num % 2 ^ 32) num (low32 tx_num)).0 (map_err-eq-ok _ _ e) in
      cover_outpoint intermediate tx_child tx_num n first rest outpoints txs low
        (subst
          (λ c.
            derive_private_child secp {E = StampKeyError secp.SecpError} intermediate c
            ≡ ok tx_child)
          is_normal derived)
        made b.0
        (λ os ts. create_outputs-cover intermediate (tx_num + 1) profile rest os ts b.1 others)
        (subst (λ ks. Pays ks outpoints txs) (sym same) pays)

  -- A stamp whose outputs pay to the keys that `create_stamp_private_keys` returns for a private key
  -- and a digest verifies, for that digest and the public key of that private key, and the
  -- transactions come back. The digest has to be a valid secret key, as the code takes it to be, and
  -- each transaction has to be one that the encoding carries.
  pub create_stamp_private_keys-verify_stamp :
      (private_key payload_key : SecretKey) (digest profile : List ℕ) (keys : List (List SecretKey))
      (outpoints : List StampOutpoints) (txs : List Transaction)
      → secret_from_slice digest ≡ ok payload_key
      → All IsU32 profile
      → create_stamp_private_keys crypto private_key digest profile ≡ ok keys
      → Pays keys outpoints txs
      → verify_stamp crypto outpoints digest (from_secret_key private_key) message_commitment
        ≡ ok txs
  unfolding create_stamp_private_keys intermediate_public from_normal_index new_master_public
      new_master_private
  create_stamp_private_keys-verify_stamp private_key payload_key digest profile keys outpoints txs
        valid b h pays =
      let (sum_key, e, h1) = and_then-eq-ok _ _ h in
      let (intermediate, derived, h2) = and_then-eq-ok _ _ h1 in
      let bytes : secp.secret_bytes payload_key ≡ digest =
        laws.secp_laws.secret_from_slice_lem digest payload_key valid in
      let added =
        subst (λ xs. secp.add_assign private_key xs ≡ ok sum_key) (sym bytes)
          (map_err-eq-ok _ _ e) in
      let combined = laws.secp_laws.combine_lem private_key payload_key sum_key added in
      let path = path_commutes secp laws.secp_laws _ _ intermediate (tt, (tt, tt)) derived in
      (verify_stamp_iff crypto outpoints digest (from_secret_key private_key) txs).0.1 (
        neuter secp laws.secp_laws intermediate,
        rw (valid, combined, path) refl,
        create_outputs-cover intermediate 0 profile keys outpoints txs b h2 pays,
      )
