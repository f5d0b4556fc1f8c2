-- ===== src/Token/ChainCommitment/Commits.antt =====
-- What a valid token shows, and that a constructed token is valid.
use cashweb_backends.Common.{
  ℕ, ◌≡◌, ◌↔◌, refl, sym, ap, ◌∙◌, List, [], ◌∷◌, ◌++◌, some, Bool, true, false, not, ◌||◌,
  if◌then◌else◌, ◌==◌, ==_iff, length, take, drop, get_elem?, bytes_eq, bytes_eq→eq, bytes_eq_refl,
  from_le_bytes, subst, arith, take_all,
}
use cashweb_backends.Common.Exec.{Outcome, ok, err, map_err, ok_or}
use cashweb_backends.Common.Exec.Rules.{
  and_then-eq-ok, map_err-eq-ok, ok_or-eq-ok, value-eq-ok, if-ok-eq-ok,
}
use cashweb_backends.Bitcoin.Transaction.{Transaction}
use cashweb_backends.Bitcoin.Transaction.Output.{Output}
use cashweb_backends.Bitcoin.Transaction.Script.{Script, is_op_return, op_return}
use cashweb_backends.Token.HmacBearer.{Base64}
use cashweb_backends.Token.ChainCommitment.{
  Chain, base64_error, node_error, transaction_error, not_op_return, incorrect_length, invalid,
  output_not_found, construct_commitment, decode_slice, check_script, check_length, validate_token,
}

-- The one script that commits to a hash of 32 bytes.
abbrev pub commitment_script : List ℕ → Script
commitment_script commitment = record { raw = op_return ∷ 32 ∷ commitment }

checks_passed :
    {E : Type 0} (a b c : Bool) (d e f : E)
    → ◌≡◌ {A = Outcome E (Unit {0})}
        (if a then err d else if b then err e else if c then err f else ok tt)
        (ok tt)
    → (a ≡ false) × (b ≡ false) × (c ≡ false)
checks_passed true b c d e f h = cc
checks_passed false true c d e f h = cc
checks_passed false false true d e f h = cc
checks_passed false false false d e f h = (refl, refl, refl)

module _ (base64 : Base64) (chain : Chain) where
  check_raw-ok :
      (raw commitment : List ℕ)
      → check_script base64 chain (record { raw = raw }) commitment ≡ ok tt
      → raw ≡ op_return ∷ 32 ∷ commitment
  unfolding check_script is_op_return
  check_raw-ok [] commitment h = cc h
  check_raw-ok (a ∷ []) commitment h = ground (arith, h)
  check_raw-ok (a ∷ b ∷ raw) commitment h =
      let (o, l, c) =
        checks_passed (not (a == op_return)) (not (length (a ∷ b ∷ raw) == 34) || not (b == 32))
          (not (bytes_eq commitment (take 32 raw))) not_op_return incorrect_length invalid h in
      let e_a : a ≡ op_return = ground (arith, o) in
      let e_b : b ≡ 32 = ground (arith, l) in
      let len : length raw ≡ 32 = ground (arith, l) in
      let found : bytes_eq commitment (take 32 raw) ≡ true = ground (arith, c) in
      let same : raw ≡ commitment =
        sym (bytes_eq→eq commitment (take 32 raw) found ∙ take_all 32 raw len) in
      rw (e_a, e_b, same) refl

  check_script-commitment :
      (commitment : List ℕ)
      → length commitment ≡ 32
      → check_script base64 chain (commitment_script commitment) commitment ≡ ok tt
  unfolding check_script is_op_return
  check_script-commitment commitment len =
      rw (len, take_all 32 commitment len, bytes_eq_refl commitment) refl

  -- A token validates exactly when it decodes to an outpoint of 36 bytes, the node has a transaction
  -- of that ID which decodes, and the output at that index has the script that commits to the digest
  -- of both hashes, and no other script. The result is the outpoint's bytes.
  pub validate_token_iff :
      ((xs : List ℕ) → length (chain.sha256 xs) ≡ 32)
      → (pub_key_hash address_metadata_hash token raw : List ℕ)
      → (validate_token base64 chain pub_key_hash address_metadata_hash token ≡ ok raw) ↔ (
          (base64.decode token ≡ ok raw)
          × (length raw ≡ 36)
          × (raw_transaction : List ℕ) × (transaction : Transaction) × (output : Output)
          × (chain.get_raw_transaction (take 32 raw) ≡ ok raw_transaction)
          × (decode_slice base64 chain raw_transaction ≡ ok transaction)
          × (get_elem? transaction.outputs (from_le_bytes (take 4 (drop 32 raw))) ≡ some output)
          × (output.script
              ≡ commitment_script
                  (construct_commitment base64 chain pub_key_hash address_metadata_hash)))
  unfolding validate_token check_length construct_commitment
  validate_token_iff sha256_len pub_key_hash address_metadata_hash token raw = (
    λ h.
        let (raw', d, h1) = and_then-eq-ok (map_err base64_error (base64.decode token)) _ h in
        let (u, l, h2) = and_then-eq-ok (check_length base64 chain raw') _ h1 in
        let (raw_transaction, g, h3) =
          and_then-eq-ok (map_err node_error (chain.get_raw_transaction (take 32 raw'))) _ h2 in
        let (transaction, t, h4) =
          and_then-eq-ok (map_err transaction_error (decode_slice base64 chain raw_transaction)) _
            h3 in
        let (output, o, h5) =
          and_then-eq-ok
            (ok_or (get_elem? transaction.outputs (from_le_bytes (take 4 (drop 32 raw'))))
              output_not_found)
            _ h4 in
        let (v, c, h6) =
          and_then-eq-ok
            (check_script base64 chain output.script
              (construct_commitment base64 chain pub_key_hash address_metadata_hash))
            _ h5 in
        let same : raw' ≡ raw = value-eq-ok (ok raw') h6 in
        subst
          (λ r.
            (base64.decode token ≡ ok r)
            × (length r ≡ 36)
            × (raw_transaction : List ℕ) × (transaction : Transaction) × (output : Output)
            × (chain.get_raw_transaction (take 32 r) ≡ ok raw_transaction)
            × (decode_slice base64 chain raw_transaction ≡ ok transaction)
            × (get_elem? transaction.outputs (from_le_bytes (take 4 (drop 32 r))) ≡ some output)
            × (output.script
                ≡ commitment_script
                    (construct_commitment base64 chain pub_key_hash address_metadata_hash)))
          same
          (
            map_err-eq-ok _ _ d,
            (==_iff _ _).0 (if-ok-eq-ok (length raw' == 36) _ _ l).0,
            raw_transaction,
            transaction,
            output,
            map_err-eq-ok _ _ g,
            map_err-eq-ok _ _ t,
            ok_or-eq-ok _ _ o,
            ap (λ xs. record { raw = xs }) (check_raw-ok output.script.raw _ c),
          ),
    λ (d, len, raw_transaction, transaction, output, g, t, o, script).
        let valid : check_script base64 chain output.script
              (chain.sha256 (pub_key_hash ++ address_metadata_hash))
            ≡ ok tt =
          subst
            (λ s.
              check_script base64 chain s (chain.sha256 (pub_key_hash ++ address_metadata_hash))
              ≡ ok tt)
            (sym script) (check_script-commitment _ (sha256_len _)) in
        rw (d, len, g, t, o, valid) refl,
  )
