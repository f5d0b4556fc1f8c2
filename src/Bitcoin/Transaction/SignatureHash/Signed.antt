-- ===== src/Bitcoin/Transaction/SignatureHash/Signed.antt =====
-- What each signature hash type commits to.
use mathlib.Core.Option
use cashweb_backends.Common.{
  ℕ, zero, suc, ◌+◌, ◌≤◌, ◌<◌, ◌^◌, ◌≡◌, refl, ap, ◌∙◌, List, [], ◌∷◌, ◌++◌, none, some, false,
  length, replicate, take, drop, get_elem?, leb, le→leb, ◌&&◌, ◌==◌, ==_iff, if◌then◌else◌,
  to_le_bytes, arith,
}
use cashweb_backends.Common.Exec.{ok, panic, and_then}
use cashweb_backends.Bitcoin.Buf.{BufMut, IsBufMut}
use cashweb_backends.Bitcoin.Buf.ByteVec.{ByteVec, IsByteVec, write_to_vec_lem}
use cashweb_backends.Bitcoin.Merkle.{Hash, sha256d}
use cashweb_backends.Bitcoin.Transaction.{Transaction}
use cashweb_backends.Bitcoin.Transaction.Encoding.{encoding, encode_raw-Writes}
use cashweb_backends.Bitcoin.Transaction.Script.{Script}
use cashweb_backends.Bitcoin.Transaction.Input.{Input}
use cashweb_backends.Bitcoin.Transaction.Output
use cashweb_backends.Bitcoin.Transaction.Output.{Output}
use cashweb_backends.Bitcoin.Transaction.SignatureHash.{
  SignatureHashType, sig_all, sig_none, sig_single, any_all, any_none, any_single, type_number,
  is_anyone_can_pay, map_enumerate, unit_hash, signed_inputs, signed_outputs, hash_signed,
  hash_inputs, signature_hash, is_single,
}

-- The outputs that a type without `AnyoneCanPay` in its name commits to.
abbrev pub committed_outputs : Transaction → ℕ → SignatureHashType → List Output
committed_outputs tx i sig_all = tx.outputs
committed_outputs tx i sig_single = replicate i Output.default ++ take 1 (drop i tx.outputs)
committed_outputs tx i _ = []

-- One input alone, with the script that it spends in place of its own.
abbrev pub committed : Transaction → ℕ → Input → Script → SignatureHashType → Transaction
committed tx i input script t = record {
  version = tx.version;
  inputs = record input { script = script } ∷ [];
  outputs = committed_outputs tx i t;
  lock_time = tx.lock_time;
}

abbrev pub IsPlain : SignatureHashType → Type 0
IsPlain sig_all = Unit
IsPlain sig_none = Unit
IsPlain sig_single = Unit
IsPlain _ = ⊥

-- An index that the special case of `SINGLE` does not catch.
abbrev pub HasOutput : Transaction → ℕ → SignatureHashType → Type 0
HasOutput tx i sig_single = i < length tx.outputs
HasOutput tx i _ = Unit

abbrev only : ℕ → ℕ → Output → Output
only i local_index output = if local_index == i then output else Output.default

map_enumerate-only :
    (i j k : ℕ) (outs : List Output)
    → j + k ≡ i
    → k < length outs
    → map_enumerate j (only i) (take (suc k) outs)
      ≡ replicate k Output.default ++ take 1 (drop k outs)
map_enumerate-only i j k [] e h = absurd (omega arith)
map_enumerate-only i j zero (o ∷ outs) e h = rw ((==_iff j i).1 (omega arith))
map_enumerate-only i j (suc k) (o ∷ outs) e h =
    let other : (j == i) ≡ false = ground arith in
    rw other (
      ap (λ t. Output.default ∷ t)
        (map_enumerate-only i (j + 1) k outs (omega arith) (omega arith)))

outputs_lem :
    (tx : Transaction) (i : ℕ) (t : SignatureHashType)
    → IsPlain t
    → HasOutput tx i t
    → signed_outputs tx i t ≡ ok (committed_outputs tx i t)
unfolding signed_outputs
outputs_lem tx i sig_all p h = refl
outputs_lem tx i sig_none p h = refl
outputs_lem tx i sig_single p h =
    let next : i + 1 ≡ suc i = omega arith in
    rw next (ap ok (map_enumerate-only i 0 i tx.outputs (omega arith) h))
outputs_lem tx i any_all p h = absurd p
outputs_lem tx i any_none p h = absurd p
outputs_lem tx i any_single p h = absurd p

past_guard :
    (tx : Transaction) (i : ℕ) (t : SignatureHashType)
    → HasOutput tx i t
    → (is_single t && leb (length tx.outputs) i) ≡ false
past_guard tx i sig_single h = ground arith
past_guard tx i sig_all h = refl
past_guard tx i sig_none h = refl
past_guard tx i any_all h = refl
past_guard tx i any_none h = refl
past_guard tx i any_single h = refl

inputs_lem :
    (tx : Transaction) (i : ℕ) (script : Script) (t : SignatureHashType)
    → IsPlain t
    → signed_inputs tx i script t
      ≡ Option.map
          (λ (input : Input). record input { script = script } ∷ [])
          (get_elem? tx.inputs i)
unfolding signed_inputs is_anyone_can_pay
inputs_lem tx i script sig_all p = refl
inputs_lem tx i script sig_none p = refl
inputs_lem tx i script sig_single p = refl
inputs_lem tx i script any_all p = absurd p
inputs_lem tx i script any_none p = absurd p
inputs_lem tx i script any_single p = absurd p

module _ (sha256 : List ℕ → Hash) {W : Type 0} ⦃buf : BufMut W⦄ (vec : ByteVec W) where
  -- With each of the three types that let anyone pay, `signature_hash` panics, whatever the
  -- transaction, the index and the script are.
  pub anyone_can_pay_panics :
      (tx : Transaction) (i : ℕ) (script : Script)
      → (signature_hash sha256 vec tx i script any_all ≡ panic)
        × (signature_hash sha256 vec tx i script any_none ≡ panic)
        × (signature_hash sha256 vec tx i script any_single ≡ panic)
  unfolding signature_hash hash_inputs signed_inputs signed_outputs is_anyone_can_pay
  anyone_can_pay_panics tx i script = (refl, refl, refl)

  module _ {laws : IsBufMut buf} (is_vec : IsByteVec laws vec) where
    hash_signed_lem :
        (tx : Transaction) (t : SignatureHashType)
        → length (encoding tx) < 2 ^ 63
        → hash_signed sha256 vec tx t
          ≡ ok (some (sha256d sha256 (encoding tx ++ to_le_bytes 4 (type_number t))))
    unfolding hash_signed
    hash_signed_lem tx t h =
        ap
          (λ r.
            and_then r (λ raw. ok (some (sha256d sha256 (raw ++ to_le_bytes 4 (type_number t))))))
          (write_to_vec_lem is_vec (encode_raw-Writes laws tx) h)

    -- With `ALL`, `NONE` and `SINGLE` the hash commits to one input alone, the one at the index, with
    -- the given script. To `ALL` belong all outputs, to `NONE` none, to `SINGLE` the output at the
    -- index behind default outputs. A missing input gives no hash; `SINGLE` at an index with no
    -- output gives the constant hash one.
    pub signature_hash-committed :
        (tx : Transaction) (i : ℕ) (script : Script) (t : SignatureHashType)
        → IsPlain t
        → (HasOutput tx i t
            → get_elem? tx.inputs i ≡ none
            → signature_hash sha256 vec tx i script t ≡ ok none)
          × ((input : Input)
              → HasOutput tx i t
              → get_elem? tx.inputs i ≡ some input
              → length (encoding (committed tx i input script t)) < 2 ^ 63
              → signature_hash sha256 vec tx i script t
                ≡ ok (
                    some (
                      sha256d sha256 (
                        encoding (committed tx i input script t)
                        ++ to_le_bytes 4 (type_number t)))))
          × (length tx.outputs ≤ i
              → signature_hash sha256 vec tx i script sig_single ≡ ok (some unit_hash))
    unfolding signature_hash hash_inputs
    signature_hash-committed tx i script t p = (
      λ has missing. rw (past_guard tx i t has) (
          ap (hash_inputs sha256 vec tx i t)
            (inputs_lem tx i script t p ∙ ap (Option.map _) missing)),
      λ input has there fits. rw (past_guard tx i t has) (
          ap (hash_inputs sha256 vec tx i t) (inputs_lem tx i script t p ∙ ap (Option.map _) there)
          ∙ ap
              (λ r. and_then r (λ outs.
                hash_signed sha256 vec (record (committed tx i input script t) { outputs = outs })
                  t))
              (outputs_lem tx i t p has)
          ∙ hash_signed_lem (committed tx i input script t) t fits),
      λ beyond. rw (le→leb _ _ beyond),
    )
