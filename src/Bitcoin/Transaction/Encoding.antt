-- ===== src/Bitcoin/Transaction/Encoding.antt =====
-- The wire format of transactions, and what the coders do with it.
use cashweb_backends.Common.{
  ℕ, ◌≡◌, refl, List, [], ◌∷◌, ◌++◌, length, length-append, arith, All, concat_map, sum, map, IsU32,
  IsU64, to_le_bytes,
}
use cashweb_backends.Common.Exec.{Exec}
use cashweb_backends.Bitcoin.Buf.{BufMut, IsBufMut}
use cashweb_backends.Bitcoin.Buf.Writes.{Writes, Writes-nothing, Writes-then, Writes-uint}
use cashweb_backends.Bitcoin.VarInt.{VarInt}
use cashweb_backends.Bitcoin.VarInt.Encoding as VarIntEncoding
use cashweb_backends.Bitcoin.Transaction.Input.{Input}
use cashweb_backends.Bitcoin.Transaction.Input
use cashweb_backends.Bitcoin.Transaction.Input.Encoding as InputEncoding
use cashweb_backends.Bitcoin.Transaction.Output.{Output}
use cashweb_backends.Bitcoin.Transaction.Output
use cashweb_backends.Bitcoin.Transaction.Output.Encoding as OutputEncoding
use cashweb_backends.Bitcoin.Transaction.{Transaction, for_each, encoded_len, encode_raw}

unfoldable pub encoding : Transaction → List ℕ
encoding tx =
    to_le_bytes 4 tx.version
    ++ (VarIntEncoding.encoding (record { num = length tx.inputs })
        ++ (concat_map InputEncoding.encoding tx.inputs
            ++ (VarIntEncoding.encoding (record { num = length tx.outputs })
                ++ (concat_map OutputEncoding.encoding tx.outputs ++ to_le_bytes 4 tx.lock_time))))

-- The ranges of the Rust types, at every depth.
pub record IsValid (tx : Transaction) : Type 0 where
  pub version_u32 : IsU32 tx.version
  pub inputs_valid : All InputEncoding.IsValid tx.inputs
  pub inputs_u64 : IsU64 (length tx.inputs)
  pub outputs_valid : All OutputEncoding.IsValid tx.outputs
  pub outputs_u64 : IsU64 (length tx.outputs)
  pub lock_time_u32 : IsU32 tx.lock_time

module _ {A : Type 0} (len : A → ℕ) (enc : A → List ℕ) (P : A → Type 0)
    (each : (a : A) → P a → len a ≡ length (enc a)) where
  sum-map-len : (xs : List A) → All P xs → sum (map len xs) ≡ length (concat_map enc xs)
  sum-map-len [] h = refl
  sum-map-len (x ∷ xs) h =
      omega (arith, each x h.0, sum-map-len xs h.1, length-append (enc x) (concat_map enc xs))

pub encoded_len-encoding : (tx : Transaction) → IsValid tx → encoded_len tx ≡ length (encoding tx)
unfolding encoded_len encoding
encoded_len-encoding tx v =
    let ins = concat_map InputEncoding.encoding tx.inputs in
    let outs = concat_map OutputEncoding.encoding tx.outputs in
    let n_in : VarInt = record { num = length tx.inputs } in
    let n_out : VarInt = record { num = length tx.outputs } in
    let e =
      sum-map-len Input.encoded_len InputEncoding.encoding InputEncoding.IsValid
        InputEncoding.encoded_len-encoding tx.inputs v.inputs_valid in
    let f =
      sum-map-len Output.encoded_len OutputEncoding.encoding OutputEncoding.IsValid
        (λ o _. OutputEncoding.encoded_len-encoding o) tx.outputs v.outputs_valid in
    let back = outs ++ to_le_bytes 4 tx.lock_time in
    let middle = VarIntEncoding.encoding n_out ++ back in
    omega (
      arith,
      e,
      f,
      VarIntEncoding.encoded_len-encoding n_in,
      VarIntEncoding.encoded_len-encoding n_out,
      length-append (VarIntEncoding.encoding n_in) (ins ++ middle),
      length-append ins middle,
      length-append (VarIntEncoding.encoding n_out) back,
      length-append outs (to_le_bytes 4 tx.lock_time),
    )

module _ {W : Type 0} ⦃buf : BufMut W⦄ (laws : IsBufMut buf) {E : Type 0} where
  for_each-Writes :
      {A : Type 0} (body : A → Exec W E (Unit {0})) (enc : A → List ℕ)
      → ((a : A) → Writes laws (body a) (enc a))
      → (xs : List A) → Writes laws (for_each body xs) (concat_map enc xs)
  unfolding for_each
  for_each-Writes body enc each [] = Writes-nothing
  for_each-Writes body enc each (x ∷ xs) = Writes-then _ (each x) (for_each-Writes body enc each xs)

  pub encode_raw-Writes : (tx : Transaction) → Writes laws {E = E} (encode_raw tx) (encoding tx)
  unfolding encode_raw encoding
  encode_raw-Writes tx = Writes-then _ (Writes-uint tx.version 4) (
      Writes-then _ (VarIntEncoding.encode_raw-Writes laws _) (
        Writes-then _ (for_each-Writes _ _ (InputEncoding.encode_raw-Writes laws) tx.inputs) (
          Writes-then _ (VarIntEncoding.encode_raw-Writes laws _) (
            Writes-then _ (for_each-Writes _ _ (OutputEncoding.encode_raw-Writes laws) tx.outputs)
              (Writes-uint tx.lock_time 4)))))
