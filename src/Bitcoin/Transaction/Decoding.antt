-- ===== src/Bitcoin/Transaction/Decoding.antt =====
-- What the decoder of transactions reads back, and what it accepts.
use cashweb_backends.Common.{
  ℕ, zero, suc, ◌≡◌, refl, ap, List, [], ◌∷◌, length, arith, inr, append-nil, All, concat_map,
}
use cashweb_backends.Common.Exec.{Exec}
use cashweb_backends.Bitcoin.Buf.{Buf, IsBuf}
use cashweb_backends.Bitcoin.Buf.Reads.{
  Reads, Reads-pure, Reads-bind, Reads-bind_nil, Reads-le, Reads-require, Reads-mapping_err,
}
use cashweb_backends.Bitcoin.Buf.Parses.{
  Parses, Parses-pure, Parses-bind, Parses-require, Parses-uint, Parses-mapping_err,
}
use cashweb_backends.Bitcoin.VarInt.Encoding as VarIntEncoding
use cashweb_backends.Bitcoin.Transaction.Input.Encoding as InputEncoding
use cashweb_backends.Bitcoin.Transaction.Output.Encoding as OutputEncoding
use cashweb_backends.Bitcoin.Transaction.Encoding.{encoding, IsValid}
use cashweb_backends.Bitcoin.Transaction.{
  Transaction, version_too_short, input_count, input_error, output_count, output_error,
  lock_time_too_short, collect_times, decode,
}

module _ {B : Type 0} ⦃buf : Buf B⦄ (laws : IsBuf buf) {E A : Type 0} (item : Exec B E A)
    (enc : A → List ℕ) (P : A → Type 0) where
  collect_times-Reads :
      ((a : A) → P a → Reads laws item (enc a) a)
      → (xs : List A) → All P xs
      → Reads laws (collect_times (length xs) item) (concat_map enc xs) xs
  unfolding collect_times
  collect_times-Reads each [] h = Reads-pure []
  collect_times-Reads each (x ∷ xs) h =
      Reads-bind _ (each x h.0)
        (Reads-bind_nil _ (collect_times-Reads each xs h.1) (Reads-pure (x ∷ xs)))

  collect_times-Parses :
      Parses laws 0 item (λ a xs. (xs ≡ enc a) × P a)
      → (n : ℕ)
      → Parses laws 0
          (collect_times n item)
          (λ l xs. (xs ≡ concat_map enc l) × (length l ≡ n) × All P l)
  unfolding collect_times
  collect_times-Parses each zero = Parses-pure 0 [] (refl, refl, tt)
  collect_times-Parses each (suc n) = Parses-bind _ 0 each λ x xs (ex, px). (
    inr refl,
    Parses-bind _ 0 (collect_times-Parses each n) λ l ys (ey, len, pl). (
      inr refl,
      Parses-pure 0 _ (rw (ex, ey, append-nil (concat_map enc l)) refl, ap suc len, (px, pl)),
    ),
  )

module _ {B : Type 0} ⦃buf : Buf B⦄ (laws : IsBuf buf) where
  pub decode-Reads : (tx : Transaction) → IsValid tx → Reads laws decode (encoding tx) tx
  unfolding decode encoding
  decode-Reads tx v = Reads-require 4 version_too_short (omega arith) (
      Reads-bind _ (Reads-le 4 tx.version v.version_u32) (
        Reads-bind _
          (Reads-mapping_err input_count (VarIntEncoding.decode-Reads laws _ v.inputs_u64))
          (Reads-bind _
            (Reads-mapping_err input_error (
              collect_times-Reads laws _ _ InputEncoding.IsValid (InputEncoding.decode-Reads laws)
                tx.inputs v.inputs_valid))
            (Reads-bind _
              (Reads-mapping_err output_count (VarIntEncoding.decode-Reads laws _ v.outputs_u64))
              (Reads-bind _
                (Reads-mapping_err output_error (
                  collect_times-Reads laws _ _ OutputEncoding.IsValid
                    (OutputEncoding.decode-Reads laws) tx.outputs v.outputs_valid))
                (Reads-require 4 lock_time_too_short (omega arith)
                  (Reads-bind _ (Reads-le 4 tx.lock_time v.lock_time_u32) (Reads-pure tx))))))))

  pub decode-Parses : Parses laws 0 decode (λ tx xs. (xs ≡ encoding tx) × IsValid tx)
  unfolding decode encoding
  decode-Parses = Parses-require 4 version_too_short (
      Parses-bind _ 0 (Parses-uint 4) λ version xs (ex, lt). (
        inr refl,
        Parses-bind _ 0 (Parses-mapping_err input_count (VarIntEncoding.decode-Parses laws))
            λ n ys (ey, fits). (
              inr refl,
              Parses-bind _ 0
                  (Parses-mapping_err input_error (
                    collect_times-Parses laws _ _ InputEncoding.IsValid
                      (InputEncoding.decode-Parses laws) n.num))
                  λ ins zs (ez, full, good). (
                    inr refl,
                    Parses-bind _ 0
                        (Parses-mapping_err output_count (VarIntEncoding.decode-Parses laws))
                        λ m us (eu, fits'). (
                          inr refl,
                          Parses-bind _ 0
                              (Parses-mapping_err output_error (
                                collect_times-Parses laws _ _ OutputEncoding.IsValid
                                  (OutputEncoding.decode-Parses laws) m.num))
                              λ outs vs (ev, full', good'). (
                                inr refl,
                                Parses-require 4 lock_time_too_short (
                                    Parses-bind _ 0 (Parses-uint 4) λ lock ws (ew, lt'). (
                                      inr refl,
                                      Parses-pure 0 _ (
                                        rw (ex, ey, ez, eu, ev, ew, full, full') refl,
                                        record {
                                          version_u32 = lt;
                                          inputs_valid = good;
                                          inputs_u64 = rw full fits;
                                          outputs_valid = good';
                                          outputs_u64 = rw full' fits';
                                          lock_time_u32 = lt';
                                        },
                                      ),
                                    )),
                              ),
                        ),
                  ),
            ),
      ))
