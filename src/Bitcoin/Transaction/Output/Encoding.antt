-- ===== src/Bitcoin/Transaction/Output/Encoding.antt =====
-- The wire format of outputs: 8 bytes of value, the script behind its length.
use cashweb_backends.Common.{
  ℕ, ◌≡◌, refl, List, ◌++◌, length, length-append, arith, inr, append-nil, IsBytes, IsU64,
  to_le_bytes,
}
use cashweb_backends.Bitcoin.Buf.{Buf, BufMut, IsBuf, IsBufMut}
use cashweb_backends.Bitcoin.Buf.Reads.{
  Reads, Reads-pure, Reads-bind, Reads-bind_nil, Reads-le, Reads-slice, Reads-require,
  Reads-mapping_err,
}
use cashweb_backends.Bitcoin.Buf.Writes.{Writes, Writes-then, Writes-uint, Writes-bytes}
use cashweb_backends.Bitcoin.Buf.Parses.{
  Parses, Parses-pure, Parses-bind, Parses-require, Parses-uint, Parses-slice, Parses-mapping_err,
}
use cashweb_backends.Bitcoin.VarInt.{VarInt}
use cashweb_backends.Bitcoin.VarInt.Encoding as VarIntEncoding
use cashweb_backends.Bitcoin.Transaction.Script
use cashweb_backends.Bitcoin.Transaction.Output.{
  Output, value_too_short, script_len, script_too_short, encoded_len, encode_raw, decode,
}

unfoldable pub encoding : Output → List ℕ
encoding o =
    to_le_bytes 8 o.value
    ++ (VarIntEncoding.encoding (record { num = length o.script.raw }) ++ o.script.raw)

pub record IsValid (o : Output) : Type 0 where
  pub value_u64 : IsU64 o.value
  pub script_bytes : IsBytes o.script.raw
  pub script_u64 : IsU64 (length o.script.raw)

pub encoded_len-encoding : (o : Output) → encoded_len o ≡ length (encoding o)
unfolding encoded_len encoding Script.len_varint Script.encoded_len
encoded_len-encoding o =
    let len : VarInt = record { num = length o.script.raw } in
    rw (VarIntEncoding.encoded_len-encoding len)
      (omega (arith, length-append (VarIntEncoding.encoding len) o.script.raw))

pub encode_raw-Writes :
    {W E : Type 0} ⦃buf : BufMut W⦄ (laws : IsBufMut buf) (o : Output)
    → Writes laws {E = E} (encode_raw o) (encoding o)
unfolding encode_raw encoding Script.len_varint Script.encode_raw
encode_raw-Writes laws o =
    Writes-then _ (Writes-uint o.value 8)
      (Writes-then _ (VarIntEncoding.encode_raw-Writes laws _) (Writes-bytes o.script.raw))

module _ {B : Type 0} ⦃buf : Buf B⦄ (laws : IsBuf buf) where
  pub decode-Reads : (o : Output) → IsValid o → Reads laws decode (encoding o) o
  unfolding decode encoding
  decode-Reads o v = Reads-require 8 value_too_short (omega arith) (
      Reads-bind _ (Reads-le 8 o.value v.value_u64) (
        Reads-bind _
          (Reads-mapping_err script_len (VarIntEncoding.decode-Reads laws _ v.script_u64))
          (Reads-require (length o.script.raw) script_too_short (omega arith)
            (Reads-bind_nil _ (Reads-slice o.script.raw) (Reads-pure o)))))

  pub decode-Parses : Parses laws 0 decode (λ o xs. (xs ≡ encoding o) × IsValid o)
  unfolding decode encoding
  decode-Parses = Parses-require 8 value_too_short (
      Parses-bind _ 0 (Parses-uint 8) λ value xs (ex, lt). (
        inr refl,
        Parses-bind _ 0 (Parses-mapping_err script_len (VarIntEncoding.decode-Parses laws))
            λ len ys (ey, fits). (
              inr refl,
              Parses-require len.num script_too_short (
                  Parses-bind _ 0 (Parses-slice len.num) λ raw zs (ez, full, bytes). (
                    inr refl,
                    Parses-pure 0 _ (
                      rw (ex, ey, ez, full, append-nil raw) refl,
                      record { value_u64 = lt; script_bytes = bytes; script_u64 = rw full fits },
                    ),
                  )),
            ),
      ))
