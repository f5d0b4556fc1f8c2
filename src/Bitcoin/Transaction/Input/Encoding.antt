-- ===== src/Bitcoin/Transaction/Input/Encoding.antt =====
-- The wire format of inputs: the outpoint, the script behind its length, the sequence number.
use cashweb_backends.Common.{
  ℕ, ◌≡◌, refl, List, ◌++◌, length, length-append, arith, inr, IsBytes, IsU32, IsU64, to_le_bytes,
}
use cashweb_backends.Bitcoin.Buf.{Buf, BufMut, IsBuf, IsBufMut}
use cashweb_backends.Bitcoin.Buf.Reads.{
  Reads, Reads-pure, Reads-bind, Reads-le, Reads-slice, Reads-require, Reads-mapping_err,
}
use cashweb_backends.Bitcoin.Buf.Writes.{Writes, Writes-then, Writes-uint, Writes-bytes}
use cashweb_backends.Bitcoin.Buf.Parses.{
  Parses, Parses-pure, Parses-bind, Parses-require, Parses-uint, Parses-slice, Parses-mapping_err,
}
use cashweb_backends.Bitcoin.VarInt.{VarInt}
use cashweb_backends.Bitcoin.VarInt.Encoding as VarIntEncoding
use cashweb_backends.Bitcoin.Transaction.Script
use cashweb_backends.Bitcoin.Transaction.Script.{Script}
use cashweb_backends.Bitcoin.Transaction.Outpoint.Encoding as OutpointEncoding
use cashweb_backends.Bitcoin.Transaction.Input.{
  Input, outpoint_error, script_len, script_too_short, sequence_too_short, encoded_len, encode_raw,
  decode,
}

unfoldable pub encoding : Input → List ℕ
encoding i =
    OutpointEncoding.encoding i.outpoint
    ++ (VarIntEncoding.encoding (record { num = length i.script.raw })
        ++ (i.script.raw ++ to_le_bytes 4 i.sequence))

pub record IsValid (i : Input) : Type 0 where
  pub outpoint : OutpointEncoding.IsValid i.outpoint
  pub script_bytes : IsBytes i.script.raw
  pub script_u64 : IsU64 (length i.script.raw)
  pub sequence_u32 : IsU32 i.sequence

pub encoded_len-encoding : (i : Input) → IsValid i → encoded_len i ≡ length (encoding i)
unfolding encoded_len encoding Script.len_varint Script.encoded_len
encoded_len-encoding i v =
    let len : VarInt = record { num = length i.script.raw } in
    rw
      (
        OutpointEncoding.encoded_len-encoding i.outpoint v.outpoint,
        VarIntEncoding.encoded_len-encoding len,
      )
      (omega (
        arith,
        length-append (OutpointEncoding.encoding i.outpoint)
            (VarIntEncoding.encoding len ++ (i.script.raw ++ to_le_bytes 4 i.sequence)),
        length-append (VarIntEncoding.encoding len) (i.script.raw ++ to_le_bytes 4 i.sequence),
        length-append i.script.raw (to_le_bytes 4 i.sequence),
      ))

pub encode_raw-Writes :
    {W E : Type 0} ⦃buf : BufMut W⦄ (laws : IsBufMut buf) (i : Input)
    → Writes laws {E = E} (encode_raw i) (encoding i)
unfolding encode_raw encoding Script.len_varint Script.encode_raw
encode_raw-Writes laws i = Writes-then _ (OutpointEncoding.encode_raw-Writes laws i.outpoint) (
    Writes-then _ (VarIntEncoding.encode_raw-Writes laws _)
      (Writes-then _ (Writes-bytes i.script.raw) (Writes-uint i.sequence 4)))

module _ {B : Type 0} ⦃buf : Buf B⦄ (laws : IsBuf buf) where
  pub decode-Reads : (i : Input) → IsValid i → Reads laws decode (encoding i) i
  unfolding decode encoding
  decode-Reads i v =
      Reads-bind _
        (Reads-mapping_err outpoint_error
          (OutpointEncoding.decode-Reads laws i.outpoint v.outpoint))
        (Reads-bind _
          (Reads-mapping_err script_len (VarIntEncoding.decode-Reads laws _ v.script_u64))
          (Reads-require (length i.script.raw) script_too_short
            (omega (arith, length-append i.script.raw (to_le_bytes 4 i.sequence)))
            (Reads-bind _ (Reads-slice i.script.raw) (
              Reads-require 4 sequence_too_short (omega arith)
                (Reads-bind _ (Reads-le 4 i.sequence v.sequence_u32) (Reads-pure i))))))

  pub decode-Parses : Parses laws 0 decode (λ i xs. (xs ≡ encoding i) × IsValid i)
  unfolding decode encoding
  decode-Parses =
      Parses-bind _ 0 (Parses-mapping_err outpoint_error (OutpointEncoding.decode-Parses laws))
        λ outpoint xs (ex, valid). (
          inr refl,
          Parses-bind _ 0 (Parses-mapping_err script_len (VarIntEncoding.decode-Parses laws))
              λ len ys (ey, fits). (
                inr refl,
                Parses-require len.num script_too_short (
                    Parses-bind _ 0 (Parses-slice len.num) λ raw zs (ez, full, bytes). (
                      inr refl,
                      Parses-require 4 sequence_too_short (
                          Parses-bind _ 0 (Parses-uint 4) λ sequence ws (ew, lt). (
                            inr refl,
                            Parses-pure 0 _ (
                              rw (ex, ey, ez, ew, full) refl,
                              record {
                                outpoint = valid;
                                script_bytes = bytes;
                                script_u64 = rw full fits;
                                sequence_u32 = lt;
                              },
                            ),
                          )),
                    )),
              ),
        )
