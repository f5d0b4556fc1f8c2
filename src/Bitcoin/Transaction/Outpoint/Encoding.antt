-- ===== src/Bitcoin/Transaction/Outpoint/Encoding.antt =====
-- The wire format of outpoints: 32 bytes of transaction ID, 4 bytes of output index.
use cashweb_backends.Common.{
  ℕ, ◌≡◌, refl, ap, List, ◌++◌, length, length-append, arith, inl, inr, append-nil, IsBytes, IsU32,
  to_le_bytes,
}
use cashweb_backends.Bitcoin.Buf.{Buf, BufMut, IsBuf, IsBufMut}
use cashweb_backends.Bitcoin.Buf.Reads.{
  Reads, Reads-pure, Reads-bind, Reads-le, Reads-slice_of, Reads-require,
}
use cashweb_backends.Bitcoin.Buf.Writes.{Writes, Writes-then, Writes-uint, Writes-bytes}
use cashweb_backends.Bitcoin.Buf.Parses.{
  Parses, Parses-pure, Parses-bind, Parses-require, Parses-uint, Parses-slice, Parses-weaken,
}
use cashweb_backends.Bitcoin.Transaction.Outpoint.{
  Outpoint, outpoint_too_short, encoded_len, encode_raw, decode,
}

unfoldable pub encoding : Outpoint → List ℕ
encoding o = o.tx_id ++ to_le_bytes 4 o.vout

-- The Rust type: an array of 32 bytes and a `u32`.
pub record IsValid (o : Outpoint) : Type 0 where
  pub tx_id_len : length o.tx_id ≡ 32
  pub tx_id_bytes : IsBytes o.tx_id
  pub vout_u32 : IsU32 o.vout

pub encoded_len-encoding : (o : Outpoint) → IsValid o → encoded_len o ≡ length (encoding o)
unfolding encoded_len encoding
encoded_len-encoding o v = omega (arith, length-append o.tx_id (to_le_bytes 4 o.vout), v.tx_id_len)

pub encode_raw-Writes :
    {W E : Type 0} ⦃buf : BufMut W⦄ (laws : IsBufMut buf) (o : Outpoint)
    → Writes laws {E = E} (encode_raw o) (encoding o)
unfolding encode_raw encoding
encode_raw-Writes laws o = Writes-then _ (Writes-bytes o.tx_id) (Writes-uint o.vout 4)

module _ {B : Type 0} ⦃buf : Buf B⦄ (laws : IsBuf buf) where
  pub decode-Reads : (o : Outpoint) → IsValid o → Reads laws decode (encoding o) o
  unfolding decode encoding
  decode-Reads o v =
      Reads-require 36 outpoint_too_short
        (omega (arith, length-append o.tx_id (to_le_bytes 4 o.vout), v.tx_id_len))
        (Reads-bind _ (Reads-slice_of 32 o.tx_id v.tx_id_len)
          (Reads-bind _ (Reads-le 4 o.vout v.vout_u32) (Reads-pure o)))

  pub decode-Parses : Parses laws 0 decode (λ o xs. (xs ≡ encoding o) × IsValid o)
  unfolding decode encoding
  decode-Parses = Parses-require 36 outpoint_too_short (
      Parses-bind _ 4 (Parses-weaken 32 (omega arith) (λ v xs p. p) (Parses-slice 32))
        λ tx_id xs (ex, len, bytes). (
          inl (omega (arith, ap length ex)),
          Parses-bind _ 0 (Parses-uint 4) λ vout ys (ey, lt). (
            inr refl,
            Parses-pure 0 _ (
              rw (ex, ey) (ap (λ t. tx_id ++ t) (append-nil (to_le_bytes 4 vout))),
              record { tx_id_len = len; tx_id_bytes = bytes; vout_u32 = lt },
            ),
          ),
        ))
