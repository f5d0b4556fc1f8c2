-- ===== src/Bitcoin/VarInt/Encoding.antt =====
-- The wire format of variable-length integers, which the encoder writes and the decoder reads.
use cashweb_backends.Common.{
  ℕ, ◌≤◌, ◌<◌, ◌^◌, ◌≡◌, refl, ◌∙◌, List, [], ◌∷◌, length, arith, if◌then◌else◌, leb, ltb, ◌==◌,
  IsU64, Bool-cases, inl, inr, to_le_bytes, length-to_le_bytes, false, append-nil, le→ltb, ltb→le,
  to_le_bytes-one, ==_iff,
}
use cashweb_backends.Bitcoin.Buf.{Buf, BufMut, IsBuf, IsBufMut, get_uint}
use cashweb_backends.Bitcoin.Buf.Reads.{
  Reads, Reads-pure, Reads-bind, Reads-bind_nil, Reads-le, Reads-require,
}
use mathlib.Core.Path.{subst}
use cashweb_backends.Bitcoin.Buf.Writes.{Writes, Writes-then, Writes-uint}
use cashweb_backends.Bitcoin.Buf.Parses.{
  Parses, Parses-pure, Parses-raise, Parses-bind, Parses-require, Parses-uint, Parses-weaken,
}
use cashweb_backends.Bitcoin.VarInt.{
  VarInt, DecodeError, too_short, non_minimal, encoded_len, encode_raw, decode, decode_long,
  match_first,
}

-- The shortest of the four forms that holds the value.
unfoldable pub encoding : VarInt → List ℕ
encoding v =
    if leb v.num 0xfc
    then to_le_bytes 1 v.num
    else if leb v.num 0xffff
    then 0xfd ∷ to_le_bytes 2 v.num
    else if leb v.num 0xffff_ffff
    then 0xfe ∷ to_le_bytes 4 v.num
    else 0xff ∷ to_le_bytes 8 v.num

pub encoded_len-encoding : (v : VarInt) → encoded_len v ≡ length (encoding v)
unfolding encoded_len encoding
encoded_len-encoding v = ground arith

module _ {W : Type 0} ⦃buf : BufMut W⦄ (laws : IsBufMut buf) {E : Type 0} where
  pub encode_raw-Writes : (v : VarInt) → Writes laws {E = E} (encode_raw v) (encoding v)
  unfolding encode_raw encoding
  encode_raw-Writes v = elim (Bool-cases (leb v.num 0xfc)) [
    | inl a ↦ rw a (Writes-uint v.num 1)
    | inr a ↦ rw a (elim (Bool-cases (leb v.num 0xffff)) [
      | inl b ↦ rw b (Writes-then _ (Writes-uint 0xfd 1) (Writes-uint v.num 2))
      | inr b ↦ rw b (elim (Bool-cases (leb v.num 0xffff_ffff)) [
        | inl c ↦ rw c (Writes-then _ (Writes-uint 0xfe 1) (Writes-uint v.num 4))
        | inr c ↦ rw c (Writes-then _ (Writes-uint 0xff 1) (Writes-uint v.num 8))
      ])
    ])
  ]

module _ {B : Type 0} ⦃buf : Buf B⦄ (laws : IsBuf buf) where
  Reads-decode_long :
      (n least : ℕ) (v : VarInt)
      → least ≤ v.num
      → v.num < 256 ^ n
      → Reads laws (decode_long n least) (to_le_bytes n v.num) v
  unfolding decode_long
  Reads-decode_long n least v lo hi =
      Reads-require n too_short (omega (arith, length-to_le_bytes n v.num))
        (Reads-bind_nil _ (Reads-le n v.num hi) (rw (le→ltb v.num least lo) (Reads-pure v)))

  -- What follows each first byte.
  Reads-match_first_short : (v : VarInt) → v.num ≤ 0xfc → Reads laws (match_first v.num) [] v
  unfolding match_first
  Reads-match_first_short v h =
      let e : (v.num == 0xff) ≡ false = ground arith in
      let f : (v.num == 0xfe) ≡ false = ground arith in
      let g : (v.num == 0xfd) ≡ false = ground arith in rw (e, f, g) (Reads-pure v)

  Reads-long :
      (tag n least : ℕ) (v : VarInt)
      → tag < 256
      → match_first {B = B} tag ≡ decode_long n least
      → least ≤ v.num
      → v.num < 256 ^ n
      → Reads laws decode (tag ∷ to_le_bytes n v.num) v
  unfolding decode
  Reads-long tag n least v byte e lo hi =
      let first : Reads laws {E = DecodeError} (get_uint 1) (tag ∷ []) tag =
        subst (λ l. Reads laws {E = DecodeError} (get_uint 1) l tag) (to_le_bytes-one tag byte)
          (Reads-le 1 tag byte) in
      let rest : Reads laws {E = DecodeError} (match_first tag) (to_le_bytes n v.num) v =
        rw e (Reads-decode_long n least v lo hi) in
      Reads-require 1 too_short (omega arith) (Reads-bind match_first first rest)

  -- The decoder reads every value of 64 bits back from its shortest form.
  pub decode-Reads : (v : VarInt) → IsU64 v.num → Reads laws decode (encoding v) v
  unfolding encoding match_first
  decode-Reads v h = elim (Bool-cases (leb v.num 0xfc)) [
    | inl a ↦ rw a (
        unfold decode in
        Reads-require 1 too_short (omega arith) (
          Reads-bind match_first (Reads-le 1 v.num (ground arith))
            (Reads-match_first_short v (ground arith))))
    | inr a ↦ rw a (elim (Bool-cases (leb v.num 0xffff)) [
      | inl b ↦ rw b (Reads-long 0xfd 2 0xfd v (omega arith) refl (ground arith) (ground arith))
      | inr b ↦ rw b (elim (Bool-cases (leb v.num 0xffff_ffff)) [
        | inl c ↦
            rw c (Reads-long 0xfe 4 0x1_0000 v (omega arith) refl (ground arith) (ground arith))
        | inr c ↦ rw c (Reads-long 0xff 8 0x1_0000_0000 v (omega arith) refl (ground arith) h)
      ])
    ])
  ]

  Parses-decode_long :
      (n least : ℕ)
      → Parses laws 0
          (decode_long n least)
          (λ v xs. (xs ≡ to_le_bytes n v.num) × (least ≤ v.num) × (v.num < 256 ^ n))
  unfolding decode_long
  Parses-decode_long n least = Parses-require n too_short (
      Parses-bind _ 0 (Parses-uint n) λ x xs (e, hi). (
        inr refl,
        elim (Bool-cases (ltb x least)) [
          | inl low ↦ rw low (Parses-raise 0 non_minimal)
          | inr high ↦ rw high (Parses-pure 0 _ (append-nil xs ∙ e, ltb→le x least high, hi))
        ],
      ))

  abbrev IsEncoding : VarInt → List ℕ → Type 0
  IsEncoding v xs = (xs ≡ encoding v) × IsU64 v.num

  long_form :
      (n least : ℕ) (tag : ℕ)
      → ((v : VarInt) → least ≤ v.num → v.num < 256 ^ n → IsEncoding v (tag ∷ to_le_bytes n v.num))
      → (k : ℕ) → Parses laws k (decode_long n least) (λ v ys. IsEncoding v (tag ∷ ys))
  long_form n least tag fits k =
      Parses-weaken 0 (omega arith) (λ v ys (e, lo, hi). rw e (fits v lo hi))
        (Parses-decode_long n least)

  Parses-match_first :
      (first_byte : ℕ)
      → first_byte < 256
      → Parses laws 0 (match_first first_byte) (λ v ys. IsEncoding v (first_byte ∷ ys))
  unfolding match_first encoding
  Parses-match_first b h = elim (Bool-cases (b == 0xff)) [
    | inl p ↦ rw ((==_iff b 0xff).0 p) (long_form 8 0x1_0000_0000 0xff (λ v lo hi. ground arith) 0)
    | inr p ↦ elim (Bool-cases (b == 0xfe)) [
      | inl q ↦ rw ((==_iff b 0xfe).0 q) (long_form 4 0x1_0000 0xfe (λ v lo hi. ground arith) 0)
      | inr q ↦ elim (Bool-cases (b == 0xfd)) [
        | inl r ↦ rw ((==_iff b 0xfd).0 r) (long_form 2 0xfd 0xfd (λ v lo hi. ground arith) 0)
        | inr r ↦ rw (p, q, r) (Parses-pure 0 _ (ground arith))
      ]
    ]
  ]

  pub decode-Parses : Parses laws 0 decode IsEncoding
  unfolding decode
  decode-Parses = Parses-require 1 too_short (
      Parses-bind match_first 0 (Parses-uint 1)
        λ b xs (e, lt). (inr refl, rw (e ∙ to_le_bytes-one b lt) (Parses-match_first b lt)))
