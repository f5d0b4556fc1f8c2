-- ===== src/Bitcoin/VarInt.antt =====
-- lib/cashweb-bitcoin/src/var_int.rs.
pub mod Encoding
use cashweb_backends.Common.{ℕ, if◌then◌else◌, leb, ltb, ◌==◌}
use cashweb_backends.Common.Exec.{Exec, pure, raise, ◌>>=◌, ◌>>◌}
use cashweb_backends.Bitcoin.Buf.{Buf, BufMut, get_uint, require, put_uint}

pub data DecodeError : Type 0 where
  too_short non_minimal : DecodeError

pub record VarInt : Type 0 where
  pub num : ℕ

unfoldable pub encoded_len : VarInt → ℕ
encoded_len v =
    if leb v.num 0xfc
    then 1
    else if leb v.num 0xffff
    then 3
    else if leb v.num 0xffff_ffff
    then 5
    else 9

unfoldable pub encode_raw : {W E : Type 0} ⦃buf : BufMut W⦄ → VarInt → Exec W E (Unit {0})
encode_raw v =
    if leb v.num 0xfc
    then put_uint v.num 1
    else if leb v.num 0xffff
    then put_uint 0xfd 1 >> put_uint v.num 2
    else if leb v.num 0xffff_ffff
    then put_uint 0xfe 1 >> put_uint v.num 4
    else put_uint 0xff 1 >> put_uint v.num 8

-- One of the three long forms: `n` bytes follow, and the value is at least `least`.
unfoldable pub decode_long : {B : Type 0} ⦃buf : Buf B⦄ → ℕ → ℕ → Exec B DecodeError VarInt
decode_long n least =
    require n too_short
    >> do x ← get_uint n; if ltb x least then raise non_minimal else pure (record { num = x })

unfoldable pub match_first : {B : Type 0} ⦃buf : Buf B⦄ → ℕ → Exec B DecodeError VarInt
match_first first_byte =
    if first_byte == 0xff
    then decode_long 8 0x1_0000_0000
    else if first_byte == 0xfe
    then decode_long 4 0x1_0000
    else if first_byte == 0xfd
    then decode_long 2 0xfd
    else pure (record { num = first_byte })

unfoldable pub decode : {B : Type 0} ⦃buf : Buf B⦄ → Exec B DecodeError VarInt
decode = require 1 too_short >> do first_byte ← get_uint 1; match_first first_byte
