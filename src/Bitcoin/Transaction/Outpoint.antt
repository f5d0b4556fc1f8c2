-- ===== src/Bitcoin/Transaction/Outpoint.antt =====
-- lib/cashweb-bitcoin/src/transaction/outpoint.rs.
pub mod Encoding
use cashweb_backends.Common.{ℕ, ◌+◌, List, replicate}
use cashweb_backends.Common.Exec.{Exec, pure, ◌>>=◌, ◌>>◌}
use cashweb_backends.Bitcoin.Buf.{Buf, BufMut, get_uint, get_slice, require, put_uint, put_bytes}

pub record Outpoint : Type 0 where
  pub tx_id : List ℕ
  pub vout : ℕ

pub data DecodeError : Type 0 where
  outpoint_too_short : DecodeError

abbrev pub default : Outpoint
default = record { tx_id = replicate 32 0; vout = 0 }

unfoldable pub encoded_len : Outpoint → ℕ
encoded_len o = 32 + 4

unfoldable pub encode_raw : {W E : Type 0} ⦃buf : BufMut W⦄ → Outpoint → Exec W E (Unit {0})
encode_raw o = put_bytes o.tx_id >> put_uint o.vout 4

unfoldable pub decode : {B : Type 0} ⦃buf : Buf B⦄ → Exec B DecodeError Outpoint
decode =
    require (32 + 4) outpoint_too_short
    >> do tx_id ← get_slice 32; vout ← get_uint 4; pure (record { tx_id = tx_id; vout = vout })
