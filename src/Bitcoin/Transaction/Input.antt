-- ===== src/Bitcoin/Transaction/Input.antt =====
-- lib/cashweb-bitcoin/src/transaction/input.rs.
pub mod Encoding
use cashweb_backends.Common.{ℕ, ◌+◌}
use cashweb_backends.Common.Exec.{Exec, pure, ◌>>=◌, ◌>>◌, mapping_err}
use cashweb_backends.Bitcoin.Buf.{Buf, BufMut, get_uint, get_slice, require, put_uint}
use cashweb_backends.Bitcoin.VarInt
use cashweb_backends.Bitcoin.VarInt.{VarInt}
use cashweb_backends.Bitcoin.Transaction.Script
use cashweb_backends.Bitcoin.Transaction.Script.{Script}
use cashweb_backends.Bitcoin.Transaction.Outpoint
use cashweb_backends.Bitcoin.Transaction.Outpoint.{Outpoint}

pub data DecodeError : Type 0 where
  outpoint_error : Outpoint.DecodeError → DecodeError
  script_len : VarInt.DecodeError → DecodeError
  script_too_short sequence_too_short : DecodeError

pub record Input : Type 0 where
  pub outpoint : Outpoint
  pub script : Script
  pub sequence : ℕ

unfoldable pub encoded_len : Input → ℕ
encoded_len i =
    Outpoint.encoded_len i.outpoint
    + VarInt.encoded_len (Script.len_varint i.script)
    + Script.encoded_len i.script
    + 4

unfoldable pub encode_raw : {W E : Type 0} ⦃buf : BufMut W⦄ → Input → Exec W E (Unit {0})
encode_raw i = do
  Outpoint.encode_raw i.outpoint
  VarInt.encode_raw (Script.len_varint i.script)
  Script.encode_raw i.script
  put_uint i.sequence 4

-- `usize` has 64 bits, so `script_len as usize` keeps the value.
unfoldable pub decode : {B : Type 0} ⦃buf : Buf B⦄ → Exec B DecodeError Input
decode = do
  outpoint ← mapping_err outpoint_error Outpoint.decode
  len ← mapping_err script_len VarInt.decode
  require len.num script_too_short
  raw_script ← get_slice len.num
  require 4 sequence_too_short
  sequence ← get_uint 4
  pure (record { outpoint = outpoint; script = record { raw = raw_script }; sequence = sequence })
