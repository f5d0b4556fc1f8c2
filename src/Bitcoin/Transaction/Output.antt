-- ===== src/Bitcoin/Transaction/Output.antt =====
-- lib/cashweb-bitcoin/src/transaction/output.rs.
pub mod Encoding
use cashweb_backends.Common.{ℕ, ◌+◌}
use cashweb_backends.Common.Exec.{Exec, pure, ◌>>=◌, ◌>>◌, mapping_err}
use cashweb_backends.Bitcoin.Buf.{Buf, BufMut, get_uint, get_slice, require, put_uint}
use cashweb_backends.Bitcoin.VarInt
use cashweb_backends.Bitcoin.VarInt.{VarInt}
use cashweb_backends.Bitcoin.Transaction.Script
use cashweb_backends.Bitcoin.Transaction.Script.{Script}

pub data DecodeError : Type 0 where
  value_too_short : DecodeError
  script_len : VarInt.DecodeError → DecodeError
  script_too_short : DecodeError

pub record Output : Type 0 where
  pub value : ℕ
  pub script : Script

abbrev pub default : Output
default = record { value = 0; script = Script.default }

unfoldable pub encoded_len : Output → ℕ
encoded_len o = 8 + VarInt.encoded_len (Script.len_varint o.script) + Script.encoded_len o.script

unfoldable pub encode_raw : {W E : Type 0} ⦃buf : BufMut W⦄ → Output → Exec W E (Unit {0})
encode_raw o = do
  put_uint o.value 8
  VarInt.encode_raw (Script.len_varint o.script)
  Script.encode_raw o.script

unfoldable pub decode : {B : Type 0} ⦃buf : Buf B⦄ → Exec B DecodeError Output
decode = do
  require 8 value_too_short
  value ← get_uint 8
  len ← mapping_err script_len VarInt.decode
  require len.num script_too_short
  raw_script ← get_slice len.num
  pure (record { value = value; script = record { raw = raw_script } })
