-- ===== src/Bitcoin/Transaction.antt =====
-- lib/cashweb-bitcoin/src/transaction/mod.rs: the transaction and its wire format.
pub mod Script
pub mod Outpoint
pub mod Input
pub mod Output
pub mod Encoding
pub mod Decoding
pub mod Wire
pub mod Slices
pub mod SignatureHash
use cashweb_backends.Common.{ℕ, zero, suc, ◌+◌, List, [], ◌∷◌, length, sum, map}
use cashweb_backends.Common.Exec.{Exec, pure, ◌>>=◌, ◌>>◌, mapping_err}
use cashweb_backends.Bitcoin.Buf.{Buf, BufMut, get_uint, require, put_uint}
use cashweb_backends.Bitcoin.VarInt
use cashweb_backends.Bitcoin.VarInt.{VarInt}

pub data DecodeError : Type 0 where
  version_too_short : DecodeError
  input_count : VarInt.DecodeError → DecodeError
  input_error : Input.DecodeError → DecodeError
  output_count : VarInt.DecodeError → DecodeError
  output_error : Output.DecodeError → DecodeError
  lock_time_too_short : DecodeError

pub record Transaction : Type 0 where
  pub version : ℕ
  pub inputs : List Input.Input
  pub outputs : List Output.Output
  pub lock_time : ℕ

abbrev pub default : Transaction
default = record { version = 0; inputs = []; outputs = []; lock_time = 0 }

abbrev pub input_count_varint : Transaction → VarInt
input_count_varint tx = record { num = length tx.inputs }

abbrev pub output_count_varint : Transaction → VarInt
output_count_varint tx = record { num = length tx.outputs }

unfoldable pub encoded_len : Transaction → ℕ
encoded_len tx =
    4
    + VarInt.encoded_len (input_count_varint tx)
    + sum (map Input.encoded_len tx.inputs)
    + VarInt.encoded_len (output_count_varint tx)
    + sum (map Output.encoded_len tx.outputs)
    + 4

module _ {W E A : Type 0} where
  -- `for item in items { … }`
  unfoldable pub for_each : (A → Exec W E (Unit {0})) → List A → Exec W E (Unit {0})
  for_each body [] = pure tt
  for_each body (x ∷ xs) = body x >> for_each body xs

  -- `(0..n).map(|_| …).collect::<Result<Vec<_>, _>>()`, which stops at the first error.
  unfoldable pub collect_times : ℕ → Exec W E A → Exec W E (List A)
  collect_times zero item = pure []
  collect_times (suc n) item = do x ← item; xs ← collect_times n item; pure (x ∷ xs)

unfoldable pub encode_raw : {W E : Type 0} ⦃buf : BufMut W⦄ → Transaction → Exec W E (Unit {0})
encode_raw tx = do
  put_uint tx.version 4
  VarInt.encode_raw (input_count_varint tx)
  for_each Input.encode_raw tx.inputs
  VarInt.encode_raw (output_count_varint tx)
  for_each Output.encode_raw tx.outputs
  put_uint tx.lock_time 4

unfoldable pub decode : {B : Type 0} ⦃buf : Buf B⦄ → Exec B DecodeError Transaction
decode = do
  require 4 version_too_short
  version ← get_uint 4
  n_inputs ← mapping_err input_count VarInt.decode
  inputs ← mapping_err input_error (collect_times n_inputs.num Input.decode)
  n_outputs ← mapping_err output_count VarInt.decode
  outputs ← mapping_err output_error (collect_times n_outputs.num Output.decode)
  require 4 lock_time_too_short
  lock_time ← get_uint 4
  pure (record { version = version; inputs = inputs; outputs = outputs; lock_time = lock_time })
