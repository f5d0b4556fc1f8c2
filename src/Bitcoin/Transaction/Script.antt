-- ===== src/Bitcoin/Transaction/Script.antt =====
-- lib/cashweb-bitcoin/src/transaction/script.
pub mod P2pkh
use cashweb_backends.Common.{ℕ, List, [], ◌∷◌, Bool, true, false, not, ◌&&◌, ◌==◌, length, get_or}
use cashweb_backends.Common.Exec.{Exec}
use cashweb_backends.Bitcoin.Buf.{BufMut, put_bytes}
use cashweb_backends.Bitcoin.VarInt.{VarInt}

pub record Script : Type 0 where
  pub raw : List ℕ

abbrev pub op_return : ℕ
op_return = 0x6a

abbrev pub op_dup : ℕ
op_dup = 0x76

abbrev pub op_hash160 : ℕ
op_hash160 = 0xa9

abbrev pub op_pushbytes_20 : ℕ
op_pushbytes_20 = 0x14

abbrev pub op_equalverify : ℕ
op_equalverify = 0x88

abbrev pub op_checksig : ℕ
op_checksig = 0xac

abbrev pub is_empty : List ℕ → Bool
is_empty [] = true
is_empty (x ∷ xs) = false

abbrev pub default : Script
default = record { raw = [] }

unfoldable pub len_varint : Script → VarInt
len_varint script = record { num = length script.raw }

-- `&&` does not read an index that the length test rules out, so the default 0 is never used.
unfoldable pub is_op_return : Script → Bool
is_op_return script = not (is_empty script.raw) && (get_or script.raw 0 0 == op_return)

unfoldable pub is_p2pkh : Script → Bool
is_p2pkh script =
    (length script.raw == 25)
    && ((get_or script.raw 0 0 == op_dup)
        && ((get_or script.raw 1 0 == op_hash160)
            && ((get_or script.raw 2 0 == op_pushbytes_20)
                && ((get_or script.raw 23 0 == op_equalverify)
                    && (get_or script.raw 24 0 == op_checksig)))))

unfoldable pub encoded_len : Script → ℕ
encoded_len script = length script.raw

unfoldable pub encode_raw : {W E : Type 0} ⦃buf : BufMut W⦄ → Script → Exec W E (Unit {0})
encode_raw script = put_bytes script.raw
