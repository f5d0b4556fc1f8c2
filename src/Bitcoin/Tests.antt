-- ===== src/Bitcoin/Tests.antt =====
-- Concrete runs of the coders of lib/cashweb-bitcoin, and the theorems at concrete inputs.
use cashweb_backends.Common.{
  ℕ, ◌+◌, ◌≤◌, ◌<◌, ◌≡◌, refl, List, [], ◌∷◌, ◌++◌, replicate, length, arith,
}
use cashweb_backends.Common.Exec.{ok, err}
use cashweb_backends.Common.Exec.Rules.{Returns}
use cashweb_backends.Bitcoin.Buf.Slice.{Slice, Room, slice_buf, slice_laws, room_buf, room_laws}
use cashweb_backends.Bitcoin.Encodable.{encode, insufficient_capacity}
use cashweb_backends.Bitcoin.VarInt.Encoding as VarIntEncoding
use cashweb_backends.Bitcoin.Transaction
use cashweb_backends.Bitcoin.Transaction.{Transaction}
use cashweb_backends.Bitcoin.Transaction.Input.{Input}
use cashweb_backends.Bitcoin.Transaction.Input.Encoding as InputEncoding
use cashweb_backends.Bitcoin.Transaction.Output.{Output}
use cashweb_backends.Bitcoin.Transaction.Output.Encoding as OutputEncoding
use cashweb_backends.Bitcoin.Transaction.Outpoint.Encoding as OutpointEncoding
use cashweb_backends.Bitcoin.Transaction.Encoding.{encoding, IsValid}
use cashweb_backends.Bitcoin.Transaction.Wire.{
  transaction_encodable, decode-encoding, decode_canonical, encode-encoding,
}

-- The two tests of var_int.rs on three bytes and more.
var_int_fd : VarIntEncoding.encoding (record { num = 0xfd }) ≡ 0xfd ∷ 0xfd ∷ 0 ∷ []
unfolding VarIntEncoding.encoding
var_int_fd = refl

var_int_long :
    VarIntEncoding.encoding (record { num = 0xf0f0f0f }) ≡ 0xfe ∷ 0xf ∷ 0xf ∷ 0xf ∷ 0xf ∷ []
unfolding VarIntEncoding.encoding
var_int_long = refl

abbrev pub one_input : Input
one_input = record {
  outpoint = record { tx_id = replicate 32 7; vout = 1 };
  script = record { raw = 0x51 ∷ [] };
  sequence = 0xffff_ffff;
}

abbrev one_output : Output
one_output = record { value = 1000; script = record { raw = 0x6a ∷ [] } }

abbrev pub small : Transaction
small = record { version = 2; inputs = one_input ∷ []; outputs = one_output ∷ []; lock_time = 9 }

abbrev small_bytes : List ℕ
small_bytes =
    2
    ∷ 0
    ∷ 0
    ∷ 0
    ∷ 1
    ∷ (replicate 32 7
        ++ (1 ∷ 0 ∷ 0 ∷ 0 ∷ 1 ∷ 0x51 ∷ 255 ∷ 255 ∷ 255 ∷ 255 ∷ 1 ∷ 232 ∷ 3 ∷ 0 ∷ 0 ∷ 0 ∷ 0 ∷ 0 ∷ 0
            ∷ 1 ∷ 0x6a ∷ 9 ∷ 0 ∷ 0 ∷ 0 ∷ []))

encoding-small : encoding small ≡ small_bytes
unfolding encoding VarIntEncoding.encoding InputEncoding.encoding OutputEncoding.encoding
    OutpointEncoding.encoding
encoding-small = refl

small-IsValid : IsValid small
small-IsValid = omega arith

abbrev small_slice : Slice
small_slice = record { contents = small_bytes ++ (5 ∷ []); valid = omega arith }

decode-encoding_example :
    (b' : Slice) × (Transaction.decode small_slice ≡ (ok small, b')) × (b'.contents ≡ 5 ∷ [])
decode-encoding_example =
    decode-encoding slice_laws small small-IsValid small_slice (5 ∷ []) (rw encoding-small)

decode_canonical_example :
    Returns
      (λ tx b'. (small_bytes ++ (5 ∷ []) ≡ encoding tx ++ b'.contents) × IsValid tx)
      (Transaction.decode small_slice)
decode_canonical_example = decode_canonical slice_laws small_slice

abbrev short : Room
short = record { contents = []; room = 3 }

encode-encoding_example :
    (3 < length (encoding small)
      → encode transaction_encodable small short ≡ (err insufficient_capacity, short))
    × (length (encoding small) ≤ 3
        → (w' : Room) × (encode transaction_encodable small short ≡ (ok tt, w'))
          × (w'.contents ≡ [] ++ encoding small)
          × (w'.room + length (encoding small) ≡ 3))
encode-encoding_example = encode-encoding room_laws small small-IsValid short
