-- ===== src/Bitcoin/Buf.antt =====
-- The cursors of the `bytes` crate as an interface: `Buf`, which the decoders read from, and `BufMut`,
-- which the encoders write to. `IsBuf` and `IsBufMut` state what the crate documents of them.
pub mod Reads
pub mod Parses
pub mod Writes
pub mod Slice
pub mod ByteVec
use cashweb_backends.Common.{
  ℕ, ◌+◌, ◌≤◌, ◌≡◌, List, ◌++◌, Option, IsBytes, length, take, drop, to_le_bytes, from_le_bytes,
  ltb, if◌then◌else◌,
}
use cashweb_backends.Common.Exec.{Outcome, ok, err, panic, Exec}
use mathlib.Core.Option.{none, some}

-- `get_uint_le n` stands for `get_u8`, `get_u32_le`, `get_u64_le` and `get_uint_le` at 1, 4, 8 and `n`
-- bytes; `none` is the panic on too short a buffer.
pub record Buf (B : Type 0) : Type 0 where
  pub remaining : B → ℕ
  pub get_uint_le : ℕ → B → Option (ℕ × B)
  pub copy_to_slice : ℕ → B → Option (List ℕ × B)

-- A buffer holds the bytes not read yet; a read that they cover takes them from the front.
pub record IsBuf {B : Type 0} (buf : Buf B) : Type 0 where
  pub bytes : B → List ℕ
  pub bytes-IsBytes : (b : B) → IsBytes (bytes b)
  pub remaining_lem : (b : B) → buf.remaining b ≡ length (bytes b)
  pub get_uint_le_lem :
      (n : ℕ) (b : B)
      → n ≤ length (bytes b)
      → (b' : B) × (buf.get_uint_le n b ≡ some (from_le_bytes (take n (bytes b)), b'))
        × (bytes b' ≡ drop n (bytes b))
  pub copy_to_slice_lem :
      (n : ℕ) (b : B)
      → n ≤ length (bytes b)
      → (b' : B) × (buf.copy_to_slice n b ≡ some (take n (bytes b), b'))
        × (bytes b' ≡ drop n (bytes b))

-- `put_uint_le v n` stands for `put_u8`, `put_u32_le`, `put_u64_le` and `put_uint_le`; `put_slice`
-- for `put` of a slice. `none` is the panic on too little room.
pub record BufMut (W : Type 0) : Type 0 where
  pub remaining_mut : W → ℕ
  pub put_uint_le : ℕ → ℕ → W → Option W
  pub put_slice : List ℕ → W → Option W

-- A write that the room covers appends to what is written and uses the room up.
pub record IsBufMut {W : Type 0} (buf : BufMut W) : Type 0 where
  pub written : W → List ℕ
  pub put_uint_le_lem :
      (v n : ℕ) (w : W)
      → n ≤ buf.remaining_mut w
      → (w' : W) × (buf.put_uint_le v n w ≡ some w')
        × (written w' ≡ written w ++ to_le_bytes n v)
        × (buf.remaining_mut w' + n ≡ buf.remaining_mut w)
  pub put_slice_lem :
      (xs : List ℕ) (w : W)
      → length xs ≤ buf.remaining_mut w
      → (w' : W) × (buf.put_slice xs w ≡ some w')
        × (written w' ≡ written w ++ xs)
        × (buf.remaining_mut w' + length xs ≡ buf.remaining_mut w)

abbrev pub from_read : {A S E : Type 0} → Option (A × S) → S → Outcome E A × S
from_read none s = (panic, s)
from_read (some (a, s')) s = (ok a, s')

abbrev pub from_write : {S E : Type 0} → Option S → S → Outcome E (Unit {0}) × S
from_write none s = (panic, s)
from_write (some s') s = (ok tt, s')

module _ {B : Type 0} ⦃buf : Buf B⦄ {E : Type 0} where
  unfoldable pub get_uint : ℕ → Exec B E ℕ
  get_uint n b = from_read (buf.get_uint_le n b) b

  unfoldable pub get_slice : ℕ → Exec B E (List ℕ)
  get_slice n b = from_read (buf.copy_to_slice n b) b

  -- `if buf.remaining() < n { return Err(e); }`
  unfoldable pub require : ℕ → E → Exec B E (Unit {0})
  require n e b = if ltb (buf.remaining b) n then (err e, b) else (ok tt, b)

module _ {W : Type 0} ⦃buf : BufMut W⦄ {E : Type 0} where
  unfoldable pub put_uint : ℕ → ℕ → Exec W E (Unit {0})
  put_uint v n w = from_write (buf.put_uint_le v n w) w

  unfoldable pub put_bytes : List ℕ → Exec W E (Unit {0})
  put_bytes xs w = from_write (buf.put_slice xs w) w
