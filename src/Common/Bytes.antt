-- ===== src/Common/Bytes.antt =====
-- Byte strings as lists of numbers: little- and big-endian integers, and equality of byte strings.
use Prim.Native.Nat.{ℕ, zero, suc, ◌+◌, ◌*◌, ◌/◌, ◌%◌, ◌^◌, ◌<◌}
use mathlib.Core.Path.{◌≡◌, refl, ap}
use mathlib.Core.Bool.{Bool, true, false, ◌&&◌}
use mathlib.Core.List.{List, [], ◌∷◌, reverse}
use native.Mathlib.Omega.{arith}
use native.Mathlib.Nat.{pow-succ'}
use cashweb_backends.Common.Tests.{◌==◌}
use cashweb_backends.Common.Lists.{length, All}

abbrev pub IsByte : ℕ → Type 0
IsByte b = b < 256

abbrev pub IsBytes : List ℕ → Type 0
IsBytes = All IsByte

abbrev pub IsU32 : ℕ → Type 0
IsU32 v = v < 2 ^ 32

abbrev pub IsU64 : ℕ → Type 0
IsU64 v = v < 2 ^ 64

-- The `n` low bytes of a number, lowest first: `to_le_bytes` of an integer of `n` bytes.
abbrev pub to_le_bytes : ℕ → ℕ → List ℕ
to_le_bytes zero v = []
to_le_bytes (suc n) v = (v % 256) ∷ to_le_bytes n (v / 256)

abbrev pub from_le_bytes : List ℕ → ℕ
from_le_bytes [] = 0
from_le_bytes (b ∷ bs) = b + 256 * from_le_bytes bs

abbrev pub to_be_bytes : ℕ → ℕ → List ℕ
to_be_bytes n v = reverse (to_le_bytes n v)

-- `==` on byte slices.
abbrev pub bytes_eq : List ℕ → List ℕ → Bool
bytes_eq [] [] = true
bytes_eq [] (y ∷ ys) = false
bytes_eq (x ∷ xs) [] = false
bytes_eq (x ∷ xs) (y ∷ ys) = (x == y) && bytes_eq xs ys

pub bytes_eq_refl : (xs : List ℕ) → bytes_eq xs xs ≡ true
bytes_eq_refl [] = refl
bytes_eq_refl (x ∷ xs) = ground (arith, bytes_eq_refl xs)

pub bytes_eq→eq : (xs ys : List ℕ) → bytes_eq xs ys ≡ true → xs ≡ ys
bytes_eq→eq [] [] h = refl
bytes_eq→eq [] (y ∷ ys) h = cc
bytes_eq→eq (x ∷ xs) [] h = cc
bytes_eq→eq (x ∷ xs) (y ∷ ys) h = ground (arith, bytes_eq→eq xs ys)

pub length-to_le_bytes : (n v : ℕ) → length (to_le_bytes n v) ≡ n
length-to_le_bytes zero v = refl
length-to_le_bytes (suc n) v = ap suc (length-to_le_bytes n (v / 256))

pub to_le_bytes-IsBytes : (n v : ℕ) → IsBytes (to_le_bytes n v)
to_le_bytes-IsBytes zero v = tt
to_le_bytes-IsBytes (suc n) v = (omega arith, to_le_bytes-IsBytes n (v / 256))

pub from_le_bytes-to_le_bytes : (n v : ℕ) → v < 256 ^ n → from_le_bytes (to_le_bytes n v) ≡ v
from_le_bytes-to_le_bytes zero v h = omega arith
from_le_bytes-to_le_bytes (suc n) v h =
    let p : 256 ^ suc n ≡ 256 * 256 ^ n = pow-succ' 256 n in
    omega (arith, from_le_bytes-to_le_bytes n (v / 256) (omega arith))

pub from_le_bytes-lt : (xs : List ℕ) → IsBytes xs → from_le_bytes xs < 256 ^ length xs
from_le_bytes-lt [] h = omega arith
from_le_bytes-lt (x ∷ xs) h =
    let p : 256 ^ suc (length xs) ≡ 256 * 256 ^ length xs = pow-succ' 256 (length xs) in
    omega (arith, from_le_bytes-lt xs h.1)

pub to_le_bytes-from_le_bytes :
    (xs : List ℕ) → IsBytes xs → to_le_bytes (length xs) (from_le_bytes xs) ≡ xs
to_le_bytes-from_le_bytes [] h = refl
to_le_bytes-from_le_bytes (x ∷ xs) h =
    let low : (x + 256 * from_le_bytes xs) % 256 ≡ x = omega arith in
    let high : (x + 256 * from_le_bytes xs) / 256 ≡ from_le_bytes xs = omega arith in
    rw (low, high, to_le_bytes-from_le_bytes xs h.1)

pub to_le_bytes-one : (v : ℕ) → v < 256 → to_le_bytes 1 v ≡ v ∷ []
to_le_bytes-one v h = ap (λ t. t ∷ []) (omega arith)
