-- ===== src/Bitcoin/Merkle.antt =====
-- lib/cashweb-bitcoin/src/merkle.rs. SHA-256 (the `ring` crate) is the parameter `sha256`.
pub mod Pairs
pub mod Root
use cashweb_backends.Common.{
  ℕ, zero, suc, ◌+◌, ◌-◌, ◌*◌, ◌/◌, ◌%◌, List, [], ◌∷◌, ◌++◌, Option, none, some, length, get_or,
  set, take, replicate, if◌then◌else◌, ◌==◌,
}

abbrev pub Hash : Type 0
Hash = List ℕ

unfoldable pub null_hash : Hash
null_hash = replicate 32 0

module _ (sha256 : List ℕ → Hash) where
  unfoldable pub sha256d : List ℕ → Hash
  sha256d raw = sha256 (sha256 raw)

  -- The hash of two neighbours; the last of an odd number has the null hash beside it.
  unfoldable pub pair_hash : ℕ → ℕ → List Hash → Hash
  pair_hash len idx hashes =
      let idx1 = 2 * idx in
      let hash1 = get_or hashes idx1 null_hash in
      let hash2 = if idx1 + 1 == len then null_hash else get_or hashes (idx1 + 1) null_hash in
      sha256d (hash1 ++ hash2)

  -- `for idx in idx..(idx + n)`: the slice is overwritten from the front while it is read.
  unfoldable pub pair_loop : ℕ → ℕ → ℕ → List Hash → List Hash
  pair_loop len zero idx hashes = hashes
  pair_loop len (suc n) idx hashes =
      pair_loop len n (idx + 1) (set hashes idx (pair_hash len idx hashes))

  -- The height is a `u8`. Each call at least halves a slice of two or more, so the length of the
  -- slice is fuel enough; `none` means that the fuel ran out.
  unfoldable pub lotus_merkle_root_inline : ℕ → List Hash → ℕ → Option (Hash × ℕ)
  lotus_merkle_root_inline fuel [] height = some (null_hash, (height + 255) % 256)
  lotus_merkle_root_inline fuel (x ∷ []) height = some (x, height)
  lotus_merkle_root_inline zero (x ∷ y ∷ r) height = none
  lotus_merkle_root_inline (suc fuel) (x ∷ y ∷ r) height =
      let hashes = x ∷ y ∷ r in
      let len = length hashes in
      let paired = pair_loop len ((len + 1) / 2) 0 hashes in
      let half_len = len / 2 + len % 2 in
      lotus_merkle_root_inline fuel (take half_len paired) ((height + 1) % 256)

  unfoldable pub lotus_merkle_root : List Hash → Option (Hash × ℕ)
  lotus_merkle_root hashes = lotus_merkle_root_inline (length hashes) hashes 1
