-- ===== src/Bitcoin/Merkle/Root.antt =====
-- The root and the height that `lotus_merkle_root` returns, against the levels of the tree.
use cashweb_backends.Common.{
  ℕ, zero, suc, ◌+◌, ◌*◌, ◌/◌, ◌%◌, ◌^◌, ◌≤◌, ◌<◌, ◌≡◌, refl, sym, ap, ◌∙◌, List, [], ◌∷◌, ◌++◌,
  some, length, arith, take, IsU64,
}
use native.Mathlib.Nat.{pow-succ'}
use cashweb_backends.Bitcoin.Merkle.{
  Hash, null_hash, sha256d, pair_loop, lotus_merkle_root_inline, lotus_merkle_root,
}
use cashweb_backends.Bitcoin.Merkle.Pairs.{pair_up, length-pair_up, pair_loop-eq-pair_up}

module _ (sha256 : List ℕ → Hash) where
  -- The hashes `k` levels up.
  abbrev pub level : ℕ → List Hash → List Hash
  level zero hs = hs
  level (suc k) hs = level k (pair_up sha256 hs)

  -- `root` stands alone `k` levels up, and `k` is the least number of levels that can do it.
  pub record IsRoot (hs : List Hash) (k : ℕ) (root : Hash) : Type 0 where
    pub alone : level k hs ≡ root ∷ []
    pub enough : length hs ≤ 2 ^ k
    pub least : 2 ^ k < 2 * length hs

  -- A list with a root above it has a root one level further up.
  IsRoot-up :
      (x y : Hash) (r : List Hash) (k : ℕ) (root : Hash)
      → IsRoot (pair_up sha256 (x ∷ y ∷ r)) k root
      → IsRoot (x ∷ y ∷ r) (suc k) root
  IsRoot-up x y r zero root above = record {
    alone = above.alone;
    enough = omega (arith, above.enough, length-pair_up sha256 (x ∷ y ∷ r));
    least = omega arith;
  }
  IsRoot-up x y r (suc k) root above =
      let twice : 2 ^ suc k ≡ 2 * 2 ^ k = pow-succ' 2 k in
      let again : 2 ^ suc (suc k) ≡ 2 * 2 ^ suc k = pow-succ' 2 (suc k) in
      record {
        alone = above.alone;
        enough = omega (arith, above.enough, length-pair_up sha256 (x ∷ y ∷ r));
        least = omega (arith, above.least, length-pair_up sha256 (x ∷ y ∷ r));
      }

  inline-step :
      (fuel : ℕ) (x y : Hash) (r : List Hash) (height : ℕ)
      → lotus_merkle_root_inline sha256 (suc fuel) (x ∷ y ∷ r) height
        ≡ lotus_merkle_root_inline sha256 fuel (pair_up sha256 (x ∷ y ∷ r)) ((height + 1) % 256)
  unfolding lotus_merkle_root_inline
  inline-step fuel x y r height =
      let hs : List Hash = x ∷ y ∷ r in
      let half : (length hs + 1) / 2 ≡ length hs / 2 + length hs % 2 = omega arith in
      ap (λ t. lotus_merkle_root_inline sha256 fuel t ((height + 1) % 256))
        (ap (λ n. take (length hs / 2 + length hs % 2) (pair_loop sha256 (length hs) n 0 hs)) half
          ∙ pair_loop-eq-pair_up sha256 hs _ (sym half))

  -- Each level at least halves the hashes, so a list of at most 2 ^ bits has at most `bits` levels.
  inline_lem :
      (bits fuel height : ℕ) (x : Hash) (r : List Hash)
      → length (x ∷ r) ≤ fuel
      → length (x ∷ r) ≤ 2 ^ bits
      → height + bits < 256
      → (k : ℕ) × (root : Hash) × (lotus_merkle_root_inline sha256 fuel (x ∷ r) height
          ≡ some (root, height + k))
        × IsRoot (x ∷ r) k root
  unfolding pair_up
  inline_lem bits fuel height x [] f b h = (
    0,
    x,
    unfold lotus_merkle_root_inline in ap (λ t. some (x, t)) (omega arith),
    record { alone = refl; enough = omega arith; least = omega arith },
  )
  inline_lem zero fuel height x (y ∷ r) f b h = absurd (omega arith)
  inline_lem (suc bits) zero height x (y ∷ r) f b h = absurd (omega arith)
  inline_lem (suc bits) (suc fuel) height x (y ∷ r) f b h =
      let halved = length-pair_up sha256 (x ∷ y ∷ r) in
      let twice : 2 ^ suc bits ≡ 2 * 2 ^ bits = pow-succ' 2 bits in
      let no_wrap : (height + 1) % 256 ≡ height + 1 = omega arith in
      let (k, root, e, above) =
        inline_lem bits fuel (height + 1) (sha256d sha256 (x ++ y)) (pair_up sha256 r) (omega arith)
          (omega arith) (omega arith) in
      (
        suc k,
        root,
        inline-step fuel x y r height
            ∙ ap (λ t. lotus_merkle_root_inline sha256 fuel (pair_up sha256 (x ∷ y ∷ r)) t) no_wrap
            ∙ e
            ∙ ap (λ t. some (root, t)) (omega arith),
        IsRoot-up x y r k root above,
      )

  -- For fewer than 2 ^ 64 hashes, one at least, the code returns the root that stands alone the least
  -- number of levels up, and one more than that number as the height, which does not wrap. For no
  -- hashes it returns the null hash at height 0.
  pub lotus_merkle_root_lem :
      (lotus_merkle_root sha256 [] ≡ some (null_hash, 0))
      × ((x : Hash) (r : List Hash)
          → IsU64 (length (x ∷ r))
          → (k : ℕ) × (root : Hash) × (lotus_merkle_root sha256 (x ∷ r) ≡ some (root, 1 + k))
            × IsRoot (x ∷ r) k root)
  unfolding lotus_merkle_root
  lotus_merkle_root_lem = (
    unfold lotus_merkle_root_inline in refl,
    λ x r h. inline_lem 64 (length (x ∷ r)) 1 x r (omega arith) (omega arith) (omega arith),
  )
