-- ===== src/Bitcoin/Bip32/Commutes.antt =====
-- Deriving a public child from a public key, or taking the public key of a derived private child.
use cashweb_backends.Common.{
  take, ℕ, ◌+◌, ◌<◌, ◌≤◌, ◌^◌, ◌≡◌, ap, List, [], ◌∷◌, ◌++◌, All, ◌≢◌, arith, drop,
}
use cashweb_backends.Common.Exec.{Outcome, ok, err, panic}
use cashweb_backends.Common.Exec.Rules.{and_then-eq-ok, unwrap_ok-eq-ok}
use cashweb_backends.Bitcoin.Secp.{Secp, IsSecp}
use cashweb_backends.Bitcoin.Bip32.{
  ChildNumber, normal, hardened, index_error, from_normal_index, from_hardened_index, from_u32,
  ExtendedPublicKey, ExtendedPrivateKey, split_hmac, array_32, derive_public_child,
  derive_private_child, private_data, derive_public_path, derive_private_path,
}

-- An index makes a child number of either kind exactly when it is below 2 ^ 31, and the numbers of 32
-- bits stand for the normal child numbers, then the hardened ones, each once.
pub child_number_lem :
    (n : ℕ)
    → n < 2 ^ 32
    → (n < 2 ^ 31
        → (from_normal_index n ≡ ok (normal n))
          × (from_hardened_index n ≡ ok (hardened n))
          × (from_u32 n ≡ normal n)
          × (from_u32 (n + 2 ^ 31) ≡ hardened n))
      × (2 ^ 31 ≤ n
          → (from_normal_index n ≡ err (index_error n))
            × (from_hardened_index n ≡ err (index_error n)))
unfolding from_normal_index from_hardened_index from_u32
child_number_lem n h = (
  λ low. (ground arith, ground arith, ground arith, ground arith),
  λ high. (ground arith, ground arith),
)

abbrev pub IsNormal : ChildNumber → Type 0
IsNormal (normal index) = Unit
IsNormal (hardened index) = ⊥

array_ok :
    {D E : Type 0} (xs code : List ℕ)
    → array_32 {E = D} xs ≡ ok code
    → array_32 {E = E} xs ≡ ok code
array_ok xs code h = ground arith

abbrev map_ok : {D E A B : Type 0} → (A → B) → Outcome D A → Outcome E B
map_ok f (ok a) = ok (f a)
map_ok f (err e) = panic
map_ok f panic = panic

module _ (secp : Secp) (laws : IsSecp secp) where
  open secp use {PublicKey, SecretKey, SecpError, from_secret_key}

  abbrev pub neuter : ExtendedPrivateKey SecretKey → ExtendedPublicKey PublicKey
  neuter key = record { public_key = from_secret_key key.private_key; chain_code = key.chain_code }

  split_ok :
      {D E : Type 0} (xs : List ℕ) (p : SecretKey × List ℕ)
      → split_hmac secp {E = D} xs ≡ ok p
      → split_hmac secp {E = E} xs ≡ ok p
  split_ok {E = E} xs p h =
      let (key, e, h1) = and_then-eq-ok _ _ h in
      let (code, e1, h2) = and_then-eq-ok _ _ h1 in
      let slice : secp.secret_from_slice (take 32 xs) ≡ ok key = unwrap_ok-eq-ok _ e in
      let array : array_32 {E = E} (drop 32 xs) ≡ ok code = array_ok (drop 32 xs) code e1 in
      rw (slice, array) (ap (map_ok (λ q. q)) h2)

  -- Where a private key has a normal child, its public key has the child's public key as a child, with
  -- the same chain code.
  pub child_commutes :
      {E : Type 0} (parent child : ExtendedPrivateKey SecretKey) (index : ℕ)
      → derive_private_child secp {E = E} parent (normal index) ≡ ok child
      → derive_public_child secp (neuter parent) (normal index) ≡ ok (neuter child)
  unfolding derive_private_child derive_public_child private_data
  child_commutes parent child index h =
      let (halves, e1, h1) = and_then-eq-ok _ _ h in
      let (key, e2, h2) = and_then-eq-ok _ _ h1 in
      rw
        (
          split_ok _ halves e1,
          laws.add_exp_lem halves.0 parent.private_key key (unwrap_ok-eq-ok _ e2),
        )
        (ap (map_ok neuter) h2)

  -- Along a path of normal child numbers, whatever its length, the public path from the public key
  -- leads to the public key of what the private path leads to, and does so without an error or a panic
  -- whenever the private path returns.
  pub path_commutes :
      {E : Type 0} (path : List ChildNumber) (parent child : ExtendedPrivateKey SecretKey)
      → All IsNormal path
      → derive_private_path secp {E = E} parent path ≡ ok child
      → derive_public_path secp (neuter parent) path ≡ ok (neuter child)
  unfolding derive_private_path derive_public_path
  path_commutes [] parent child p h = ap (map_ok neuter) h
  path_commutes (normal index ∷ path) parent child p h =
      let (next, e, h1) = and_then-eq-ok _ _ h in
      rw (child_commutes parent next index e) (path_commutes path next child p.1 h1)
  path_commutes (hardened index ∷ path) parent child p h = absurd p.0

  -- Public derivation never passes a hardened child number: a path that holds one does not return a key.
  pub hardened_path_fails :
      (before after : List ChildNumber) (index : ℕ) (parent child : ExtendedPublicKey PublicKey)
      → derive_public_path secp parent (before ++ (hardened index ∷ after)) ≢ ok child
  unfolding derive_public_path
  hardened_path_fails [] after index parent child h = unfold derive_public_child in cc h
  hardened_path_fails (num ∷ before) after index parent child h =
      let (next, e, h1) =
        and_then-eq-ok (derive_public_child secp parent num)
          (λ next. derive_public_path secp next (before ++ (hardened index ∷ after))) h in
      hardened_path_fails before after index next child h1
