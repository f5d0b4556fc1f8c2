-- ===== src/Bitcoin/Secp.antt =====
-- The `secp256k1` crate and the HMACs of the `ring` crate as an interface, with what their
-- documentation states of keys and tweaks.
use cashweb_backends.Common.{length, ℕ, ◌≡◌, List}
use cashweb_backends.Common.Exec.{Outcome, ok}

pub record Secp : Type 1 where
  pub PublicKey : Type 0
  pub SecretKey : Type 0
  pub SecpError : Type 0
  pub serialize : PublicKey → List ℕ
  pub secret_bytes : SecretKey → List ℕ
  pub secret_from_slice : List ℕ → Outcome SecpError SecretKey
  pub from_secret_key : SecretKey → PublicKey
  pub add_exp_assign : PublicKey → List ℕ → Outcome SecpError PublicKey
  pub add_assign : SecretKey → List ℕ → Outcome SecpError SecretKey
  pub combine : PublicKey → PublicKey → Outcome SecpError PublicKey
  pub hmac_sha512 : List ℕ → List ℕ → List ℕ
  pub hmac_sha256 : List ℕ → List ℕ → List ℕ
  pub public_from_slice : List ℕ → Outcome SecpError PublicKey
  pub mul_assign : PublicKey → List ℕ → Outcome SecpError PublicKey

-- Adding a tweak to a secret key adds the tweak's point to its public key; so does the sum of the
-- public keys of two secret keys. A public key is read back from its bytes, and multiplying the point
-- of one secret key by the other gives the same point both ways.
pub record IsSecp (secp : Secp) : Type 0 where
  pub add_exp_lem :
      (tweak key sum : secp.SecretKey)
      → secp.add_assign tweak (secp.secret_bytes key) ≡ ok sum
      → secp.add_exp_assign (secp.from_secret_key key) (secp.secret_bytes tweak)
        ≡ ok (secp.from_secret_key sum)
  pub combine_lem :
      (key tweak sum : secp.SecretKey)
      → secp.add_assign key (secp.secret_bytes tweak) ≡ ok sum
      → secp.combine (secp.from_secret_key key) (secp.from_secret_key tweak)
        ≡ ok (secp.from_secret_key sum)
  pub secret_from_slice_lem :
      (xs : List ℕ) (key : secp.SecretKey)
      → secp.secret_from_slice xs ≡ ok key
      → secp.secret_bytes key ≡ xs
  pub serialize_lem : (key : secp.PublicKey) → secp.public_from_slice (secp.serialize key) ≡ ok key
  pub mul_lem :
      (a b : secp.SecretKey)
      → secp.mul_assign (secp.from_secret_key a) (secp.secret_bytes b)
        ≡ secp.mul_assign (secp.from_secret_key b) (secp.secret_bytes a)
  pub hmac_sha256_len : (key xs : List ℕ) → length (secp.hmac_sha256 key xs) ≡ 32
