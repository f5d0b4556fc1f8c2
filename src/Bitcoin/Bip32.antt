-- ===== src/Bitcoin/Bip32.antt =====
-- lib/cashweb-bitcoin/src/bip32.rs: child numbers, and keys derived along paths.
pub mod Commutes
use cashweb_backends.Common.{
  ℕ, ◌-◌, ◌/◌, ◌%◌, ◌^◌, List, [], ◌∷◌, ◌++◌, length, take, drop, ◌==◌, if◌then◌else◌, to_be_bytes,
}
use cashweb_backends.Common.Exec.{Outcome, ok, err, panic, and_then, map_err, unwrap_ok}
use cashweb_backends.Bitcoin.Secp.{Secp}

pub data IndexError : Type 0 where
  index_error : ℕ → IndexError

pub data ChildNumber : Type 0 where
  normal hardened : ℕ → ChildNumber

-- `n & (1 << 31)` is 0 exactly when this bit is, and `n ^ (1 << 31)` clears it when it is set.
abbrev pub bit31 : ℕ → ℕ
bit31 n = n / 2 ^ 31 % 2

unfoldable pub from_normal_index : ℕ → Outcome IndexError ChildNumber
from_normal_index index = if bit31 index == 0 then ok (normal index) else err (index_error index)

unfoldable pub from_hardened_index : ℕ → Outcome IndexError ChildNumber
from_hardened_index index =
    if bit31 index == 0 then ok (hardened index) else err (index_error index)

unfoldable pub from_u32 : ℕ → ChildNumber
from_u32 number = if bit31 number == 0 then normal number else hardened (number - 2 ^ 31)

-- `try_into().unwrap()` into `[u8; 32]`.
abbrev pub array_32 : {E : Type 0} → List ℕ → Outcome E (List ℕ)
array_32 xs = if length xs == 32 then ok xs else panic

pub data DeriveError (SecpError : Type 0) : Type 0 where
  hardened_derive_error : DeriveError SecpError
  invalid_tweak : SecpError → DeriveError SecpError

pub record ExtendedPublicKey (PublicKey : Type 0) : Type 0 where
  pub public_key : PublicKey
  pub chain_code : List ℕ

pub record ExtendedPrivateKey (SecretKey : Type 0) : Type 0 where
  pub private_key : SecretKey
  pub chain_code : List ℕ

module _ (secp : Secp) where
  open secp use {
    PublicKey, SecretKey, SecpError, serialize, secret_bytes, secret_from_slice, from_secret_key,
    add_exp_assign, add_assign, hmac_sha512,
  }

  unfoldable pub new_master_public : PublicKey → List ℕ → ExtendedPublicKey PublicKey
  new_master_public public_key chain_code = record {
    public_key = public_key;
    chain_code = chain_code;
  }

  unfoldable pub new_master_private : SecretKey → List ℕ → ExtendedPrivateKey SecretKey
  new_master_private private_key chain_code = record {
    private_key = private_key;
    chain_code = chain_code;
  }

  -- Both halves of the HMAC, the first as a secret key.
  abbrev pub split_hmac : {E : Type 0} → List ℕ → Outcome E (SecretKey × List ℕ)
  split_hmac hmac_result =
      and_then (unwrap_ok (secret_from_slice (take 32 hmac_result)))
        λ key. and_then (array_32 (drop 32 hmac_result)) λ chain_code. ok (key, chain_code)

  unfoldable pub derive_public_child :
      ExtendedPublicKey PublicKey
      → ChildNumber
      → Outcome (DeriveError SecpError) (ExtendedPublicKey PublicKey)
  derive_public_child parent (hardened index) = err hardened_derive_error
  derive_public_child parent (normal index) =
      and_then
        (split_hmac
          (hmac_sha512 parent.chain_code (serialize parent.public_key ++ to_be_bytes 4 index)))
        λ halves.
          and_then
            (map_err invalid_tweak (add_exp_assign parent.public_key (secret_bytes halves.0)))
            λ public_key. ok (record { public_key = public_key; chain_code = halves.1 })

  -- The data that goes into the HMAC of a private derivation.
  unfoldable pub private_data : SecretKey → ChildNumber → List ℕ
  private_data private_key (normal index) =
      serialize (from_secret_key private_key) ++ to_be_bytes 4 index
  private_data private_key (hardened index) = 0 ∷ (secret_bytes private_key ++ to_be_bytes 4 index)

  unfoldable pub derive_private_child :
      {E : Type 0}
      → ExtendedPrivateKey SecretKey
      → ChildNumber
      → Outcome E (ExtendedPrivateKey SecretKey)
  derive_private_child parent child_number =
      and_then
        (split_hmac (hmac_sha512 parent.chain_code (private_data parent.private_key child_number)))
        λ halves.
          and_then (unwrap_ok (add_assign halves.0 (secret_bytes parent.private_key)))
            λ private_key. ok (record { private_key = private_key; chain_code = halves.1 })

  -- The loops over the path; the first step is taken before the loop with the same effect.
  unfoldable pub derive_public_path :
      ExtendedPublicKey PublicKey
      → List ChildNumber
      → Outcome (DeriveError SecpError) (ExtendedPublicKey PublicKey)
  derive_public_path key [] = ok key
  derive_public_path key (num ∷ path) =
      and_then (derive_public_child key num) λ child. derive_public_path child path

  unfoldable pub derive_private_path :
      {E : Type 0}
      → ExtendedPrivateKey SecretKey
      → List ChildNumber
      → Outcome E (ExtendedPrivateKey SecretKey)
  derive_private_path key [] = ok key
  derive_private_path key (num ∷ path) =
      and_then (derive_private_child key num) λ child. derive_private_path child path
