-- ===== src/AuthWrapper/Tests.antt =====
-- The theorem on wrappers at a concrete input.
use cashweb_backends.Common.{ℕ, ◌≡◌, refl, List, [], ◌∷◌, replicate}
use cashweb_backends.Common.Exec.{ok, err, map_err}
use cashweb_backends.Bitcoin.Instances.{sum_digest}
use cashweb_backends.AuthWrapper.{
  AuthWrapper, ParsedAuthWrapper, schnorr, ecdsa, invalid_signature, scheme_not_verified,
  scheme_from_i32, digest_of, parse, verify,
}
use cashweb_backends.AuthWrapper.Instances.{signing}
use cashweb_backends.AuthWrapper.Checked.{parse-verify}

abbrev wrapper : AuthWrapper
wrapper = record {
  public_key = 1 ∷ [];
  signature = 2 ∷ [];
  scheme = 1;
  payload = 3 ∷ 4 ∷ [];
  payload_digest = replicate 32 2;
  burn_amount = 0;
  transactions = [];
}

abbrev parsed : ParsedAuthWrapper (List ℕ) (List ℕ)
parsed = record {
  public_key = 1 ∷ [];
  signature = 2 ∷ [];
  scheme = ecdsa;
  payload = 3 ∷ 4 ∷ [];
  payload_digest = replicate 32 2;
}

parse-verify_example :
    (signing.public_from_slice wrapper.public_key ≡ ok parsed.public_key)
    × (signing.from_compact wrapper.signature ≡ ok parsed.signature)
    × (parsed.payload_digest ≡ sum_digest wrapper.payload)
    × (parsed.scheme ≡ ecdsa
        → verify signing parsed
          ≡ map_err invalid_signature (
              signing.verify_message
                (sum_digest wrapper.payload)
                parsed.signature
                parsed.public_key))
    × (parsed.scheme ≡ schnorr → verify signing parsed ≡ err scheme_not_verified)
unfolding parse scheme_from_i32 digest_of
parse-verify_example = parse-verify signing (λ xs. refl) wrapper parsed refl
