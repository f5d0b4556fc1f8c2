-- ===== src/AuthWrapper/Checked.antt =====
-- A wrapper that parses is checked against its own payload.
use cashweb_backends.Common.{ℕ, ◌≡◌, refl, sym, ap, ◌∙◌, List, length, subst, bytes_eq→eq, arith}
use cashweb_backends.Common.Exec.{ok, err, map_err, ok_or}
use cashweb_backends.Common.Exec.Rules.{and_then-eq-ok, map_err-eq-ok, value-eq-ok}
use cashweb_backends.Relay.Message.Parsing.{array_32-ok}
use cashweb_backends.AuthWrapper.{
  Signing, AuthWrapper, ParsedAuthWrapper, VerifyError, schnorr, ecdsa, scheme_from_i32,
  public_key_error, signature_error, unsupported_scheme, invalid_signature, scheme_not_verified,
  digest_of, parse, verify, verify_ecdsa, verify_scheme,
}

module _ (signing : Signing) (sha256_len : (xs : List ℕ) → length (signing.sha256 xs) ≡ 32) where
  open signing use {PublicKey, Signature, SecpError, sha256, verify_message}

  digest_of-sha256 :
      (given payload out : List ℕ) → digest_of signing given payload ≡ ok out → out ≡ sha256 payload
  unfolding digest_of
  digest_of-sha256 given payload out h =
      ground (arith, sha256_len payload, bytes_eq→eq (sha256 payload) given)

  -- When a wrapper parses, its public key and its signature are well formed and the digest is that of
  -- its payload, whether the wrapper gave a digest or not. Its verification never panics: with ECDSA it
  -- is that of the signature on the digest of the payload, and with Schnorr it is an error.
  pub parse-verify :
      (w : AuthWrapper) (p : ParsedAuthWrapper PublicKey Signature)
      → parse signing w ≡ ok p
      → (signing.public_from_slice w.public_key ≡ ok p.public_key)
        × (signing.from_compact w.signature ≡ ok p.signature)
        × (p.payload_digest ≡ sha256 w.payload)
        × (p.scheme ≡ ecdsa
            → verify signing p
              ≡ map_err invalid_signature
                  (verify_message (sha256 w.payload) p.signature p.public_key))
        × (p.scheme ≡ schnorr → verify signing p ≡ err scheme_not_verified)
  unfolding parse verify verify_scheme verify_ecdsa
  parse-verify w p h =
      let (key, e1, h1) =
        and_then-eq-ok (map_err public_key_error (signing.public_from_slice w.public_key)) _ h in
      let (scheme, e2, h2) =
        and_then-eq-ok (ok_or (scheme_from_i32 w.scheme) unsupported_scheme) _ h1 in
      let (signature, e3, h3) =
        and_then-eq-ok (map_err signature_error (signing.from_compact w.signature)) _ h2 in
      let (digest, e4, h4) = and_then-eq-ok (digest_of signing w.payload_digest w.payload) _ h3 in
      let parsed : ParsedAuthWrapper PublicKey Signature = record {
        public_key = key;
        signature = signature;
        scheme = scheme;
        payload = w.payload;
        payload_digest = digest;
      } in
      let same : parsed ≡ p = value-eq-ok (ok parsed) h4 in
      let digest_lem : p.payload_digest ≡ sha256 w.payload =
        sym (ap (λ (q : ParsedAuthWrapper PublicKey Signature). q.payload_digest) same)
        ∙ digest_of-sha256 w.payload_digest w.payload digest e4 in
      (
        subst
            (λ (q : ParsedAuthWrapper PublicKey Signature).
              signing.public_from_slice w.public_key ≡ ok q.public_key)
            same (map_err-eq-ok _ _ e1),
        subst
            (λ (q : ParsedAuthWrapper PublicKey Signature).
              signing.from_compact w.signature ≡ ok q.signature)
            same (map_err-eq-ok _ _ e3),
        digest_lem,
        λ s.
            rw (s, digest_lem, array_32-ok {E = VerifyError SecpError} (sha256_len w.payload)) refl,
        λ s. rw s refl,
      )
