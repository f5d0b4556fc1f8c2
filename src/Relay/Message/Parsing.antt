-- ===== src/Relay/Message/Parsing.antt =====
-- Parsed messages: what parsing makes sure of, and that a parsed message survives the way back.
use cashweb_backends.Common.{
  ℕ, ◌≡◌, ◌≢◌, refl, sym, ap, ◌∙◌, List, [], ◌∷◌, some, length, bytes_eq, bytes_eq_refl, arith,
  subst, if◌then◌else◌, ◌==◌, ==_iff,
}
use cashweb_backends.Common.Exec.{Outcome, ok, err, and_then, map_err, ok_or}
use cashweb_backends.Common.Exec.Rules.{and_then-eq-ok, map_err-eq-ok, if-ok-eq-ok, value-eq-ok}
use cashweb_backends.Bitcoin.Secp.{IsSecp}
use cashweb_backends.Bitcoin.Bip32.{array_32}
use cashweb_backends.Relay.Stamp.{Crypto}
use cashweb_backends.Relay.Message.{
  source_error, destination_error, digest_error, missing_stamp, unsupported_scheme, DigestError,
  fraudulent_digest, unexpected_length_digest, Message, ParsedMessage, EncryptionScheme,
  no_encryption, ephemeral_dh, scheme_from_i32, scheme_into, digest, into_message, parse,
}

-- A digest of 32 bytes, that of the payload unless the payload is left out, and an HMAC of 32 bytes.
pub record IsParsed {PublicKey : Type 0} (sha256 : List ℕ → List ℕ) (p : ParsedMessage PublicKey)
    : Type 0 where
  pub digest_len : length p.payload_digest ≡ 32
  pub digest_of_payload : p.payload ≢ [] → p.payload_digest ≡ sha256 p.payload
  pub hmac_len : length p.payload_hmac ≡ 32

cons_ne_nil : {x : ℕ} {xs : List ℕ} → (x ∷ xs) ≢ []
cons_ne_nil e = cc

pub array_32-ok : {E : Type 0} {xs : List ℕ} → length xs ≡ 32 → array_32 {E = E} xs ≡ ok xs
array_32-ok len = rw len refl

-- `digest` of a payload that is not empty, on the array of its digest.
abbrev digest_long : List ℕ → Outcome DigestError (List ℕ) → Outcome DigestError (List ℕ)
digest_long given array =
    if length given == 0
    then array
    else if length given == 32
    then (and_then array
        λ calculated. if bytes_eq calculated given then ok calculated else err fraudulent_digest)
    else err unexpected_length_digest

sha_out :
    (given calculated out : List ℕ) → digest_long given (ok calculated) ≡ ok out → calculated ≡ out
sha_out given calculated out h = ground arith

module _ (sha256 : List ℕ → List ℕ) (sha256_len : (xs : List ℕ) → length (sha256 xs) ≡ 32) where
  digest-returned :
      (given payload out : List ℕ)
      → digest sha256 given payload ≡ ok out
      → (length out ≡ 32) × (payload ≢ [] → out ≡ sha256 payload)
  unfolding digest
  digest-returned given [] out h = (ground arith, λ n. absurd (n refl))
  digest-returned given (x ∷ payload) out h =
      let array : array_32 {E = DigestError} (sha256 (x ∷ payload)) ≡ ok (sha256 (x ∷ payload)) =
        array_32-ok (sha256_len (x ∷ payload)) in
      let same : sha256 (x ∷ payload) ≡ out =
        sha_out given _ out (subst (λ r. digest_long given r ≡ ok out) array h) in
      (ap length (sym same) ∙ sha256_len (x ∷ payload), λ n. sym same)

  digest-given :
      (given payload : List ℕ)
      → length given ≡ 32
      → (payload ≢ [] → given ≡ sha256 payload)
      → digest sha256 given payload ≡ ok given
  unfolding digest
  digest-given given [] len same = rw len refl
  digest-given given (x ∷ payload) len same =
      let equal : given ≡ sha256 (x ∷ payload) = same (λ e. absurd (cons_ne_nil e)) in
      rw
        (
          len,
          array_32-ok {E = DigestError} (sha256_len (x ∷ payload)),
          sym equal,
          bytes_eq_refl given,
        )
        refl

scheme-round : (s : EncryptionScheme) → scheme_from_i32 (scheme_into s) ≡ some s
unfolding scheme_from_i32 scheme_into
scheme-round no_encryption = refl
scheme-round ephemeral_dh = refl

module _ (crypto : Crypto) (laws : IsSecp crypto.secp)
    (sha256_len : (xs : List ℕ) → length (crypto.sha256 xs) ≡ 32) where
  open crypto use {secp}
  open secp use {PublicKey}

  parse-IsParsed :
      (m : Message) (p : ParsedMessage PublicKey) → parse crypto m ≡ ok p → IsParsed crypto.sha256 p
  unfolding parse
  parse-IsParsed m p h =
      let (source, e1, h1) =
        and_then-eq-ok (map_err source_error (secp.public_from_slice m.source_public_key)) _ h in
      let (destination, e2, h2) =
        and_then-eq-ok (map_err destination_error (secp.public_from_slice m.destination_public_key))
          _ h1 in
      let (digest', e3, h3) =
        and_then-eq-ok (map_err digest_error (digest crypto.sha256 m.payload_digest m.payload)) _
          h2 in
      let (stamp, e4, h4) = and_then-eq-ok (ok_or m.stamp missing_stamp) _ h3 in
      let (scheme, e5, h5) =
        and_then-eq-ok (ok_or (scheme_from_i32 m.scheme) unsupported_scheme) _ h4 in
      let (hmac, e6, h6) = and_then-eq-ok _ _ h5 in
      let (len, same) =
        digest-returned crypto.sha256 sha256_len m.payload_digest m.payload digest'
          (map_err-eq-ok _ _ e3) in
      let (hmac_len, hmac_same) = if-ok-eq-ok (length m.payload_hmac == 32) _ _ e6 in
      let hmac_32 : length hmac ≡ 32 =
        subst (λ xs. length xs ≡ 32) (value-eq-ok (ok m.payload_hmac) hmac_same)
          ((==_iff _ _).0 hmac_len) in
      subst (IsParsed crypto.sha256) (value-eq-ok (ok _) h6)
        (record { digest_len = len; digest_of_payload = same; hmac_len = hmac_32 })

  -- Every message that parses has a digest of 32 bytes, that of its payload unless the payload is left
  -- out, and an HMAC of 32 bytes. Every parsed message of that kind comes back from the message that
  -- `into_message` makes of it.
  pub parse-into_message :
      ((m : Message) (p : ParsedMessage PublicKey)
        → parse crypto m ≡ ok p
        → IsParsed crypto.sha256 p)
      × ((p : ParsedMessage PublicKey)
          → IsParsed crypto.sha256 p
          → parse crypto (into_message crypto p) ≡ ok p)
  unfolding parse into_message
  parse-into_message = (
    parse-IsParsed,
    λ p v.
        rw
          (
            laws.serialize_lem p.source_public_key,
            laws.serialize_lem p.destination_public_key,
            digest-given crypto.sha256 sha256_len p.payload_digest p.payload v.digest_len
                v.digest_of_payload,
            scheme-round p.scheme,
            v.hmac_len,
          )
          refl,
  )
