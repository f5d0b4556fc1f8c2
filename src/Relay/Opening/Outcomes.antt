-- ===== src/Relay/Opening/Outcomes.antt =====
-- What a message has to be to open, and what opening returns.
use cashweb_backends.Common.{
  ℕ, ◌≡◌, ◌↔◌, refl, sym, ap, ap₂, ◌∙◌, List, take, drop, length, bytes_eq, bytes_eq→eq,
  bytes_eq_refl, subst, Bool-cases, inl, inr, ◌==◌, ==_iff,
}
use cashweb_backends.Common.Exec.{ok, map_err, ◌>>=◌}
use cashweb_backends.Common.Exec.Rules.{
  and_then-eq-ok, map_err-eq-ok, if-ok-eq-ok, value-eq-ok, continue-eq-ok,
}
use cashweb_backends.Bitcoin.Secp.{IsSecp}
use cashweb_backends.Bitcoin.Transaction.{Transaction}
use cashweb_backends.Relay.Stamp.{Crypto}
use cashweb_backends.Relay.Message.{
  ParsedMessage, authenticate, parsed_authenticate, parsed_verify_stamp, create_shared_key,
  create_merged_key,
}
use cashweb_backends.Relay.Message.Parsing.{array_32-ok}
use cashweb_backends.Relay.Opening.{
  Cipher, IsCipher, Opened, Error, stamp_error, shared_key_error, authentication, payload_error,
  decrypt_error, split_key, encrypt_payload, admit, open_message, decrypt_payload, decode_self,
  decode_opened, open_admitted, open_in_place,
}

module _ (crypto : Crypto) where
  open crypto use {secp}
  open secp use {PublicKey, SecretKey, hmac_sha256}

  -- A message authenticates exactly when its salt is the HMAC of its digest under the shared key; the
  -- HMAC that the message carries plays no part.
  pub parsed_authenticate_iff :
      (p : ParsedMessage PublicKey) (shared_key : List ℕ)
      → ((parsed_authenticate crypto p shared_key ≡ ok tt)
          ↔ (hmac_sha256 shared_key p.payload_digest ≡ p.salt))
        × ((payload_hmac : List ℕ)
            → parsed_authenticate crypto (record p { payload_hmac = payload_hmac }) shared_key
              ≡ parsed_authenticate crypto p shared_key)
  unfolding parsed_authenticate authenticate
  parsed_authenticate_iff p shared_key =
      let mac = hmac_sha256 shared_key p.payload_digest in
      (
        (
          λ h. bytes_eq→eq mac p.salt (if-ok-eq-ok (bytes_eq mac p.salt) _ _ h).0,
          λ e.
              subst
                (λ salt. parsed_authenticate crypto (record p { salt = salt }) shared_key ≡ ok tt) e
                (rw (bytes_eq_refl mac) refl),
        ),
        λ payload_hmac. refl,
      )

  module _ (cipher : Cipher) where
    -- The stamp verifies, and the salt is the HMAC under the key shared with the source.
    abbrev pub Admitted : ParsedMessage PublicKey → List ℕ → List Transaction → List ℕ → Type 0
    Admitted p private_key txs shared_key =
        (parsed_verify_stamp crypto p ≡ ok txs)
        × (create_shared_key crypto p.source_public_key private_key p.salt ≡ ok shared_key)
        × (hmac_sha256 shared_key p.payload_digest ≡ p.salt)

    split_key-ok :
        {E : Type 0} (shared_key : List ℕ) {halves : List ℕ × List ℕ}
        → split_key {E = E} shared_key ≡ ok halves
        → (length shared_key ≡ 32) × (halves ≡ (take 16 shared_key, drop 16 shared_key))
    unfolding split_key
    split_key-ok {E = E} shared_key h = elim (Bool-cases (length shared_key == 32)) [
      | inl fits ↦ ((==_iff (length shared_key) 32).0 fits, cc (h, fits))
      | inr other ↦ cc (h, other)
    ]

    admit-Admitted :
        (p : ParsedMessage PublicKey) (private_key : List ℕ) (txs : List Transaction)
        (halves : List ℕ × List ℕ)
        → admit crypto cipher p private_key ≡ ok (txs, halves)
        → (shared_key : List ℕ) × Admitted p private_key txs shared_key
          × (length shared_key ≡ 32)
          × (halves ≡ (take 16 shared_key, drop 16 shared_key))
    unfolding admit
    admit-Admitted p private_key txs halves h =
        let (txs', v, h1) =
          and_then-eq-ok (map_err stamp_error (parsed_verify_stamp crypto p)) _ h in
        let (shared_key, k, h2) =
          and_then-eq-ok
            (map_err shared_key_error
              (create_shared_key crypto p.source_public_key private_key p.salt))
            _ h1 in
        let (u, a, h3) =
          and_then-eq-ok (map_err (λ e. authentication) (parsed_authenticate crypto p shared_key)) _
            h2 in
        let (halves', s, h4) = and_then-eq-ok (split_key shared_key) _ h3 in
        let same : (txs', halves') ≡ (txs, halves) = value-eq-ok (ok (txs', halves')) h4 in
        let (fits, split) = split_key-ok {E = Error crypto cipher} shared_key s in
        (
          shared_key,
          (
            subst (λ t. parsed_verify_stamp crypto p ≡ ok t) (ap (λ q. q.0) same)
                (map_err-eq-ok _ _ v),
            map_err-eq-ok _ _ k,
            (parsed_authenticate_iff p shared_key).0.0 (map_err-eq-ok _ _ a),
          ),
          fits,
          sym (ap (λ q. q.1) same) ∙ split,
        )

    -- `open` returns only for a message whose stamp verifies and whose salt is the HMAC of its digest
    -- under the shared key, which has 32 bytes, and only if the cipher decrypts the payload with the
    -- first 16 of them as key and the last 16 as initial vector; the payload that it returns is decoded
    -- from the encrypted bytes themselves.
    pub open_message_lem :
        (p : ParsedMessage PublicKey) (private_key : List ℕ) (opened : Opened cipher.Payload)
        → open_message crypto cipher p private_key ≡ ok opened
        → (shared_key : List ℕ) × (plaintext : List ℕ) × Admitted p private_key opened.txs
            shared_key
          × (length shared_key ≡ 32)
          × (cipher.decrypt_vec (take 16 shared_key) (drop 16 shared_key) p.payload ≡ ok plaintext)
          × (cipher.decode_payload p.payload ≡ ok opened.payload)
    unfolding open_message
    open_message_lem p private_key opened h =
        let ((txs, halves), a, h1) = and_then-eq-ok (admit crypto cipher p private_key) _ h in
        let (plaintext, d, h2) =
          and_then-eq-ok (map_err decrypt_error (cipher.decrypt_vec halves.0 halves.1 p.payload)) _
            h1 in
        let (payload, c, h3) =
          and_then-eq-ok (map_err payload_error (cipher.decode_payload p.payload)) _ h2 in
        let same : record { txs = txs; payload = payload } ≡ opened =
          value-eq-ok (ok (record { txs = txs; payload = payload })) h3 in
        let (shared_key, admitted, fits, split) = admit-Admitted p private_key txs halves a in
        (
          shared_key,
          plaintext,
          subst (λ (o : Opened cipher.Payload). Admitted p private_key o.txs shared_key) same
              admitted,
          fits,
          subst (λ (k : List ℕ × List ℕ). cipher.decrypt_vec k.0 k.1 p.payload ≡ ok plaintext) split
              (map_err-eq-ok _ _ d),
          subst (λ (o : Opened cipher.Payload). cipher.decode_payload p.payload ≡ ok o.payload) same
              (map_err-eq-ok _ _ c),
        )

    -- `open_in_place` returns only for a message whose stamp verifies and whose salt is the HMAC of its
    -- digest under the shared key, which has 32 bytes, and only if the cipher decrypts the payload in
    -- place with the first 16 of them as key and the last 16 as initial vector. The payload that it
    -- returns is decoded from all that the cipher leaves in the message, which keeps everything else.
    pub open_in_place_lem :
        (p p' : ParsedMessage PublicKey) (private_key : List ℕ) (opened : Opened cipher.Payload)
        → open_in_place crypto cipher private_key p ≡ (ok opened, p')
        → (shared_key : List ℕ) × Admitted p private_key opened.txs shared_key
          × (length shared_key ≡ 32)
          × (cipher.decrypt_in_place (take 16 shared_key) (drop 16 shared_key) p.payload
              ≡ (ok tt, p'.payload))
          × (cipher.decode_payload p'.payload ≡ ok opened.payload)
          × (p' ≡ record p { payload = p'.payload })
    unfolding open_in_place open_admitted decode_opened ◌>>=◌ decrypt_payload decode_self
    open_in_place_lem p p' private_key opened h =
        let ((txs, halves), q, a, h1) =
          continue-eq-ok (open_admitted crypto cipher) (admit crypto cipher p private_key, p) h in
        let (u, r, d, h2) =
          continue-eq-ok (λ u. decode_opened crypto cipher txs)
            (decrypt_payload crypto cipher halves q) h1 in
        let (payload, t, c, h3) =
          continue-eq-ok (λ payload s. (ok (record { txs = txs; payload = payload }), s))
            (decode_self crypto cipher r) h2 in
        let same : record { txs = txs; payload = payload } ≡ opened =
          value-eq-ok (ok (record { txs = txs; payload = payload })) (ap (λ z. z.0) h3) in
        let (shared_key, admitted, fits, split) =
          admit-Admitted p private_key txs halves (ap (λ z. z.0) a) in
        let same_r : r ≡ p' = ap (λ z. z.1) c ∙ ap (λ z. z.1) h3 in
        let d' : decrypt_payload crypto cipher halves p ≡ (ok u, p') =
          ap (decrypt_payload crypto cipher halves) (ap (λ z. z.1) a)
          ∙ d
          ∙ ap (λ z. (ok u, z)) same_r in
        let buffer : record p { payload = (cipher.decrypt_in_place halves.0 halves.1 p.payload).1 }
            ≡ p' =
          ap (λ z. z.1) d' in
        let left : (cipher.decrypt_in_place halves.0 halves.1 p.payload).1 ≡ p'.payload =
          ap (λ (m : ParsedMessage PublicKey). m.payload) buffer in
        let decoded : cipher.decode_payload p'.payload ≡ ok payload =
          subst (λ (m : ParsedMessage PublicKey). cipher.decode_payload m.payload ≡ ok payload)
            same_r (map_err-eq-ok _ _ (ap (λ z. z.0) c)) in
        (
          shared_key,
          subst (λ (o : Opened cipher.Payload). Admitted p private_key o.txs shared_key) same
              admitted,
          fits,
          subst
              (λ (k : List ℕ × List ℕ).
                cipher.decrypt_in_place k.0 k.1 p.payload ≡ (ok tt, p'.payload))
              split (ap₂ (λ x y. (x, y)) (map_err-eq-ok decrypt_error _ (ap (λ z. z.0) d')) left),
          subst (λ (o : Opened cipher.Payload). cipher.decode_payload p'.payload ≡ ok o.payload)
              same decoded,
          sym buffer ∙ ap (λ bytes. record p { payload = bytes }) left,
        )

    module _ (laws : IsSecp secp) (cipher_laws : IsCipher cipher) where
      open secp use {from_secret_key, secret_bytes}

      -- The sender, from the destination's public key, and the receiver, from the source's, make the
      -- same key for a salt or the same error, and the key is one whose halves fit the cipher: what
      -- the sender encrypts under it the receiver decrypts.
      pub create_shared_key-agree :
          (source destination : SecretKey) (salt : List ℕ)
          → (create_shared_key crypto (from_secret_key destination) (secret_bytes source) salt
              ≡ create_shared_key crypto (from_secret_key source) (secret_bytes destination) salt)
            × ((shared_key plaintext : List ℕ)
                → create_shared_key crypto (from_secret_key source) (secret_bytes destination) salt
                  ≡ ok shared_key
                → (halves : List ℕ × List ℕ) × (ciphertext : List ℕ) × (split_key {E = Unit {0}}
                      shared_key
                    ≡ ok halves)
                  × (encrypt_payload crypto cipher {E = Unit {0}} shared_key plaintext
                      ≡ ok ciphertext)
                  × (cipher.decrypt_vec halves.0 halves.1 ciphertext ≡ ok plaintext))
      unfolding create_shared_key create_merged_key encrypt_payload split_key
      create_shared_key-agree source destination salt = (
        rw (laws.mul_lem source destination) refl,
        λ shared_key plaintext h.
            let (merged, m, h1) =
              and_then-eq-ok (secp.mul_assign (from_secret_key source) (secret_bytes destination)) _
                h in
            let mac = hmac_sha256 (secp.serialize merged) salt in
            let len = laws.hmac_sha256_len (secp.serialize merged) salt in
            let same : mac ≡ shared_key =
              value-eq-ok (ok mac) (sym (array_32-ok {E = secp.SecpError} len) ∙ h1) in
            let fits : length shared_key ≡ 32 = ap length (sym same) ∙ len in
            let halves : List ℕ × List ℕ = (take 16 shared_key, drop 16 shared_key) in
            (
              halves,
              cipher.encrypt_vec halves.0 halves.1 plaintext,
              rw fits refl,
              rw fits refl,
              cipher_laws.decrypt_lem halves.0 halves.1 plaintext,
            ),
      )
