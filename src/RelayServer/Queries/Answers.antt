-- ===== src/RelayServer/Queries/Answers.antt =====
-- What a client gets for a message that was put, and what a removal leaves.
use cashweb_backends.Common.{
  ℕ, ◌≡◌, ◌≢◌, ◌⊎◌, inl, inr, refl, sym, ap, ◌∙◌, List, [], none, take, some, subst,
}
use cashweb_backends.Common.Exec.{ok, err, map_err, ok_or, with_err, mapping_err, ◌>>=◌}
use cashweb_backends.Common.Exec.Rules.{map_err-eq-ok, continue-eq-ok, with_err-eq-ok, ok_or-eq-ok}
use cashweb_backends.Http.{Response, with_body}
use cashweb_backends.Relay.Message.{Message, ParsedMessage, parse}
use cashweb_backends.Relay.Stamp.{Crypto}
use cashweb_backends.RelayServer.Rocks.{Rocks, IsRocks}
use cashweb_backends.RelayServer.Database.{
  digest_namespace, digest_key, key_of, get_message_by_digest, remove_message_by_digest,
}
use cashweb_backends.RelayServer.Database.Digests.{
  UnlessError, UnlessFails, remove_message_by_digest-get,
}
use cashweb_backends.RelayServer.Messages.{Net, Server, pubkey_hash_of, received, put_one}
use cashweb_backends.RelayServer.Messages.Stored.{put_one_lem}
use cashweb_backends.RelayServer.Queries.{
  Query, Codec, get_db, digest_decode, not_found, get_single, get_payloads, get_messages,
  remove_single, remove_for, remove_messages,
}

module _ (codec : Codec) (sha256 : List ℕ → List ℕ) {D : Type 0} (rocks : Rocks D) where
  -- A digest in hexadecimal that leads to what the database has for it.
  single-found :
      (addr text digest : List ℕ) (namespace : ℕ) (d : D) (raw : List ℕ)
      → codec.hex_decode text ≡ ok digest
      → UnlessError (get_message_by_digest rocks addr digest namespace d) (some raw)
      → UnlessFails get_db (get_single codec sha256 rocks addr text namespace d) raw
  unfolding get_single
  single-found addr text digest namespace d raw h (inl g) = inl (rw (h, g) refl)
  single-found addr text digest namespace d raw h (inr (e, g)) = inr (e, rw (h, g) refl)

  single-missing :
      (addr text digest : List ℕ) (namespace : ℕ) (d : D)
      → codec.hex_decode text ≡ ok digest
      → UnlessError (get_message_by_digest rocks addr digest namespace d) none
      → (get_single codec sha256 rocks addr text namespace d ≡ err not_found)
        ⊎ ((e : rocks.RocksError) × (get_single codec sha256 rocks addr text namespace d
              ≡ err (get_db e)))
  unfolding get_single
  single-missing addr text digest namespace d h (inl g) = inl (rw (h, g) refl)
  single-missing addr text digest namespace d h (inr (e, g)) = inr (e, rw (h, g) refl)

  removed :
      (addr text digest : List ℕ) (namespace : ℕ) (d d' : D) (response : Response)
      → codec.hex_decode text ≡ ok digest
      → remove_single codec sha256 rocks addr text namespace d ≡ (ok response, d')
      → (response ≡ with_body 200 [])
        × (remove_message_by_digest rocks addr digest namespace d ≡ (ok (some tt), d'))
  unfolding remove_single mapping_err ◌>>=◌
  removed addr text digest namespace d d' response h r =
      let (raw, d0, a, r1) =
        continue-eq-ok _ (map_err digest_decode (codec.hex_decode text), d) r in
      let (found, d1, b, r2) =
        continue-eq-ok _ (with_err get_db (remove_message_by_digest rocks addr raw namespace d0))
          r1 in
      let (u, d2, c, r3) = continue-eq-ok _ (ok_or found not_found, d1) r2 in
      let e_raw : raw ≡ digest =
        cc (map_err-eq-ok digest_decode (codec.hex_decode text) (ap (λ z. z.0) a), h) in
      let e_found : found ≡ some tt = ok_or-eq-ok found not_found (ap (λ z. z.0) c) in
      let e_d0 : d0 ≡ d = sym (ap (λ z. z.1) a) in
      let e_d1 : d1 ≡ d' = ap (λ z. z.1) c ∙ ap (λ z. z.1) r3 in
      (cc (ap (λ z. z.0) r3), cc (with_err-eq-ok get_db _ b, e_raw, e_found, e_d0, e_d1))

  one_message :
      (addr text raw : List ℕ) (query : Query) (namespace : ℕ) (d : D)
      → query.digest ≡ some text
      → UnlessFails get_db (get_single codec sha256 rocks addr text namespace d) raw
      → UnlessFails get_db
          (get_messages codec sha256 rocks addr query namespace d)
          (with_body 200 raw)
  unfolding get_messages
  one_message addr text raw query namespace d q (inl g) = inl (rw (q, g) refl)
  one_message addr text raw query namespace d q (inr (e, g)) = inr (e, rw (q, g) refl)

  one_payload :
      (addr text raw : List ℕ) (message : Message) (query : Query) (namespace : ℕ) (d : D)
      → query.digest ≡ some text
      → codec.decode raw ≡ ok message
      → UnlessFails get_db (get_single codec sha256 rocks addr text namespace d) raw
      → UnlessFails get_db
          (get_payloads codec sha256 rocks addr query namespace d)
          (with_body 200 message.payload)
  unfolding get_payloads
  one_payload addr text raw message query namespace d q dec (inl g) = inl (rw (q, g, dec) refl)
  one_payload addr text raw message query namespace d q dec (inr (e, g)) = inr (e, rw (q, g) refl)

  module _ (laws : IsRocks rocks) where
    -- When a message was put, its destination gets, for the digest of its payload in hexadecimal, the
    -- message as it is encoded with the time at which it was received, and its payload where the decoder
    -- reads what was encoded. This is so unless the database fails, in a namespace that is not that of
    -- the index, and whatever else the query asks for.
    pub get_messages-put_one :
        (crypto : Crypto) (net : Net) (timestamp namespace : ℕ) (given : Message)
        (parsed : ParsedMessage crypto.secp.PublicKey) (query : Query) (text : List ℕ)
        (s s' : Server D)
        → namespace ≢ digest_namespace
        → query.digest ≡ some text
        → parse crypto (received crypto net rocks timestamp given) ≡ ok parsed
        → codec.hex_decode text ≡ ok parsed.payload_digest
        → codec.decode (net.encode (received crypto net rocks timestamp given))
          ≡ ok (received crypto net rocks timestamp given)
        → put_one crypto net rocks timestamp namespace given s ≡ (ok tt, s')
        → let message = received crypto net rocks timestamp given in
          let destination = pubkey_hash_of crypto net rocks message.destination_public_key in
          UnlessFails get_db
            (get_messages codec sha256 rocks destination query namespace s'.database)
            (with_body 200 (net.encode message))
          × UnlessFails get_db
              (get_payloads codec sha256 rocks destination query namespace s'.database)
              (with_body 200 message.payload)
    get_messages-put_one crypto net timestamp namespace given parsed query text s s' n q p hex dec
          h =
        let message = received crypto net rocks timestamp given in
        let destination = pubkey_hash_of crypto net rocks message.destination_public_key in
        let (same, p', _, _, found) =
          put_one_lem crypto net rocks laws timestamp namespace given s s' n h in
        let e : same ≡ parsed = cc (p, p') in
        let hex' : codec.hex_decode text ≡ ok same.payload_digest =
          subst
            (λ (m : ParsedMessage crypto.secp.PublicKey).
              codec.hex_decode text ≡ ok m.payload_digest)
            (sym e) hex in
        let single =
          single-found destination text same.payload_digest namespace s'.database
            (net.encode message) hex' found in
        (
          one_message destination text (net.encode message) query namespace s'.database q single,
          one_payload destination text (net.encode message) message query namespace s'.database q
              dec single,
        )

    -- When a request to remove the message of a digest returns, its answer is empty, and from then on
    -- the same request for the message is answered with 404, unless the database fails. The entry of the
    -- digest in the index stays, and so does everything but the message. The namespace is not that of the
    -- index.
    pub get_messages-remove_messages :
        (addr text digest : List ℕ) (query : Query) (namespace : ℕ) (d d' : D) (response : Response)
        → namespace ≢ digest_namespace
        → query.digest ≡ some text
        → codec.hex_decode text ≡ ok digest
        → remove_messages codec sha256 rocks addr query namespace d ≡ (ok response, d')
        → (response ≡ with_body 200 [])
          × ((get_messages codec sha256 rocks addr query namespace d' ≡ err not_found)
              ⊎ ((e : rocks.RocksError) × (get_messages codec sha256 rocks addr query namespace d'
                    ≡ err (get_db e))))
          × (timestamp : List ℕ) × (laws.contents d' (digest_key addr digest) ≡ some timestamp)
          × ((key : List ℕ)
              → key ≢ key_of addr namespace timestamp (take 4 digest)
              → laws.contents d' key ≡ laws.contents d key)
    unfolding get_messages remove_messages
    get_messages-remove_messages addr text digest query namespace d d' response n q hex h =
        let h' : remove_single codec sha256 rocks addr text namespace d ≡ (ok response, d') =
          subst (λ o. remove_for codec sha256 rocks addr query namespace o d ≡ (ok response, d')) q
            h in
        let (empty, gone) = removed addr text digest namespace d d' response hex h' in
        let (missing, timestamp, still, others) =
          remove_message_by_digest-get rocks laws addr digest namespace d d' n gone in
        (
          empty,
          elim (single-missing addr text digest namespace d' hex missing) [
            | inl g ↦ inl (rw (q, g) refl)
            | inr (e, g) ↦ inr (e, rw (q, g) refl)
          ],
          timestamp,
          still,
          others,
        )
