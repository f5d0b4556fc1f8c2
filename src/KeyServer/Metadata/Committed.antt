-- ===== src/KeyServer/Metadata/Committed.antt =====
-- What the keyserver stores has been paid for, is signed, and is what it answers.
use cashweb_backends.Common.{
  ℕ, ◌≡◌, ◌≢◌, inl, inr, refl, sym, ap, ◌∙◌, List, [], Option, none, some, length, take, drop,
  get_elem?, from_le_bytes, bytes_eq→eq, subst, arith,
}
use cashweb_backends.Common.Exec.{Outcome, ok, err, panic, map_err, pure, ◌>>=◌, ◌>>◌}
use cashweb_backends.Common.Exec.Rules.{and_then-eq-ok, continue-eq-ok, map_err-eq-ok, value-eq-ok}
use cashweb_backends.Http.{Response, with_body}
use cashweb_backends.Bitcoin.Transaction.{Transaction}
use cashweb_backends.Bitcoin.Transaction.Output.{Output}
use cashweb_backends.AuthWrapper.{
  Signing, AuthWrapper, ParsedAuthWrapper, digest_of, parse, verify, public_key_error,
  signature_error, unsupported_scheme, scheme_from_i32,
}
use cashweb_backends.Common.Exec.{ok_or}
use cashweb_backends.Token.{extract_pop}
use cashweb_backends.Token.HmacBearer.{Base64}
use cashweb_backends.Token.ChainCommitment.{
  Chain, decode_slice, construct_commitment, validate_token,
}
use cashweb_backends.Token.ChainCommitment.Commits.{commitment_script, validate_token_iff}
use cashweb_backends.RelayServer.Rocks.{Rocks, IsRocks}
use cashweb_backends.RelayServer.Database.Digests.{UnlessError}
use cashweb_backends.KeyServer.TokenCache.{Cache, add_token}
use cashweb_backends.KeyServer.Database as Database
use cashweb_backends.KeyServer.Database.{
  DatabaseWrapper, Stored, IsStored, metadata_key, decode_some,
}
use cashweb_backends.KeyServer.Metadata.{
  validation, decode_error, invalid_auth_wrapper, Server, PutError, metadata_hash, protect,
  pop_protection, check, set_database, store, set_cache, cache_token, put_metadata,
}

-- The digest of a wrapper that parses is the digest of its payload, also where the handler takes the
-- digest that the wrapper gives.
digest_of-hash :
    (signing : Signing) (w : AuthWrapper) (out : List ℕ)
    → digest_of signing w.payload_digest w.payload ≡ ok out
    → metadata_hash signing w ≡ signing.sha256 w.payload
unfolding digest_of
digest_of-hash signing w out h =
    ground (arith, bytes_eq→eq (signing.sha256 w.payload) w.payload_digest)

pub parse-hash :
    (signing : Signing) (w : AuthWrapper)
    (parsed : ParsedAuthWrapper signing.PublicKey signing.Signature)
    → parse signing w ≡ ok parsed
    → metadata_hash signing w ≡ signing.sha256 w.payload
unfolding parse
parse-hash signing w parsed h =
    let (key, e1, h1) =
      and_then-eq-ok (map_err public_key_error (signing.public_from_slice w.public_key)) _ h in
    let (scheme, e2, h2) =
      and_then-eq-ok (ok_or (scheme_from_i32 w.scheme) unsupported_scheme) _ h1 in
    let (signature, e3, h3) =
      and_then-eq-ok (map_err signature_error (signing.from_compact w.signature)) _ h2 in
    let (digest, e4, h4) = and_then-eq-ok (digest_of signing w.payload_digest w.payload) _ h3 in
    digest_of-hash signing w digest e4

module _ (signing : Signing) (base64 : Base64) (chain : Chain) {HeaderValue DecodeError : Type 0}
    (to_str : HeaderValue → Option (List ℕ))
    (decode : List ℕ → Outcome DecodeError AuthWrapper) where
  pub protect-ok :
      (w : AuthWrapper) (token : Option (List ℕ)) (result : AuthWrapper × List ℕ)
      → protect signing base64 chain to_str decode w token ≡ ok result
      → (w ≡ result.0)
        × (pop_token : List ℕ) × (token ≡ some pop_token)
        × (validate_token base64 chain
              (signing.sha256 w.public_key)
              (metadata_hash signing w)
              pop_token
            ≡ ok result.1)
  protect-ok w none result h = cc h
  protect-ok w (some pop_token) result h =
      let (raw, v, h1) =
        and_then-eq-ok
          (map_err validation (
            validate_token base64 chain (signing.sha256 w.public_key) (metadata_hash signing w)
              pop_token))
          _ h in
      let same : (w, raw) ≡ result = value-eq-ok (ok (w, raw)) h1 in
      (
        ap (λ z. z.0) same,
        pop_token,
        refl,
        subst
            (λ (z : AuthWrapper × List ℕ).
              validate_token base64 chain (signing.sha256 w.public_key) (metadata_hash signing w)
                pop_token
              ≡ ok z.1)
            same (map_err-eq-ok _ _ v),
      )

  -- The output of a transaction of the node that a raw token stands for, and what it commits to.
  abbrev pub IsCommitted : List ℕ → List ℕ → List ℕ → Type 0
  IsCommitted token key_hash payload_hash =
      (raw_transaction : List ℕ) × (transaction : Transaction) × (output : Output)
      × (chain.get_raw_transaction (take 32 token) ≡ ok raw_transaction)
      × (decode_slice base64 chain raw_transaction ≡ ok transaction)
      × (get_elem? transaction.outputs (from_le_bytes (take 4 (drop 32 token))) ≡ some output)
      × (output.script
          ≡ commitment_script (construct_commitment base64 chain key_hash payload_hash))

  module _ (stored : Stored) {D : Type 0} (rocks : Rocks D) (laws : IsRocks rocks)
      (stored_laws : IsStored stored) where
    cached_by :
        (r : Outcome (PutError signing stored rocks) (Cache (List ℕ))) (s s' : Server D)
        → set_cache signing stored rocks r s ≡ (ok tt, s')
        → (s'.database ≡ s.database) × (r ≡ ok s'.cache)
    cached_by (ok cache) s s' h = (
      ap (λ (z : Server D). z.database) (sym (ap (λ z. z.1) h)),
      ap (λ (z : Outcome (PutError signing stored rocks) (Unit {0}) × Server D). ok z.1.cache) h,
    )
    cached_by (err e) s s' h = cc (ap (λ z. z.0) h)
    cached_by panic s s' h = cc (ap (λ z. z.0) h)

    stored_by :
        (p : Outcome rocks.RocksError (Unit {0}) × D) (s s' : Server D)
        → set_database signing stored rocks p s ≡ (ok tt, s')
        → (s'.cache ≡ s.cache) × (p ≡ (ok tt, s'.database))
    stored_by (ok u, d) s s' h = (
      ap (λ (z : Server D). z.cache) (sym (ap (λ z. z.1) h)),
      ap
          (λ (z : Outcome (PutError signing stored rocks) (Unit {0}) × Server D).
            (ok tt, z.1.database))
          h,
    )
    stored_by (err e, d) s s' h = cc (ap (λ z. z.0) h)
    stored_by (panic, d) s s' h = cc (ap (λ z. z.0) h)

    cached :
        (addr : List ℕ) (s s' : Server D)
        → cache_token signing stored rocks addr s ≡ (ok tt, s')
        → (s'.database ≡ s.database)
          × (add_token {E = PutError signing stored rocks} addr s.cache ≡ ok s'.cache)
    unfolding cache_token
    cached addr s s' h = cached_by (add_token addr s.cache) s s' h

    stored_lem :
        (addr raw token : List ℕ) (s s' : Server D)
        → store signing stored rocks addr raw token s ≡ (ok tt, s')
        → (s'.cache ≡ s.cache)
          × (rocks.put
                (metadata_key addr)
                (stored.encode_wrapper (record { serialized_auth_wrapper = raw; token = token }))
                s.database
              ≡ (ok tt, s'.database))
    unfolding store Database.put_metadata
    stored_lem addr raw token s s' h =
        stored_by
          (rocks.put (metadata_key addr)
            (stored.encode_wrapper (record { serialized_auth_wrapper = raw; token = token }))
            s.database)
          s s' h

    reads :
        (addr : List ℕ) (wrapper : DatabaseWrapper) (d : D)
        → laws.contents d (metadata_key addr) ≡ some (stored.encode_wrapper wrapper)
        → UnlessError (Database.get_metadata stored rocks addr d) (some wrapper)
    unfolding Database.get_metadata Database.get_raw_metadata
    reads addr wrapper d c = elim (laws.get_lem (metadata_key addr) d) [
      | inl found ↦ inl (rw (found, c, stored_laws.decode-encode wrapper) refl)
      | inr (e, failed) ↦ inr (e, rw failed refl)
    ]

    -- A PUT of metadata that returns has a token, and the token stands for an output of a transaction which
    -- the node has and whose script commits to the digest of the wrapper's public key and that of its
    -- payload; the wrapper parses and its signature is verified. Then the database gives back exactly the
    -- body and the token for the address, unless it fails; other keys keep what they had, and the address
    -- is in the newest block of the cache. Nothing relates the address to the public key.
    pub put_metadata-IsCommitted :
        (addr raw : List ℕ) (headers : List HeaderValue) (given : AuthWrapper × List ℕ)
        (s s' : Server D) (response : Response)
        → ((xs : List ℕ) → length (chain.sha256 xs) ≡ 32)
        → pop_protection signing base64 chain to_str decode raw headers ≡ ok given
        → put_metadata signing stored rocks addr raw given.0 given.1 s ≡ (ok response, s')
        → (decode raw ≡ ok given.0)
          × IsCommitted given.1 (signing.sha256 given.0.public_key) (signing.sha256 given.0.payload)
          × ((parsed : ParsedAuthWrapper signing.PublicKey signing.Signature) × (parse signing
                  given.0
                ≡ ok parsed)
              × (verify signing parsed ≡ ok tt))
          × UnlessError
              (Database.get_metadata stored rocks addr s'.database)
              (some (record { serialized_auth_wrapper = raw; token = given.1 }))
          × ((key : List ℕ)
              → key ≢ metadata_key addr
              → laws.contents s'.database key ≡ laws.contents s.database key)
          × (add_token {E = PutError signing stored rocks} addr s.cache ≡ ok s'.cache)
    unfolding pop_protection put_metadata check ◌>>=◌
    put_metadata-IsCommitted addr raw headers given s s' response sha256_len h k =
        let (w, d, h1) = and_then-eq-ok (map_err decode_error (decode raw)) _ h in
        let (token, t, h2) =
          and_then-eq-ok (extract_pop to_str headers) (protect signing base64 chain to_str decode w)
            h1 in
        let (same, pop_token, found, v) = protect-ok w token given h2 in
        let (u, s0, c, k1) =
          continue-eq-ok
            (λ (u : Unit {0}).
              store signing stored rocks addr raw given.1
              >> (cache_token signing stored rocks addr >> pure (with_body 200 [])))
            (check signing stored rocks given.0, s) k in
        let (u1, s1, st, k2) =
          continue-eq-ok
            (λ (u : Unit {0}). cache_token signing stored rocks addr >> pure (with_body 200 []))
            (store signing stored rocks addr raw given.1 s0) k1 in
        let (u2, s2, ca, k3) =
          continue-eq-ok
            (λ (u : Unit {0}). pure {E = PutError signing stored rocks} (with_body 200 []))
            (cache_token signing stored rocks addr s1) k2 in
        let (parsed, p, k4) =
          and_then-eq-ok (map_err invalid_auth_wrapper (parse signing given.0)) _
            (ap (λ z. z.0) c) in
        let (cache0, put0) = stored_lem addr raw given.1 s0 s1 st in
        let (database1, added) = cached addr s1 s2 ca in
        let first : s0 ≡ s = sym (ap (λ z. z.1) c) in
        let final : s2 ≡ s' = ap (λ z. z.1) k3 in
        let database2 : s'.database ≡ s1.database =
          ap (λ (z : Server D). z.database) (sym final) ∙ database1 in
        let (c1, o1) =
          laws.put_lem (metadata_key addr)
            (stored.encode_wrapper (record { serialized_auth_wrapper = raw; token = given.1 }))
            s0.database s1.database put0 in
        let (b, l, raw_tx, transaction, output, g, dt, o, script) =
          (validate_token_iff base64 chain sha256_len (signing.sha256 w.public_key)
              (metadata_hash signing w) pop_token given.1).0
            v in
        (
          map_err-eq-ok _ _ d ∙ ap ok same,
          (
            raw_tx,
            transaction,
            output,
            g,
            dt,
            o,
            subst
                  (λ (z : AuthWrapper).
                    output.script
                    ≡ commitment_script (
                        construct_commitment base64 chain (signing.sha256 z.public_key)
                          (metadata_hash signing z)))
                  same script
                ∙ ap
                    (λ z.
                      commitment_script
                        (construct_commitment base64 chain (signing.sha256 given.0.public_key) z))
                    (parse-hash signing given.0 parsed (map_err-eq-ok _ _ p)),
          ),
          (parsed, map_err-eq-ok _ _ p, map_err-eq-ok _ _ k4),
          subst
              (λ z.
                UnlessError (Database.get_metadata stored rocks addr z)
                  (some (record { serialized_auth_wrapper = raw; token = given.1 })))
              (sym database2)
              (reads addr (record { serialized_auth_wrapper = raw; token = given.1 }) s1.database
                c1),
          λ other n.
              ap (λ z. laws.contents z other) database2
              ∙ o1 other n
              ∙ ap (λ (z : Server D). laws.contents z.database other) first,
          subst (λ z. add_token {E = PutError signing stored rocks} addr z ≡ ok s'.cache)
              (cache0 ∙ ap (λ (z : Server D). z.cache) first)
              (added ∙ ap (λ (z : Server D). ok z.cache) final),
        )
