-- ===== src/KeyServer/Peering/Sent.antt =====
-- From the PUT of metadata to the broadcast that sends them on.
use mathlib.Core.List.{Memᴰ}
use cashweb_backends.Common.{
  ℕ, suc, ◌≡◌, ◌<◌, refl, List, [], ◌∷◌, ◌++◌, Option, some, length, get_elem?, subst,
}
use cashweb_backends.Common.Exec.{Outcome, ok, map_err}
use cashweb_backends.Common.Exec.Rules.{and_then-eq-ok}
use cashweb_backends.Http.{Service, Response}
use cashweb_backends.AuthWrapper.{Signing, AuthWrapper}
use cashweb_backends.Token.{pop_prefix, extract_pop}
use cashweb_backends.Token.HmacBearer.{Base64, IsBase64}
use cashweb_backends.Token.ChainCommitment.{Chain, validate_token}
use cashweb_backends.Token.ChainCommitment.Commits.{validate_token_iff}
use cashweb_backends.KeyserverClient.Services.{Wire}
use cashweb_backends.KeyserverClient.Manager.{Uris}
use cashweb_backends.RelayServer.Rocks.{Rocks, IsRocks}
use cashweb_backends.KeyServer.Database as Database
use cashweb_backends.KeyServer.Database.{DatabaseWrapper, Stored, IsStored}
use cashweb_backends.KeyServer.Metadata.{
  Server, decode_error, metadata_hash, protect, pop_protection, put_metadata,
}
use cashweb_backends.KeyServer.Metadata.Committed.{protect-ok, parse-hash, put_metadata-IsCommitted}
use cashweb_backends.KeyServer.TokenCache.{Cache, add_token, Event, added, run}
use cashweb_backends.KeyServer.TokenCache.Delay.{In, cycles, add_token-run}
use cashweb_backends.KeyServer.Peering.{Call, send_all}
use cashweb_backends.KeyServer.Peering.Broadcasts.{send_all_iff}

add_token-ok :
    {E F A : Type 0} (addr : A) (cache cache' : Cache A)
    → add_token {E = E} addr cache ≡ ok cache'
    → add_token {E = F} addr cache ≡ ok cache'
unfolding add_token
add_token-ok addr [] cache' h = cc h
add_token-ok addr (block ∷ blocks) cache' h = cc h

module _ (signing : Signing) (base64 : Base64) (chain : Chain) {HeaderValue DecodeError : Type 0}
    (to_str : HeaderValue → Option (List ℕ))
    (decode : List ℕ → Outcome DecodeError AuthWrapper) where
  -- A token that was accepted is accepted again when its bytes are encoded anew.
  reencoded :
      (raw : List ℕ) (headers : List HeaderValue) (given : AuthWrapper × List ℕ)
      → IsBase64 base64
      → ((xs : List ℕ) → length (chain.sha256 xs) ≡ 32)
      → pop_protection signing base64 chain to_str decode raw headers ≡ ok given
      → validate_token base64 chain
          (signing.sha256 given.0.public_key)
          (metadata_hash signing given.0)
          (base64.encode given.1)
        ≡ ok given.1
  unfolding pop_protection
  reencoded raw headers given base64_laws sha256_len h =
      let (w, d, h1) = and_then-eq-ok (map_err decode_error (decode raw)) _ h in
      let (token, t, h2) =
        and_then-eq-ok (extract_pop to_str headers) (protect signing base64 chain to_str decode w)
          h1 in
      let (same, pop_token, found, v) =
        protect-ok signing base64 chain to_str decode w token given h2 in
      let iff =
        validate_token_iff base64 chain sha256_len (signing.sha256 w.public_key)
          (metadata_hash signing w) in
      let (_, len, raw_tx, tx, output, g, dt, o, script) = (iff pop_token given.1).0 v in
      subst
        (λ (z : AuthWrapper).
          validate_token base64 chain (signing.sha256 z.public_key) (metadata_hash signing z)
            (base64.encode given.1)
          ≡ ok given.1)
        same
        ((iff (base64.encode given.1) given.1).1
          (base64_laws.decode-encode given.1, len, raw_tx, tx, output, g, dt, o, script))

  module _ (lib : Uris) (service : Service lib.Uri) (wire : Wire) (stored : Stored) {D : Type 0}
      (rocks : Rocks D) {EncodingError : Type 0}
      (encode_address : List ℕ → Outcome EncodingError (List ℕ)) (push_fan_size : ℕ) where
    -- Metadata that were put on a server with `suc j` blocks are sent to the peers by the broadcast number
    -- `j` after, counted from 0, whatever else is put and sent in between, where the database then gives
    -- what was put and the block's broadcast returns: under the text of the address, with the body of the
    -- PUT and with a token which validates on the chain for the digests of the public key and of the
    -- payload. SHA-256 has 32 bytes, and base64 decodes what it encodes.
    pub put_metadata-send_all :
        (laws : IsRocks rocks) (stored_laws : IsStored stored) (addr raw addr_str : List ℕ)
        (headers : List HeaderValue) (given : AuthWrapper × List ℕ) (s s' : Server D)
        (response : Response) (events : List (Event (List ℕ))) (sent : List (List (List ℕ)))
        (cache' : Cache (List ℕ)) (j : ℕ) (uris : List lib.Uri) (db : D) (block : List (List ℕ))
        (calls : List Call)
        → IsBase64 base64
        → ((xs : List ℕ) → length (chain.sha256 xs) ≡ 32)
        → pop_protection signing base64 chain to_str decode raw headers ≡ ok given
        → put_metadata signing stored rocks addr raw given.0 given.1 s ≡ (ok response, s')
        → length s.cache ≡ suc j
        → j < cycles events
        → run events s'.cache ≡ ok (sent, cache')
        → get_elem? sent j ≡ some block
        → Database.get_metadata stored rocks addr db
          ≡ ok (some (record { serialized_auth_wrapper = raw; token = given.1 }))
        → encode_address addr ≡ ok addr_str
        → send_all lib service signing wire base64 stored rocks encode_address push_fan_size uris db
            block
          ≡ ok calls
        → let token = base64.encode given.1 in
          Memᴰ
            (record { addr_str = addr_str; raw_auth_wrapper = raw; token = pop_prefix ++ token })
            calls
          × (validate_token base64 chain
                (signing.sha256 given.0.public_key)
                (signing.sha256 given.0.payload)
                token
              ≡ ok given.1)
    unfolding run
    put_metadata-send_all laws stored_laws addr raw addr_str headers given s s' response events sent
          cache' j uris db block calls base64_laws sha256_len p k len more r at g a h =
        let (_, _, (parsed, parses, _), _, _, cached) =
          put_metadata-IsCommitted signing base64 chain to_str decode stored rocks laws stored_laws
            addr raw headers given s s' response sha256_len p k in
        let added_too : run (added addr ∷ events) s.cache ≡ ok (sent, cache') =
          rw (add_token-ok addr s.cache s'.cache cached, r) refl in
        let ((block', at', here), _) =
          add_token-run addr events s.cache cache' sent j len more added_too in
        let same : block' ≡ block = cc (at, at') in
        let db_wrapper : DatabaseWrapper = record {
          serialized_auth_wrapper = raw;
          token = given.1;
        } in
        let call : Call = record {
          addr_str = addr_str;
          raw_auth_wrapper = raw;
          token = pop_prefix ++ base64.encode given.1;
        } in
        let again = reencoded raw headers given base64_laws sha256_len p in
        (
          (send_all_iff lib service signing wire base64 stored rocks encode_address push_fan_size
                uris db block calls call h).1
              (addr, subst (In addr) same here, (db_wrapper, g, a, refl)),
          subst
              (λ z.
                validate_token base64 chain (signing.sha256 given.0.public_key) z
                  (base64.encode given.1)
                ≡ ok given.1)
              (parse-hash signing given.0 parsed parses) again,
        )
