-- ===== src/KeyserverClient/Services/Verified.antt =====
-- What the client has checked of the metadata that it returns, and the token that comes with it.
use cashweb_backends.Common.{
  ℕ, ◌≡◌, refl, sym, ap, ◌∙◌, List, [], ◌∷◌, Option, some, false, inl, inr, Bool-cases, bytes_eq,
  bytes_eq→eq, ◌==◌, ==_iff, subst,
}
use cashweb_backends.Common.Exec.{Outcome, ok, and_then, ok_or}
use cashweb_backends.Common.Exec.Rules.{
  and_then-eq-ok, value-eq-ok, map_err-eq-ok, if-ok-eq-ok, ok_or-eq-ok,
}
use cashweb_backends.Http.{Incoming, Service, authorization_name}
use cashweb_backends.AuthWrapper.{Signing, AuthWrapper, ParsedAuthWrapper, parse, verify}
use cashweb_backends.KeyserverClient.Services.{
  Wire, MetadataPackage, expect_ok, is_pop_header, found_here, find_pop_header, token_of,
  check_wrapper, get_metadata, metadata_status, missing_token, get_request,
}

named :
    {E : Type 0} (header : List ℕ × List ℕ) (rest : Outcome E (Option (List ℕ × List ℕ)))
    {found : List ℕ × List ℕ}
    → and_then (is_pop_header {E = E} header) (λ here. found_here header here rest)
      ≡ ok (some found)
    → ((other : List ℕ × List ℕ) → rest ≡ ok (some other) → other.0 ≡ authorization_name)
    → found.0 ≡ authorization_name
named {E = E} header rest {found = found} h earlier =
    elim (Bool-cases (bytes_eq header.0 authorization_name)) [
      | inl same ↦
          let (here, p, h1) =
            and_then-eq-ok (is_pop_header {E = E} header) (λ here. found_here header here rest) h in
          elim (Bool-cases here) [
            | inl yes_here ↦
                let e : ◌≡◌ {A = Outcome E (Option (List ℕ × List ℕ))} (ok (some header))
                    (ok (some found)) =
                  subst (λ b. found_here header b rest ≡ ok (some found)) yes_here h1 in
                (let same_header : found ≡ header = cc e in
                  ap (λ (z : List ℕ × List ℕ). z.0) same_header)
                ∙ bytes_eq→eq header.0 authorization_name same
            | inr not_here ↦
                earlier found (subst (λ b. found_here header b rest ≡ ok (some found)) not_here h1)
          ]
      | inr other ↦
          let e : is_pop_header {E = E} header ≡ ok false = rw other refl in
          earlier found
            (subst (λ r. and_then r (λ here. found_here header here rest) ≡ ok (some found)) e h)
    ]

find_pop_header-name :
    {E : Type 0} (headers : List (List ℕ × List ℕ)) {found : List ℕ × List ℕ}
    → find_pop_header {E = E} headers ≡ ok (some found)
    → found.0 ≡ authorization_name
unfolding find_pop_header
find_pop_header-name [] h = cc h
find_pop_header-name (header ∷ headers) h =
    named header (find_pop_header headers) h (λ other e. find_pop_header-name headers e)

pub token_of-ok :
    {E : Type 0} (missing : E) (headers : List (List ℕ × List ℕ)) {token : List ℕ}
    → token_of missing headers ≡ ok token
    → token ≡ authorization_name
unfolding token_of
token_of-ok {E = E} missing headers h =
    let (found, f, h1) = and_then-eq-ok (find_pop_header {E = E} headers) _ h in
    let (header, o, h2) = and_then-eq-ok (ok_or found missing) (λ header. ok header.0) h1 in
    let e = ok_or-eq-ok found missing o in
    sym (value-eq-ok (ok header.0) h2)
    ∙ find_pop_header-name headers (subst (λ z. find_pop_header {E = E} headers ≡ ok z) e f)

module _ {Uri : Type 0} (service : Service Uri) (signing : Signing) (wire : Wire) where
  open signing use {PublicKey, Signature}
  open wire use {AddressMetadata, decode_wrapper, decode_metadata}

  abbrev pub IsChecked : List ℕ → ParsedAuthWrapper PublicKey Signature → AddressMetadata → Type 0
  IsChecked raw parsed metadata =
      (auth_wrapper : AuthWrapper) × (decode_wrapper raw ≡ ok auth_wrapper)
      × (parse signing auth_wrapper ≡ ok parsed)
      × (verify signing parsed ≡ ok tt)
      × (decode_metadata parsed.payload ≡ ok metadata)

  check_wrapper-ok :
      (raw : List ℕ) (checked : ParsedAuthWrapper PublicKey Signature × AddressMetadata)
      → check_wrapper service signing wire raw ≡ ok checked
      → IsChecked raw checked.0 checked.1
  unfolding check_wrapper
  check_wrapper-ok raw checked h =
      let (auth_wrapper, d, h1) = and_then-eq-ok _ _ h in
      let (parsed, p, h2) = and_then-eq-ok _ _ h1 in
      let (u, v, h3) = and_then-eq-ok _ _ h2 in
      let (metadata, m, h4) = and_then-eq-ok _ _ h3 in
      subst (λ (z : ParsedAuthWrapper PublicKey Signature × AddressMetadata). IsChecked raw z.0 z.1)
        (value-eq-ok (ok (parsed, metadata)) h4)
        (
          auth_wrapper,
          map_err-eq-ok _ _ d,
          map_err-eq-ok _ _ p,
          map_err-eq-ok _ _ v,
          map_err-eq-ok _ _ m,
        )

  -- Metadata that the client returns are in the body of an answer with status 200: the wrapper there was
  -- decoded and parsed, its signature verified, and the metadata decoded from its payload, and the public
  -- key is that of the wrapper. The token that comes with them is the name of the header that holds the
  -- token, `authorization`, and not the token.
  pub get_metadata-ok :
      (uri : Uri) (found : MetadataPackage PublicKey AddressMetadata)
      → get_metadata service signing wire uri ≡ ok found
      → (response : Incoming service.BodyError) × (parsed : ParsedAuthWrapper PublicKey Signature)
        × (service.call (get_request uri) ≡ ok response)
        × (response.status ≡ 200)
        × (response.body ≡ ok found.raw_auth_wrapper)
        × IsChecked found.raw_auth_wrapper parsed found.metadata
        × (found.public_key ≡ parsed.public_key)
        × (found.token ≡ authorization_name)
  unfolding get_metadata
  get_metadata-ok uri found h =
      let (response, c, h1) = and_then-eq-ok _ _ h in
      let (u, st, h2) = and_then-eq-ok (expect_ok metadata_status response.status) _ h1 in
      let (token, t, h3) = and_then-eq-ok (token_of missing_token response.headers) _ h2 in
      let (raw, b, h4) = and_then-eq-ok _ _ h3 in
      let (checked, k, h5) = and_then-eq-ok (check_wrapper service signing wire raw) _ h4 in
      let made : MetadataPackage PublicKey AddressMetadata = record {
        token = token;
        public_key = checked.0.public_key;
        metadata = checked.1;
        raw_auth_wrapper = raw;
      } in
      subst
        (λ (z : MetadataPackage PublicKey AddressMetadata).
          (response : Incoming service.BodyError) × (parsed : ParsedAuthWrapper PublicKey Signature)
          × (service.call (get_request uri) ≡ ok response)
          × (response.status ≡ 200)
          × (response.body ≡ ok z.raw_auth_wrapper)
          × IsChecked z.raw_auth_wrapper parsed z.metadata
          × (z.public_key ≡ parsed.public_key)
          × (z.token ≡ authorization_name))
        (value-eq-ok (ok made) h5)
        (
          response,
          checked.0,
          map_err-eq-ok _ _ c,
          (==_iff response.status 200).0 (if-ok-eq-ok (response.status == 200) _ _ st).0,
          map_err-eq-ok _ _ b,
          check_wrapper-ok raw checked k,
          refl,
          token_of-ok missing_token response.headers t,
        )
