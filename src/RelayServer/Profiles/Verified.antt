-- ===== src/RelayServer/Profiles/Verified.antt =====
-- What a profile that was put has passed, and who finds it.
use cashweb_backends.Common.{ℕ, ◌≡◌, ◌≢◌, refl, sym, ap, List, [], ◌∷◌, ◌++◌, inl, inr, subst}
use cashweb_backends.Common.Exec.{Outcome, ok, map_err, with_err, mapping_err, ◌>>=◌}
use cashweb_backends.Common.Exec.Rules.{
  and_then-eq-ok, map_err-eq-ok, continue-eq-ok, with_err-eq-ok,
}
use cashweb_backends.Http.{Response, with_body}
use cashweb_backends.AuthWrapper.{Signing, AuthWrapper, ParsedAuthWrapper, parse, verify}
use cashweb_backends.RelayServer.Rocks.{Rocks, IsRocks}
use cashweb_backends.RelayServer.Database as Database
use cashweb_backends.RelayServer.Database.{profile_namespace}
use cashweb_backends.RelayServer.Database.Digests.{UnlessError}
use cashweb_backends.RelayServer.Profiles.{
  get_database, profile_decode, parse_error, put_database, get_profile, check, put_profile,
}

module _ (signing : Signing) {DecodeError : Type 0}
    (decode_wrapper : List ℕ → Outcome DecodeError AuthWrapper) {D : Type 0} (rocks : Rocks D) where
  check-ok :
      (profile_raw : List ℕ)
      → check signing decode_wrapper rocks profile_raw ≡ ok tt
      → (profile : AuthWrapper) × (parsed : ParsedAuthWrapper signing.PublicKey signing.Signature)
        × (decode_wrapper profile_raw ≡ ok profile)
        × (parse signing profile ≡ ok parsed)
        × (verify signing parsed ≡ ok tt)
  unfolding check
  check-ok profile_raw h =
      let (profile, d, h1) =
        and_then-eq-ok (map_err profile_decode (decode_wrapper profile_raw)) _ h in
      let (parsed, p, h2) = and_then-eq-ok (map_err parse_error (parse signing profile)) _ h1 in
      (profile, parsed, map_err-eq-ok _ _ d, map_err-eq-ok _ _ p, map_err-eq-ok _ _ h2)

  module _ (laws : IsRocks rocks) where
    open laws use {contents}

    -- A profile is put only if it decodes to a wrapper that parses and whose signature verifies. Then a
    -- GET of the address answers with its bytes, unless the database fails, and nothing else in the
    -- database has changed.
    pub put_profile-get_profile :
        (addr profile_raw : List ℕ) (d d' : D) (response : Response)
        → put_profile signing decode_wrapper rocks addr profile_raw d ≡ (ok response, d')
        → ((profile : AuthWrapper) × (parsed : ParsedAuthWrapper signing.PublicKey
              signing.Signature)
            × (decode_wrapper profile_raw ≡ ok profile)
            × (parse signing profile ≡ ok parsed)
            × (verify signing parsed ≡ ok tt))
          × UnlessError
              (get_profile signing decode_wrapper rocks addr d')
              (with_body 200 profile_raw)
          × ((key : List ℕ)
              → key ≢ addr ++ (profile_namespace ∷ [])
              → contents d' key ≡ contents d key)
    unfolding put_profile get_profile Database.put_profile Database.get_raw_profile mapping_err
        ◌>>=◌
    put_profile-get_profile addr profile_raw d d' response h =
        let key = addr ++ (profile_namespace ∷ []) in
        let (u, d0, c, h1) =
          continue-eq-ok _ (check signing decode_wrapper rocks profile_raw, d) h in
        let (v, d1, p, h2) =
          continue-eq-ok _ (with_err put_database (rocks.put key profile_raw d0)) h1 in
        let start : d0 ≡ d = sym (ap (λ z. z.1) c) in
        let last : d1 ≡ d' = ap (λ z. z.1) h2 in
        let written : rocks.put key profile_raw d ≡ (ok tt, d') =
          subst (λ z. rocks.put key profile_raw z ≡ (ok tt, d')) start
            (subst (λ z. rocks.put key profile_raw d0 ≡ (ok tt, z)) last
              (with_err-eq-ok put_database _ p)) in
        let (here, others) = laws.put_lem key profile_raw d d' written in
        (
          check-ok profile_raw (ap (λ z. z.0) c),
          elim (laws.get_lem key d') [
            | inl g ↦ inl (rw (g, here) refl)
            | inr (e, g) ↦ inr (get_database e, rw g refl)
          ],
          others,
        )
