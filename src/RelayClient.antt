-- ===== src/RelayClient.antt =====
-- lib/cashweb-relay-client/src/lib.rs. URIs are those of KeyserverClient/Manager; a service that the methods
-- call is a parameter.
pub mod Services
pub mod Answers
mod Tests
use cashweb_backends.Common.{ℕ, List, [], ◌∷◌, ◌++◌}
use cashweb_backends.Common.Exec.{Outcome, and_then, map_err, ok_or}
use cashweb_backends.KeyserverClient.Manager.{Uris}

pub data RelayError (E : Type 0) : Type 0 where
  uri_error : RelayError E
  service_error : E → RelayError E

pub record ProfilePackage (PublicKey Profile : Type 0) : Type 0 where
  pub public_key : PublicKey
  pub profile : Profile

-- "/profiles/"
abbrev pub profiles_path : List ℕ
profiles_path = 47 ∷ 112 ∷ 114 ∷ 111 ∷ 102 ∷ 105 ∷ 108 ∷ 101 ∷ 115 ∷ 47 ∷ []

module _ (lib : Uris) where
  open lib use {Uri, parse}

  -- A request that a service answers, at the URI of an address.
  abbrev pub request :
      {E A : Type 0} → (Uri → Outcome E A) → List ℕ → List ℕ → Outcome (RelayError E) A
  request service relay_url address =
      and_then (ok_or (parse (relay_url ++ (profiles_path ++ address))) uri_error)
        λ uri. map_err service_error (service uri)

  unfoldable pub get_profile :
      {E PublicKey Profile : Type 0}
      → (Uri → Outcome E (ProfilePackage PublicKey Profile))
      → List ℕ
      → List ℕ
      → Outcome (RelayError E) (ProfilePackage PublicKey Profile)
  get_profile service keyserver_url address = request service keyserver_url address

  unfoldable pub put_profile :
      {E Profile : Type 0}
      → (List ℕ → Profile → Uri → Outcome E (Unit {0}))
      → List ℕ
      → List ℕ
      → Profile
      → List ℕ
      → Outcome (RelayError E) (Unit {0})
  put_profile service relay_url address profile token =
      request (service token profile) relay_url address
