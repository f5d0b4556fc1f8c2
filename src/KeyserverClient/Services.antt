-- ===== src/KeyserverClient/Services.antt =====
-- lib/cashweb-keyserver-client/src/client/services.rs. The HTTP service, protobuf and the signatures are
-- parameters. A sample runs the requests one after another; their order does not matter to the result. A
-- client is called when it is ready: the `poll_ready` of the services of one request pass on that of the
-- HTTP service and are left out.
pub mod Verified
use cashweb_backends.Common.{
  ℕ, ◌⊎◌, inl, inr, List, [], ◌∷◌, Option, none, some, Bool, true, false, ◌&&◌, if◌then◌else◌,
  bytes_eq, ◌==◌,
}
use cashweb_backends.Common.Exec.{Outcome, ok, err, panic, and_then, map_err, ok_or}
use cashweb_backends.Common.Slices.{slice_to}
use cashweb_backends.Http.{method_get, method_put, Request, Service, authorization_name}
use cashweb_backends.Token.{pop_prefix}
use cashweb_backends.AuthWrapper.{
  Signing, AuthWrapper, ParsedAuthWrapper, ParseError, VerifyError, parse, verify,
}

pub record Peer : Type 0 where
  pub url : List ℕ

pub record Peers : Type 0 where
  pub peers : List Peer

-- Protobuf. The time of metadata is an `i64`, kept as its bit pattern.
pub record Wire : Type 1 where
  pub DecodeError : Type 0
  pub AddressMetadata : Type 0
  pub timestamp : AddressMetadata → ℕ
  pub decode_metadata : List ℕ → Outcome DecodeError AddressMetadata
  pub decode_peers : List ℕ → Outcome DecodeError Peers
  pub decode_wrapper : List ℕ → Outcome DecodeError AuthWrapper
  pub encode_wrapper : AuthWrapper → List ℕ

pub data GetPeersError (ServiceError BodyError DecodeError : Type 0) : Type 0 where
  peers_body : BodyError → GetPeersError ServiceError BodyError DecodeError
  peers_service : ServiceError → GetPeersError ServiceError BodyError DecodeError
  peers_decode : DecodeError → GetPeersError ServiceError BodyError DecodeError
  peers_status : ℕ → GetPeersError ServiceError BodyError DecodeError
  peering_disabled : GetPeersError ServiceError BodyError DecodeError

pub data GetRawAuthWrapperError (ServiceError BodyError : Type 0) : Type 0 where
  raw_body : BodyError → GetRawAuthWrapperError ServiceError BodyError
  raw_service : ServiceError → GetRawAuthWrapperError ServiceError BodyError
  raw_status : ℕ → GetRawAuthWrapperError ServiceError BodyError
  raw_missing_token : GetRawAuthWrapperError ServiceError BodyError

pub data GetMetadataError (ServiceError BodyError DecodeError SecpError : Type 0) : Type 0 where
  metadata_decode wrapper_decode :
      DecodeError → GetMetadataError ServiceError BodyError DecodeError SecpError
  wrapper_parse :
      ParseError SecpError → GetMetadataError ServiceError BodyError DecodeError SecpError
  wrapper_verify :
      VerifyError SecpError → GetMetadataError ServiceError BodyError DecodeError SecpError
  metadata_body : BodyError → GetMetadataError ServiceError BodyError DecodeError SecpError
  metadata_service : ServiceError → GetMetadataError ServiceError BodyError DecodeError SecpError
  metadata_status : ℕ → GetMetadataError ServiceError BodyError DecodeError SecpError
  missing_token : GetMetadataError ServiceError BodyError DecodeError SecpError

pub data PutMetadataError (ServiceError : Type 0) : Type 0 where
  put_service : ServiceError → PutMetadataError ServiceError
  put_status : ℕ → PutMetadataError ServiceError

pub record RawAuthWrapperPackage : Type 0 where
  pub token : List ℕ
  pub raw_auth_wrapper : List ℕ

pub record MetadataPackage (PublicKey AddressMetadata : Type 0) : Type 0 where
  pub token : List ℕ
  pub public_key : PublicKey
  pub metadata : AddressMetadata
  pub raw_auth_wrapper : List ℕ

pub data SampleError (Uri E : Type 0) : Type 0 where
  poll : E → SampleError Uri E
  sample_failed : List (Uri × E) → SampleError Uri E

abbrev pub get_request : {Uri : Type 0} → Uri → Request Uri
get_request uri = record { method = method_get; uri = uri; authorization = none; body = [] }

abbrev pub put_request : {Uri : Type 0} → Uri → List ℕ → List ℕ → Request Uri
put_request uri token body = record {
  method = method_put;
  uri = uri;
  authorization = some token;
  body = body;
}

-- `match response.status()`
abbrev pub expect_ok : {E : Type 0} → (ℕ → E) → ℕ → Outcome E (Unit {0})
expect_ok unexpected status = if status == 200 then ok tt else err (unexpected status)

abbrev pub expect_peering : {E : Type 0} → E → (ℕ → E) → ℕ → Outcome E (Unit {0})
expect_peering disabled unexpected status =
    if status == 200 then ok tt else if status == 501 then err disabled else err (unexpected status)

-- The closure of `find`: the value of an authorization header is cut at its fourth byte.
abbrev pub is_pop_header : {E : Type 0} → List ℕ × List ℕ → Outcome E Bool
is_pop_header header =
    if bytes_eq header.0 authorization_name
    then (and_then (slice_to 4 header.1) λ head. ok (bytes_eq head pop_prefix))
    else ok false

abbrev pub found_here : {E A : Type 0} → A → Bool → Outcome E (Option A) → Outcome E (Option A)
found_here header true rest = ok (some header)
found_here header false rest = rest

unfoldable pub find_pop_header :
    {E : Type 0} → List (List ℕ × List ℕ) → Outcome E (Option (List ℕ × List ℕ))
find_pop_header [] = ok none
find_pop_header (header ∷ headers) =
    let rest = find_pop_header headers in
    and_then (is_pop_header header) λ here. found_here header here rest

-- `.ok_or(…)?.0.to_string()`
unfoldable pub token_of : {E : Type 0} → E → List (List ℕ × List ℕ) → Outcome E (List ℕ)
token_of missing headers =
    and_then (find_pop_header headers) λ found. and_then (ok_or found missing) λ header. ok header.0

module _ {Uri : Type 0} (service : Service Uri) (signing : Signing) (wire : Wire) where
  open service use {ServiceError, BodyError, call}
  open signing use {PublicKey, Signature, SecpError}
  open wire use {
    DecodeError, AddressMetadata, decode_metadata, decode_peers, decode_wrapper, encode_wrapper,
  }

  abbrev pub PeersError : Type 0
  PeersError = GetPeersError ServiceError BodyError DecodeError

  abbrev pub RawError : Type 0
  RawError = GetRawAuthWrapperError ServiceError BodyError

  abbrev pub MetadataError : Type 0
  MetadataError = GetMetadataError ServiceError BodyError DecodeError SecpError

  abbrev pub PutError : Type 0
  PutError = PutMetadataError ServiceError

  unfoldable pub get_peers : Uri → Outcome PeersError Peers
  get_peers uri = and_then (map_err peers_service (call (get_request uri))) λ response.
      and_then (expect_peering peering_disabled peers_status response.status) λ u.
        and_then (map_err peers_body response.body) λ buf. map_err peers_decode (decode_peers buf)

  unfoldable pub get_raw_auth_wrapper : Uri → Outcome RawError RawAuthWrapperPackage
  get_raw_auth_wrapper uri = and_then (map_err raw_service (call (get_request uri))) λ response.
      and_then (expect_ok raw_status response.status) λ u.
        and_then (token_of raw_missing_token response.headers) λ token.
          and_then (map_err raw_body response.body)
            λ raw. ok (record { token = token; raw_auth_wrapper = raw })

  -- What is done with the body.
  unfoldable pub check_wrapper :
      List ℕ → Outcome MetadataError (ParsedAuthWrapper PublicKey Signature × AddressMetadata)
  check_wrapper raw = and_then (map_err wrapper_decode (decode_wrapper raw)) λ auth_wrapper.
      and_then (map_err wrapper_parse (parse signing auth_wrapper)) λ parsed.
        and_then (map_err wrapper_verify (verify signing parsed)) λ u.
          and_then (map_err metadata_decode (decode_metadata parsed.payload))
            λ metadata. ok (parsed, metadata)

  unfoldable pub get_metadata :
      Uri → Outcome MetadataError (MetadataPackage PublicKey AddressMetadata)
  get_metadata uri = and_then (map_err metadata_service (call (get_request uri))) λ response.
      and_then (expect_ok metadata_status response.status) λ u.
        and_then (token_of missing_token response.headers) λ token.
          and_then (map_err metadata_body response.body) λ raw.
            and_then (check_wrapper raw) λ checked. ok (record {
              token = token;
              public_key = checked.0.public_key;
              metadata = checked.1;
              raw_auth_wrapper = raw;
            })

  unfoldable pub put_raw_auth_wrapper : List ℕ → List ℕ → Uri → Outcome PutError (Unit {0})
  put_raw_auth_wrapper token raw uri =
      and_then (map_err put_service (call (put_request uri token raw)))
        λ response. expect_ok put_status response.status

  unfoldable pub put_metadata : List ℕ → AuthWrapper → Uri → Outcome PutError (Unit {0})
  put_metadata token auth_wrapper uri =
      and_then (map_err put_service (call (put_request uri token (encode_wrapper auth_wrapper))))
        λ response. expect_ok put_status response.status

-- A `Result` inside a list; a panic of one request is one of all.
abbrev pub attempt : {D E R A : Type 0} → Outcome E R → (E ⊎ R → Outcome D A) → Outcome D A
attempt (ok r) next = next (inr r)
attempt (err e) next = next (inl e)
attempt panic next = panic

abbrev pub is_err : {E R : Type 0} → E ⊎ R → Bool
is_err (inl e) = true
is_err (inr r) = false

-- The `poll_ready` of a sample, from what that of the service of one request gives when it is done.
unfoldable pub poll_ready :
    {Uri E : Type 0} → Outcome E (Unit {0}) → Outcome (SampleError Uri E) (Unit {0})
poll_ready ready = map_err poll ready

module _ {Uri E R : Type 0} where
  unfoldable pub join_all :
      {D : Type 0} → (Uri → Outcome E R) → List Uri → Outcome D (List (Uri × (E ⊎ R)))
  join_all request [] = ok []
  join_all request (uri ∷ uris) =
      attempt (request uri)
        λ res. and_then (join_all request uris) λ responses. ok ((uri, res) ∷ responses)

  abbrev pub cons_error : Uri → E ⊎ R → List (Uri × E) → List (Uri × E)
  cons_error uri (inl e) errors = (uri, e) ∷ errors
  cons_error uri (inr r) errors = errors

  -- The errors among the responses, each with its keyserver.
  unfoldable pub errors_of : List (Uri × (E ⊎ R)) → List (Uri × E)
  errors_of [] = []
  errors_of (response ∷ responses) = cons_error response.0 response.1 (errors_of responses)

  abbrev pub all_err : List (Uri × (E ⊎ R)) → Bool
  all_err [] = true
  all_err (response ∷ responses) = is_err response.1 && all_err responses

  unfoldable pub sample :
      (Uri → Outcome E R) → List Uri → Outcome (SampleError Uri E) (List (Uri × (E ⊎ R)))
  sample request uris = and_then (join_all request uris) λ responses.
      if all_err responses then err (sample_failed (errors_of responses)) else ok responses
