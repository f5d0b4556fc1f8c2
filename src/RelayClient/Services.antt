-- ===== src/RelayClient/Services.antt =====
-- lib/cashweb-relay-client/src/services.rs. The HTTP service and protobuf are parameters.
use cashweb_backends.Common.{ℕ, List, [], some}
use cashweb_backends.Common.Exec.{Outcome, and_then, map_err}
use cashweb_backends.Http.{method_get, Request, Service}
use cashweb_backends.AuthWrapper.{AuthWrapper}
use cashweb_backends.Relay.Opening.{MessagePage}
use cashweb_backends.KeyserverClient.Services.{get_request, put_request, expect_ok}

pub data GetProfileError (ServiceError BodyError DecodeError : Type 0) : Type 0 where
  profile_decode wrapper_decode : DecodeError → GetProfileError ServiceError BodyError DecodeError
  profile_body : BodyError → GetProfileError ServiceError BodyError DecodeError
  profile_service : ServiceError → GetProfileError ServiceError BodyError DecodeError
  profile_status : ℕ → GetProfileError ServiceError BodyError DecodeError

pub data PutProfileError (ServiceError : Type 0) : Type 0 where
  put_service : ServiceError → PutProfileError ServiceError
  put_status : ℕ → PutProfileError ServiceError

pub data GetMessageError (ServiceError BodyError DecodeError : Type 0) : Type 0 where
  page_service : ServiceError → GetMessageError ServiceError BodyError DecodeError
  page_status : ℕ → GetMessageError ServiceError BodyError DecodeError
  page_body : BodyError → GetMessageError ServiceError BodyError DecodeError
  page_decode : DecodeError → GetMessageError ServiceError BodyError DecodeError

-- Protobuf.
pub record Wire : Type 1 where
  pub DecodeError : Type 0
  pub Profile : Type 0
  pub encode_profile : Profile → List ℕ
  pub decode_wrapper : List ℕ → Outcome DecodeError AuthWrapper
  pub decode_page : List ℕ → Outcome DecodeError MessagePage

abbrev pub page_request : {Uri : Type 0} → Uri → List ℕ → Request Uri
page_request uri token = record {
  method = method_get;
  uri = uri;
  authorization = some token;
  body = [];
}

module _ {Uri : Type 0} (service : Service Uri) (wire : Wire) where
  open service use {ServiceError, BodyError, call}
  open wire use {DecodeError, Profile, encode_profile, decode_wrapper, decode_page}

  unfoldable pub get_profile :
      Uri → Outcome (GetProfileError ServiceError BodyError DecodeError) AuthWrapper
  get_profile uri = and_then (map_err profile_service (call (get_request uri))) λ response.
      and_then (expect_ok profile_status response.status) λ u.
        and_then (map_err profile_body response.body)
          λ buf. map_err wrapper_decode (decode_wrapper buf)

  unfoldable pub put_profile :
      List ℕ → Profile → Uri → Outcome (PutProfileError ServiceError) (Unit {0})
  put_profile token profile uri =
      and_then (map_err put_service (call (put_request uri token (encode_profile profile))))
        λ response. expect_ok put_status response.status

  unfoldable pub get_messages :
      List ℕ → Uri → Outcome (GetMessageError ServiceError BodyError DecodeError) MessagePage
  get_messages token uri =
      and_then (map_err page_service (call (page_request uri token))) λ response.
        and_then (expect_ok page_status response.status) λ u.
          and_then (map_err page_body response.body) λ buf. map_err page_decode (decode_page buf)
