-- ===== src/RelayClient/Tests.antt =====
-- The theorem on the client at a server in memory and a profile of one byte.
use cashweb_backends.Common.{ℕ, List, [], ◌∷◌, replicate}
use cashweb_backends.Common.Exec.{ok, err}
use cashweb_backends.Http.{Request, Service}
use cashweb_backends.AuthWrapper.{AuthWrapper}
use cashweb_backends.RelayServer.Database as Database
use cashweb_backends.RelayServer.Profiles as Profiles
use cashweb_backends.RelayClient.Services.{Wire}

abbrev wrapper : AuthWrapper
wrapper = record {
  public_key = 1 ∷ [];
  signature = 2 ∷ [];
  scheme = 1;
  payload = 3 ∷ 4 ∷ [];
  payload_digest = replicate 32 2;
  burn_amount = 0;
  transactions = [];
}

-- Every encoding reads as the same wrapper.
abbrev wire : Wire
wire = record {
  DecodeError = Unit {0};
  Profile = ℕ;
  encode_profile = λ profile. profile ∷ [];
  decode_wrapper = λ raw. ok wrapper;
  decode_page = λ raw. err tt;
}

abbrev service : Service (List ℕ)
service = record {
  ServiceError = Unit {0};
  BodyError = Unit {0};
  call = λ (request : Request (List ℕ)).
      ok (record { status = 200; headers = []; body = ok (7 ∷ []) });
}

abbrev address : List ℕ
address = replicate 20 32
