-- ===== src/KeyserverClient/Instances.antt =====
-- URIs that are byte strings and a service that answers every request with metadata, on which the tests run.
use cashweb_backends.Common.{ℕ, List, [], ◌∷◌, ◌++◌, some, none, take, get_or}
use cashweb_backends.Common.Exec.{ok}
use cashweb_backends.Http.{Request, Service, authorization_name}
use cashweb_backends.AuthWrapper.{AuthWrapper}
use cashweb_backends.RelayServer.Instances.{byte_strings}
use cashweb_backends.KeyserverClient.Services.{Wire}
use cashweb_backends.KeyserverClient.Manager.{Uris}

abbrev pub lib : Uris
lib = record {
  Uri = List ℕ;
  Origin = List ℕ;
  origin = λ uri. uri;
  path_and_query = λ uri. none;
  parse_path_and_query = λ s. some (record { path = s; query = none });
  from_parts = λ o p. some (o ++ p.path);
  parse = λ s. some s;
  to_string = λ uri. uri;
  equal = byte_strings;
  choose_multiple = λ uris n. take n uris;
}

abbrev pub token_value : List ℕ
token_value = 80 ∷ 79 ∷ 80 ∷ 32 ∷ 7 ∷ []

-- The body is the first byte of the URI.
abbrev pub service : Service (List ℕ)
service = record {
  ServiceError = Unit {0};
  BodyError = Unit {0};
  call = λ (request : Request (List ℕ)). ok (record {
    status = 200;
    headers = (authorization_name, token_value) ∷ [];
    body = ok (take 1 request.uri);
  });
}

abbrev pub wrapper_of : List ℕ → AuthWrapper
wrapper_of payload = record {
  public_key = 1 ∷ [];
  signature = 2 ∷ [];
  scheme = 1;
  payload = payload;
  payload_digest = [];
  burn_amount = 0;
  transactions = [];
}

abbrev pub wire : Wire
wire = record {
  DecodeError = Unit {0};
  AddressMetadata = ℕ;
  timestamp = λ time. time;
  decode_metadata = λ raw. ok (get_or raw 0 0);
  decode_peers = λ raw. ok (record { peers = record { url = 9 ∷ [] } ∷ record { url = raw } ∷ [] });
  decode_wrapper = λ raw. ok (wrapper_of raw);
  encode_wrapper = λ (w : AuthWrapper). w.payload;
}
