-- ===== src/KeyServer/Metadata.antt =====
-- keyserver/src/net/metadata and net/protection.rs: the handlers of metadata and the token that the PUT
-- route asks for. An address is its body; protobuf, headers and the texts of errors are parameters.
pub mod Committed
use cashweb_backends.Common.{
  ℕ, List, [], ◌∷◌, ◌++◌, Option, none, some, Bool, true, false, if◌then◌else◌, length, ◌==◌,
  bytes_eq,
}
use cashweb_backends.Common.Exec.{
  Outcome, ok, err, panic, Exec, and_then, map_err, with_err, unwrap, lift, pure, ◌>>=◌, ◌>>◌,
}
use cashweb_backends.Http.{Response, Service, authorization_name, with_body}
use cashweb_backends.AuthWrapper as AuthWrapper
use cashweb_backends.AuthWrapper.{Signing, AuthWrapper, ParseError, VerifyError}
use cashweb_backends.Token.{pop_prefix, extract_pop}
use cashweb_backends.Token.HmacBearer.{Base64}
use cashweb_backends.Token.ChainCommitment.{Chain, ValidationError, validate_token}
use cashweb_backends.RelayServer.Rocks.{Rocks}
use cashweb_backends.KeyserverClient.Services.{Wire, SampleError, MetadataError, MetadataPackage}
use cashweb_backends.KeyserverClient.Manager.{
  Uris, SampleResponse, Package, uniform_sample_metadata,
}
use cashweb_backends.KeyServer.TokenCache.{Cache, add_token}
use cashweb_backends.KeyServer.Database as Database
use cashweb_backends.KeyServer.Database.{DatabaseWrapper, Stored}

pub data ProtectionError (DecodeError Base64Error NodeError : Type 0) : Type 0 where
  missing_token : List ℕ → List ℕ → ProtectionError DecodeError Base64Error NodeError
  validation :
      ValidationError Base64Error NodeError → ProtectionError DecodeError Base64Error NodeError
  decode_error : DecodeError → ProtectionError DecodeError Base64Error NodeError

pub data PutMetadataError (RocksError SecpError : Type 0) : Type 0 where
  put_database : RocksError → PutMetadataError RocksError SecpError
  invalid_auth_wrapper : ParseError SecpError → PutMetadataError RocksError SecpError
  verify_auth_wrapper : VerifyError SecpError → PutMetadataError RocksError SecpError

pub data GetMetadataError (RocksError : Type 0) : Type 0 where
  not_found : GetMetadataError RocksError
  get_database : RocksError → GetMetadataError RocksError

unfoldable pub put_status : {R S : Type 0} → PutMetadataError R S → ℕ
put_status (put_database e) = 500
put_status (invalid_auth_wrapper e) = 400
put_status (verify_auth_wrapper e) = 400

unfoldable pub get_status : {R : Type 0} → GetMetadataError R → ℕ
get_status not_found = 404
get_status (get_database e) = 500

-- What the handlers write to: the database and the cache of tokens.
pub record Server (D : Type 0) : Type 0 where
  pub database : D
  pub cache : Cache (List ℕ)

-- "false"
abbrev pub header_value_false : List ℕ
header_value_false = 102 ∷ 97 ∷ 108 ∷ 115 ∷ 101 ∷ []

-- The first value of the header "Sample-Peers".
abbrev pub is_false : Option (List ℕ) → Bool
is_false none = false
is_false (some value) = bytes_eq value header_value_false

abbrev pub token_headers : List ℕ → List (List ℕ × List ℕ)
token_headers token = (authorization_name, token) ∷ []

-- The digest that the wrapper gives, if it has the length of one.
abbrev pub metadata_hash : Signing → AuthWrapper → List ℕ
metadata_hash signing w =
    if length w.payload_digest == 32 then w.payload_digest else signing.sha256 w.payload

module _ (signing : Signing) (base64 : Base64) (chain : Chain) {HeaderValue DecodeError : Type 0}
    (to_str : HeaderValue → Option (List ℕ))
    (decode : List ℕ → Outcome DecodeError AuthWrapper) where
  open signing use {SecpError, sha256}
  open base64 use {Base64Error}
  open chain use {NodeError}

  abbrev pub Protection : Type 0
  Protection = ProtectionError DecodeError Base64Error NodeError

  abbrev pub protect : AuthWrapper → Option (List ℕ) → Outcome Protection (AuthWrapper × List ℕ)
  protect w none = err (missing_token (sha256 w.public_key) (metadata_hash signing w))
  protect w (some pop_token) =
      and_then
        (map_err validation
          (validate_token base64 chain (sha256 w.public_key) (metadata_hash signing w) pop_token))
        λ raw_token. ok (w, raw_token)

  -- The wrapper and the raw token; the address and the body come back as they were given.
  unfoldable pub pop_protection :
      List ℕ → List HeaderValue → Outcome Protection (AuthWrapper × List ℕ)
  pop_protection auth_wrapper_raw headers =
      and_then (map_err decode_error (decode auth_wrapper_raw))
        λ auth_wrapper. and_then (extract_pop to_str headers) λ token. protect auth_wrapper token

module _ (signing : Signing) (stored : Stored) {D : Type 0} (rocks : Rocks D) where
  open signing use {SecpError}
  open rocks use {RocksError}

  abbrev pub PutError : Type 0
  PutError = PutMetadataError RocksError SecpError

  unfoldable pub check : AuthWrapper → Outcome PutError (Unit {0})
  check w =
      and_then (map_err invalid_auth_wrapper (AuthWrapper.parse signing w))
        λ parsed. map_err verify_auth_wrapper (AuthWrapper.verify signing parsed)

  abbrev pub set_database :
      Outcome RocksError (Unit {0}) × D → Server D → Outcome PutError (Unit {0}) × Server D
  set_database (r, d) s = (map_err put_database r, record s { database = d })

  unfoldable pub store : List ℕ → List ℕ → List ℕ → Exec (Server D) PutError (Unit {0})
  store addr auth_wrapper_raw token_raw s =
      set_database
        (Database.put_metadata stored rocks addr
          (stored.encode_wrapper
            (record { serialized_auth_wrapper = auth_wrapper_raw; token = token_raw }))
          s.database)
        s

  abbrev pub set_cache :
      Outcome PutError (Cache (List ℕ)) → Server D → Outcome PutError (Unit {0}) × Server D
  set_cache (ok cache) s = (ok tt, record s { cache = cache })
  set_cache (err e) s = (err e, s)
  set_cache panic s = (panic, s)

  unfoldable pub cache_token : List ℕ → Exec (Server D) PutError (Unit {0})
  cache_token addr s = set_cache (add_token addr s.cache) s

  unfoldable pub put_metadata :
      List ℕ → List ℕ → AuthWrapper → List ℕ → Exec (Server D) PutError Response
  put_metadata addr auth_wrapper_raw auth_wrapper token_raw = do
    lift (check auth_wrapper)
    store addr auth_wrapper_raw token_raw
    cache_token addr
    pure (with_body 200 [])

  module _ (lib : Uris) (service : Service lib.Uri) (wire : Wire) (base64 : Base64) where
    abbrev pub from_answer :
        Option (lib.Uri × Package lib service signing wire)
        → Outcome (GetMetadataError RocksError) Response
    from_answer none = err not_found
    from_answer (some answer) = ok (record {
      status = 200;
      headers = token_headers answer.1.token;
      body = answer.1.raw_auth_wrapper;
    })

    -- An error of the sample is not told from no answer.
    abbrev pub from_sample :
        Outcome (SampleError lib.Uri (MetadataError service signing wire)) (
          SampleResponse lib.Uri
            (Package lib service signing wire)
            (MetadataError service signing wire))
        → Outcome (GetMetadataError RocksError) Response
    from_sample (ok answer) = from_answer answer.response
    from_sample (err e) = err not_found
    from_sample panic = panic

    abbrev pub sample_peers :
        List lib.Uri
        → (List ℕ → Option (List ℕ))
        → List ℕ
        → ℕ
        → Bool
        → Outcome (GetMetadataError RocksError) Response
    sample_peers uris encode_address addr pull_fan_size true = err not_found
    sample_peers uris encode_address addr pull_fan_size false =
        and_then (unwrap (encode_address addr)) λ addr_str.
          from_sample (uniform_sample_metadata lib service signing wire uris addr_str pull_fan_size)

    abbrev pub from_database :
        Option DatabaseWrapper
        → Outcome (GetMetadataError RocksError) Response
        → Outcome (GetMetadataError RocksError) Response
    from_database none rest = rest
    from_database (some wrapper) rest = ok (record {
      status = 200;
      headers = token_headers (pop_prefix ++ base64.encode wrapper.token);
      body = wrapper.serialized_auth_wrapper;
    })

    unfoldable pub get_metadata :
        List lib.Uri
        → (List ℕ → Option (List ℕ))
        → ℕ
        → List ℕ
        → Option (List ℕ)
        → D
        → Outcome (GetMetadataError RocksError) Response
    get_metadata uris encode_address pull_fan_size addr sampling d =
        and_then (map_err get_database (Database.get_metadata stored rocks addr d)) λ wrapper_opt.
          from_database wrapper_opt
            (sample_peers uris encode_address addr pull_fan_size (is_false sampling))
