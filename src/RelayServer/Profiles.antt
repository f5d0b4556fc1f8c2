-- ===== src/RelayServer/Profiles.antt =====
-- relayserver/src/net/profiles.rs. Protobuf is a parameter.
pub mod Verified
use cashweb_backends.Common.{ℕ, List, [], Option}
use cashweb_backends.Common.Exec.{
  Outcome, Exec, and_then, map_err, ok_or, ok, lift, pure, mapping_err, ◌>>=◌, ◌>>◌,
}
use cashweb_backends.Http.{Response, with_body}
use cashweb_backends.AuthWrapper.{
  Signing, AuthWrapper, ParsedAuthWrapper, ParseError, VerifyError, parse, verify,
}
use cashweb_backends.RelayServer.Rocks.{Rocks}
use cashweb_backends.RelayServer.Database as Database

pub data GetProfileError (RocksError : Type 0) : Type 0 where
  not_found : GetProfileError RocksError
  get_database : RocksError → GetProfileError RocksError

unfoldable pub get_status : {R : Type 0} → GetProfileError R → ℕ
get_status not_found = 404
get_status (get_database e) = 500

pub data PutProfileError (RocksError DecodeError SecpError : Type 0) : Type 0 where
  put_database : RocksError → PutProfileError RocksError DecodeError SecpError
  profile_decode : DecodeError → PutProfileError RocksError DecodeError SecpError
  verify_error : VerifyError SecpError → PutProfileError RocksError DecodeError SecpError
  parse_error : ParseError SecpError → PutProfileError RocksError DecodeError SecpError

unfoldable pub put_status : {R D S : Type 0} → PutProfileError R D S → ℕ
put_status (put_database e) = 500
put_status (profile_decode e) = 400
put_status (verify_error e) = 400
put_status (parse_error e) = 400

module _ (signing : Signing) {DecodeError : Type 0}
    (decode_wrapper : List ℕ → Outcome DecodeError AuthWrapper) {D : Type 0} (rocks : Rocks D) where
  unfoldable pub get_profile : List ℕ → D → Outcome (GetProfileError rocks.RocksError) Response
  get_profile addr d =
      and_then (map_err get_database (Database.get_raw_profile rocks addr d))
        λ found. and_then (ok_or found not_found) λ raw_profile. ok (with_body 200 raw_profile)

  abbrev pub Put : Type 0
  Put = PutProfileError rocks.RocksError DecodeError signing.SecpError

  -- Decoding and both checks.
  unfoldable pub check : List ℕ → Outcome Put (Unit {0})
  check profile_raw = and_then (map_err profile_decode (decode_wrapper profile_raw)) λ profile.
      and_then (map_err parse_error (parse signing profile))
        λ parsed. map_err verify_error (verify signing parsed)

  unfoldable pub put_profile : List ℕ → List ℕ → Exec D Put Response
  put_profile addr profile_raw = do
    lift (check profile_raw)
    mapping_err put_database (Database.put_profile rocks addr profile_raw)
    pure (with_body 200 [])
