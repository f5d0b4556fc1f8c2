-- ===== src/KeyServer/Database.antt =====
-- keyserver/src/db.rs. RocksDB is an interface, and protobuf a parameter.
use cashweb_backends.Common.{ℕ, ◌≡◌, List, [], ◌∷◌, Option, none, some}
use cashweb_backends.Common.Exec.{Outcome, ok, Exec, and_then, unwrap_ok}
use cashweb_backends.KeyserverClient.Services.{Peers}
use cashweb_backends.RelayServer.Rocks.{Rocks}

pub record DatabaseWrapper : Type 0 where
  pub serialized_auth_wrapper : List ℕ
  pub token : List ℕ

pub record Stored : Type 1 where
  pub DecodeError : Type 0
  pub encode_wrapper : DatabaseWrapper → List ℕ
  pub decode_wrapper : List ℕ → Outcome DecodeError DatabaseWrapper
  pub encode_peers : Peers → List ℕ
  pub decode_peers : List ℕ → Outcome DecodeError Peers

pub record IsStored (stored : Stored) : Type 0 where
  pub decode-encode :
      (wrapper : DatabaseWrapper)
      → stored.decode_wrapper (stored.encode_wrapper wrapper) ≡ ok wrapper

abbrev pub metadata_namespace : ℕ
metadata_namespace = 109

abbrev pub peer_namespace : ℕ
peer_namespace = 112

abbrev pub metadata_key : List ℕ → List ℕ
metadata_key addr = metadata_namespace ∷ addr

abbrev pub peers_key : List ℕ
peers_key = peer_namespace ∷ []

-- `raw_opt.map(|raw| X::decode(&raw[..]).unwrap())`
abbrev pub decode_some :
    {E D A : Type 0} → (List ℕ → Outcome D A) → Option (List ℕ) → Outcome E (Option A)
decode_some decode none = ok none
decode_some decode (some raw) = and_then (unwrap_ok (decode raw)) λ a. ok (some a)

module _ (stored : Stored) {D : Type 0} (rocks : Rocks D) where
  open stored use {decode_wrapper, decode_peers}
  open rocks use {RocksError, get, put}

  unfoldable pub get_raw_metadata : List ℕ → D → Outcome RocksError (Option (List ℕ))
  get_raw_metadata addr d = get (metadata_key addr) d

  unfoldable pub get_metadata : List ℕ → D → Outcome RocksError (Option DatabaseWrapper)
  get_metadata addr d =
      and_then (get_raw_metadata addr d) λ raw_opt. decode_some decode_wrapper raw_opt

  unfoldable pub put_metadata : List ℕ → List ℕ → Exec D RocksError (Unit {0})
  put_metadata addr raw = put (metadata_key addr) raw

  unfoldable pub get_peers_raw : D → Outcome RocksError (Option (List ℕ))
  get_peers_raw d = get peers_key d

  unfoldable pub get_peers : D → Outcome RocksError (Option Peers)
  get_peers d = and_then (get_peers_raw d) λ raw_opt. decode_some decode_peers raw_opt

  unfoldable pub put_peers : List ℕ → Exec D RocksError (Unit {0})
  put_peers raw = put peers_key raw
