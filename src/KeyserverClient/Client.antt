-- ===== src/KeyserverClient/Client.antt =====
-- lib/cashweb-keyserver-client/src/client/mod.rs: the methods of the client, which put together the URI of a
-- request and call one of the services.
use cashweb_backends.Common.{ℕ, List, ◌++◌}
use cashweb_backends.Common.Exec.{Outcome, and_then, map_err, ok_or}
use cashweb_backends.Http.{Service}
use cashweb_backends.AuthWrapper.{Signing, AuthWrapper}
use cashweb_backends.KeyserverClient.Services as Services
use cashweb_backends.KeyserverClient.Services.{
  Wire, Peers, MetadataPackage, PeersError, MetadataError, PutError,
}
use cashweb_backends.KeyserverClient.Manager.{Uris, keys_path, peers_path}

pub data KeyserverError (E : Type 0) : Type 0 where
  uri_error : KeyserverError E
  service_error : E → KeyserverError E

module _ (lib : Uris) (service : Service lib.Uri) (signing : Signing) (wire : Wire) where
  open lib use {Uri, parse}

  -- A request at a URI that is given as a string.
  abbrev pub request : {E A : Type 0} → (Uri → Outcome E A) → List ℕ → Outcome (KeyserverError E) A
  request call full_path =
      and_then (ok_or (parse full_path) uri_error) λ uri. map_err service_error (call uri)

  unfoldable pub get_peers :
      List ℕ → Outcome (KeyserverError (PeersError service signing wire)) Peers
  get_peers keyserver_url =
      request (Services.get_peers service signing wire) (keyserver_url ++ peers_path)

  unfoldable pub get_metadata :
      List ℕ
      → List ℕ
      → Outcome
          (KeyserverError (MetadataError service signing wire))
          (MetadataPackage signing.PublicKey wire.AddressMetadata)
  get_metadata keyserver_url address =
      request (Services.get_metadata service signing wire) (keyserver_url ++ (keys_path ++ address))

  unfoldable pub put_metadata :
      List ℕ
      → List ℕ
      → AuthWrapper
      → List ℕ
      → Outcome (KeyserverError (PutError service signing wire)) (Unit {0})
  put_metadata keyserver_url address auth_wrapper token =
      request (Services.put_metadata service signing wire token auth_wrapper)
        (keyserver_url ++ (keys_path ++ address))

  unfoldable pub put_raw_metadata :
      List ℕ
      → List ℕ
      → List ℕ
      → List ℕ
      → Outcome (KeyserverError (PutError service signing wire)) (Unit {0})
  put_raw_metadata keyserver_url address raw_auth_wrapper token =
      request (Services.put_raw_auth_wrapper service signing wire token raw_auth_wrapper)
        (keyserver_url ++ (keys_path ++ address))
