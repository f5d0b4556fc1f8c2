-- ===== src/KeyServer/Peering.antt =====
-- keyserver/src/peering/mod.rs, the broadcast of a block in peering/token_cache.rs, and net/peers.rs. The
-- clients of the peers, URIs and the encoding of addresses are parameters. What is sent to the peers is the
-- list of the calls of the manager, whose answers are dropped.
pub mod Kept
pub mod Broadcasts
pub mod Sent
use cashweb_backends.Common.{
  ℕ, List, [], ◌∷◌, ◌++◌, Option, none, some, Bool, not, map, if◌then◌else◌,
}
use cashweb_backends.Common.Exec.{Outcome, ok, err, panic, Exec, and_then, unwrap_ok}
use cashweb_backends.Http.{Service, Response, with_body}
use cashweb_backends.AuthWrapper.{Signing}
use cashweb_backends.Token.{pop_prefix}
use cashweb_backends.Token.HmacBearer.{Base64}
use cashweb_backends.KeyserverClient.Services.{Peers, Wire, SampleError, PeersError}
use cashweb_backends.KeyserverClient.Manager.{
  Uris, peer_of, cons_parsed, parse_peers, AggregateResponse, crawl_peers,
  uniform_broadcast_raw_metadata,
}
use cashweb_backends.RelayServer.Rocks.{Rocks}
use cashweb_backends.KeyServer.Database as Database
use cashweb_backends.KeyServer.Database.{DatabaseWrapper, Stored}
use cashweb_backends.KeyServer.TokenCache as TokenCache
use cashweb_backends.KeyServer.TokenCache.{Cache}

module _ (lib : Uris) (stored : Stored) where
  open lib use {Uri}
  open stored use {encode_peers}

  -- The URIs of the manager, and the cache of the encoded peers.
  pub record PeerHandler : Type 0 where
    pub uris : List Uri
    pub peers_cache : List ℕ

  unfoldable pub parse_uri_warn : List ℕ → Option Uri
  parse_uri_warn uri_str = lib.parse uri_str

  unfoldable pub uris_to_peers : List Uri → Peers
  uris_to_peers uris = record { peers = map (peer_of lib) uris }

  unfoldable pub uris_to_raw_peers : List Uri → List ℕ
  uris_to_raw_peers uris = encode_peers (uris_to_peers uris)

  unfoldable pub new : List Uri → PeerHandler
  new uris = record { uris = uris; peers_cache = uris_to_raw_peers uris }

  unfoldable pub get_urls : PeerHandler → List Uri
  get_urls handler = handler.uris

  -- Both locks are held until the end.
  unfoldable pub set_peers : List Uri → PeerHandler → PeerHandler
  set_peers uris handler = record { uris = uris; peers_cache = uris_to_raw_peers uris }

  unfoldable pub get_raw_peers : PeerHandler → List ℕ
  get_raw_peers handler = handler.peers_cache

  unfoldable pub persist :
      {D : Type 0} (rocks : Rocks D) → PeerHandler → Exec D rocks.RocksError (Unit {0})
  persist rocks handler = Database.put_peers stored rocks (get_raw_peers handler)

  -- `filter_map(|peer| parse_uri_warn(&peer.url)).collect()`
  unfoldable pub collect_uris : Peers → List Uri
  collect_uris peers = parse_peers lib peers.peers

  module _ (service : Service Uri) (signing : Signing) (wire : Wire) where
    abbrev pub CrawlError : Type 0
    CrawlError = SampleError Uri (PeersError service signing wire)

    abbrev pub crawled :
        Outcome CrawlError (AggregateResponse Uri Peers (PeersError service signing wire))
        → PeerHandler
        → Outcome CrawlError (Unit {0}) × PeerHandler
    crawled (ok answer) handler = (ok tt, set_peers (collect_uris answer.response) handler)
    crawled (err e) handler = (err e, handler)
    crawled panic handler = (panic, handler)

    abbrev pub after_crawl :
        Option (Outcome CrawlError (AggregateResponse Uri Peers (PeersError service signing wire)))
        → PeerHandler
        → Option (Outcome CrawlError (Unit {0}) × PeerHandler)
    after_crawl none handler = none
    after_crawl (some r) handler = some (crawled r handler)

    -- The fuel is that of the crawl.
    unfoldable pub inflate : ℕ → PeerHandler → Option (Outcome CrawlError (Unit {0}) × PeerHandler)
    inflate fuel handler =
        after_crawl (crawl_peers lib service signing wire fuel handler.uris) handler

pub data PeeringUnavailable : Type 0 where
  peering_unavailable : PeeringUnavailable

unfoldable pub to_status : PeeringUnavailable → ℕ
to_status peering_unavailable = 501

unfoldable pub get_peers :
    {lib : Uris} {stored : Stored}
    → Bool
    → PeerHandler lib stored
    → Outcome PeeringUnavailable Response
get_peers {lib = lib} {stored = stored} enabled peer_handler =
    if not enabled
    then err peering_unavailable
    else ok (with_body 200 (get_raw_peers lib stored peer_handler))

-- A call of `uniform_broadcast_raw_metadata`.
pub record Call : Type 0 where
  pub addr_str : List ℕ
  pub raw_auth_wrapper : List ℕ
  pub token : List ℕ

module _ (lib : Uris) (service : Service lib.Uri) (signing : Signing) (wire : Wire)
    (base64 : Base64) (stored : Stored) {D : Type 0} (rocks : Rocks D) {EncodingError : Type 0}
    (encode_address : List ℕ → Outcome EncodingError (List ℕ)) (push_fan_size : ℕ) where
  open lib use {Uri}

  -- The response is dropped.
  abbrev pub dropped : {E A : Type 0} → Outcome E A → Outcome (Unit {0}) (Unit {0})
  dropped (ok a) = ok tt
  dropped (err e) = ok tt
  dropped panic = panic

  abbrev pub call_for : List ℕ → DatabaseWrapper → Call
  call_for addr_str db_wrapper = record {
    addr_str = addr_str;
    raw_auth_wrapper = db_wrapper.serialized_auth_wrapper;
    token = pop_prefix ++ base64.encode db_wrapper.token;
  }

  unfoldable pub run_call : List Uri → Call → Outcome (Unit {0}) (Unit {0})
  run_call uris call = dropped (
      uniform_broadcast_raw_metadata lib service signing wire uris call.addr_str
        call.raw_auth_wrapper call.token push_fan_size)

  -- What the database has for an address; an error of it and no entry both go on to the next address.
  abbrev pub send_found :
      List Uri
      → List ℕ
      → Outcome rocks.RocksError (Option DatabaseWrapper)
      → Outcome (Unit {0}) (List Call)
  send_found uris addr (ok (some db_wrapper)) =
      and_then (unwrap_ok (encode_address addr)) λ addr_str.
        and_then (run_call uris (call_for addr_str db_wrapper))
          λ u. ok (call_for addr_str db_wrapper ∷ [])
  send_found uris addr (ok none) = ok []
  send_found uris addr (err e) = ok []
  send_found uris addr panic = panic

  unfoldable pub send_all : List Uri → D → List (List ℕ) → Outcome (Unit {0}) (List Call)
  send_all uris db [] = ok []
  send_all uris db (addr ∷ addrs) =
      and_then (send_found uris addr (Database.get_metadata stored rocks addr db))
        λ call. and_then (send_all uris db addrs) λ calls. ok (call ++ calls)

  -- The blocks are cycled before anything is sent, and stay so.
  unfoldable pub broadcast_block :
      PeerHandler lib stored → D → Exec (Cache (List ℕ)) (Unit {0}) (List Call)
  broadcast_block peer_handler db token_blocks =
      let step = TokenCache.broadcast_block token_blocks in
      (send_all peer_handler.uris db step.0, step.1)
