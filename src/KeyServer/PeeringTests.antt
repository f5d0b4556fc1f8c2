-- ===== src/KeyServer/PeeringTests.antt =====
-- The theorems on peers at a handler with three peers, one of them twice.
use cashweb_backends.Common.{ℕ, suc, ◌≡◌, ◌≢◌, refl, List, [], ◌∷◌, ◌++◌, some}
use cashweb_backends.Common.Exec.{Outcome, ok, err}
use cashweb_backends.AuthWrapper.Instances.{signing}
use cashweb_backends.KeyserverClient.Instances.{lib, service, wire}
use cashweb_backends.KeyserverClient.Manager.{
  CrawlError, append_all, peers_path, collect_set, difference,
}
use cashweb_backends.KeyserverClient.Services.{sample, get_peers}
use cashweb_backends.KeyServer.Database.{DatabaseWrapper, Stored}
use cashweb_backends.KeyServer.Peering.{PeerHandler, uris_to_raw_peers, uris_to_peers, inflate}
use cashweb_backends.KeyServer.Peering.Kept.{IsCoherent, answered, inflate-IsCoherent}

abbrev stored : Stored
stored = record {
  DecodeError = Unit {0};
  encode_wrapper = λ (w : DatabaseWrapper). [];
  decode_wrapper = λ raw. err tt;
  encode_peers = λ peers. 1 ∷ [];
  decode_peers = λ raw. err tt;
}

abbrev handler : PeerHandler lib stored
handler = record { uris = (3 ∷ []) ∷ (8 ∷ []) ∷ (3 ∷ []) ∷ (4 ∷ []) ∷ []; peers_cache = 1 ∷ [] }

inflate-IsCoherent_example :
    let known : List (List ℕ) = (8 ∷ []) ∷ (3 ∷ []) ∷ (4 ∷ []) ∷ [] in
    (r : Outcome (CrawlError lib service signing wire) (Unit {0})) × (handler' : PeerHandler lib
      stored)
    × ((n : ℕ) → inflate lib stored service signing wire (suc (suc n)) handler ≡ some (r, handler'))
    × IsCoherent lib stored handler'
    × (r ≢ ok tt → handler' ≡ handler)
    × (known ≡ [] → (r ≡ ok tt) × (handler'.uris ≡ []))
    × ((targets : List (List ℕ))
        → known ≢ []
        → append_all lib {E = CrawlError lib service signing wire} peers_path known ≡ ok targets
        → ((responses : _)
            → sample (get_peers service signing wire) targets ≡ ok responses
            → (r ≡ ok tt)
              × (handler'.uris
                  ≡ known
                    ++ difference lib (answered lib stored service signing wire responses) known))
          × ((e : CrawlError lib service signing wire)
              → sample (get_peers service signing wire) targets ≡ err e
              → r ≡ err e))
unfolding uris_to_raw_peers uris_to_peers collect_set
inflate-IsCoherent_example =
    inflate-IsCoherent lib stored service signing wire (λ uri. refl) handler refl
