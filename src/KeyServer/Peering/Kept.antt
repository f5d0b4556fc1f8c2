-- ===== src/KeyServer/Peering/Kept.antt =====
-- What an inflation of the peers leaves, and what is read back of it.
use cashweb_backends.Common.{
  ℕ, suc, ◌≡◌, ◌≢◌, ◌⊎◌, inl, inr, refl, ap, ◌∙◌, List, [], ◌∷◌, ◌++◌, some, map, Bool-cases,
}
use cashweb_backends.Common.Exec.{Outcome, ok, err, panic}
use cashweb_backends.Http.{Service}
use cashweb_backends.AuthWrapper.{Signing}
use cashweb_backends.KeyserverClient.Services.{
  Peers, Wire, PeersError, get_peers, errors_of, sample,
}
use cashweb_backends.KeyserverClient.Manager.{
  Uris, peers_path, append_all, member, collect_set, difference, union, parse_peers, peer_of,
  peers_of, oks_of, AggregateResponse, CrawlError,
}
use cashweb_backends.KeyserverClient.Manager.Rounds.{one_round, crawl_peers_terminates}
use cashweb_backends.RelayServer.Rocks.{Rocks, IsRocks}
use cashweb_backends.RelayServer.Database.Digests.{UnlessError}
use cashweb_backends.KeyServer.Database as Database
use cashweb_backends.KeyServer.Database.{Stored, peers_key}
use cashweb_backends.KeyServer.Peering.{
  PeerHandler, uris_to_peers, uris_to_raw_peers, set_peers, get_raw_peers, persist, collect_uris,
  crawled, after_crawl, inflate,
}

module _ (lib : Uris) (stored : Stored) where
  -- The cache holds the encoding of the manager's URIs.
  abbrev pub IsCoherent : PeerHandler lib stored → Type 0
  IsCoherent handler = handler.peers_cache ≡ uris_to_raw_peers lib stored handler.uris

  parse_printed :
      ((uri : lib.Uri) → lib.parse (lib.to_string uri) ≡ some uri)
      → (uris : List lib.Uri) → parse_peers lib (map (peer_of lib) uris) ≡ uris
  unfolding parse_peers
  parse_printed printed [] = refl
  parse_printed printed (uri ∷ uris) = rw (printed uri, parse_printed printed uris) refl

  difference_again :
      (found total : List lib.Uri)
      → difference lib (difference lib found total) total ≡ difference lib found total
  unfolding difference
  difference_again [] total = refl
  difference_again (uri ∷ found) total = elim (Bool-cases (member lib total uri)) [
    | inl known ↦ rw known (difference_again found total)
    | inr new ↦ rw (new, new, difference_again found total) refl
  ]

  module _ (service : Service lib.Uri) (signing : Signing) (wire : Wire) where
    -- The peers in the answers to a sample, as URIs, each once.
    abbrev pub answered : List (lib.Uri × (PeersError service signing wire ⊎ Peers)) → List lib.Uri
    answered responses = collect_set lib (parse_peers lib (peers_of (oks_of responses)))

    crawled-IsCoherent :
        (o : Outcome
          (CrawlError lib service signing wire)
          (AggregateResponse lib.Uri Peers (PeersError service signing wire)))
        (handler : PeerHandler lib stored)
        → IsCoherent handler
        → let end = crawled lib stored service signing wire o handler in
          IsCoherent end.1 × (end.0 ≢ ok tt → end.1 ≡ handler)
    unfolding set_peers
    crawled-IsCoherent (ok answer) handler coherent = (refl, λ n. absurd (n refl))
    crawled-IsCoherent (err e) handler coherent = (coherent, λ n. refl)
    crawled-IsCoherent panic handler coherent = (coherent, λ n. refl)

    inflated :
        ((uri : lib.Uri) → lib.parse (lib.to_string uri) ≡ some uri)
        → (seeds found : List lib.Uri) (errors : List (lib.Uri × PeersError service signing wire))
          (peers : List (lib.Uri × Peers)) (handler : PeerHandler lib stored)
        → collect_set lib (parse_peers lib (peers_of peers)) ≡ found
        → (crawled lib stored service signing wire
            (ok (one_round lib service signing wire seeds peers errors))
            handler).1.uris
          ≡ seeds ++ difference lib found seeds
    unfolding set_peers collect_uris union
    inflated printed seeds found errors peers handler e =
        parse_printed printed _
        ∙ ap (λ new. seeds ++ difference lib new seeds) (ap (λ f. difference lib f seeds) e)
        ∙ ap (λ new. seeds ++ new) (difference_again found seeds)

    -- An inflation ends with one and the same result on any fuel of two or more, and leaves a handler
    -- whose cache holds the encoding of its URIs, if it was so before. A URI that is printed parses to
    -- itself. Without URIs it succeeds and leaves none. Otherwise the known URIs are asked for their peers,
    -- where the path of the request can be appended to each: if the sample gives answers, it succeeds and leaves the known URIs, each once, and behind them
    -- those among the peers in the answers that were not known; if the sample fails, its error is the
    -- result. A handler whose inflation does not succeed is as it was.
    pub inflate-IsCoherent :
        ((uri : lib.Uri) → lib.parse (lib.to_string uri) ≡ some uri)
        → (handler : PeerHandler lib stored) → IsCoherent handler
        → (r : Outcome (CrawlError lib service signing wire) (Unit {0})) × (handler' : PeerHandler
            lib stored)
          × ((n : ℕ)
              → inflate lib stored service signing wire (suc (suc n)) handler ≡ some (r, handler'))
          × IsCoherent handler'
          × (r ≢ ok tt → handler' ≡ handler)
          × (collect_set lib handler.uris ≡ [] → (r ≡ ok tt) × (handler'.uris ≡ []))
          × ((targets : List lib.Uri)
              → collect_set lib handler.uris ≢ []
              → append_all lib {E = CrawlError lib service signing wire} peers_path
                  (collect_set lib handler.uris)
                ≡ ok targets
              → ((responses : _)
                  → sample (get_peers service signing wire) targets ≡ ok responses
                  → (r ≡ ok tt)
                    × (handler'.uris
                        ≡ collect_set lib handler.uris
                          ++ difference lib (answered responses) (collect_set lib handler.uris)))
                × ((e : CrawlError lib service signing wire)
                    → sample (get_peers service signing wire) targets ≡ err e
                    → r ≡ err e))
    unfolding inflate set_peers collect_uris parse_peers
    inflate-IsCoherent printed handler coherent =
        let (o, fuel, empty, asked) =
          crawl_peers_terminates lib service signing wire handler.uris in
        let end = crawled lib stored service signing wire o handler in
        let (kept, same) = crawled-IsCoherent o handler coherent in
        (
          end.0,
          end.1,
          λ n. ap (λ z. after_crawl lib stored service signing wire z handler) (fuel n),
          kept,
          same,
          λ e. (
            ap (λ z. (crawled lib stored service signing wire z handler).0) (empty e),
            ap (λ z. (crawled lib stored service signing wire z handler).1.uris) (empty e),
          ),
          λ targets some_uris t. (
            λ responses s.
                let e = (asked targets some_uris t).0 responses s in
                (
                  ap (λ z. (crawled lib stored service signing wire z handler).0) e,
                  ap (λ z. (crawled lib stored service signing wire z handler).1.uris) e
                      ∙ inflated printed (collect_set lib handler.uris) (answered responses)
                          (errors_of responses) (oks_of responses) handler refl,
                ),
            λ e s.
                ap (λ z. (crawled lib stored service signing wire z handler).0)
                  ((asked targets some_uris t).1 e s),
          ),
        )

  -- The peers of a handler that was persisted are read back, unless the database fails.
  pub persist-get_peers :
      {D : Type 0} (rocks : Rocks D) (laws : IsRocks rocks) (handler : PeerHandler lib stored)
      (d d' : D)
      → ((peers : Peers) → stored.decode_peers (stored.encode_peers peers) ≡ ok peers)
      → IsCoherent handler
      → persist lib stored rocks handler d ≡ (ok tt, d')
      → UnlessError
          (Database.get_peers stored rocks d')
          (some (uris_to_peers lib stored handler.uris))
  unfolding persist get_raw_peers uris_to_raw_peers Database.put_peers Database.get_peers
      Database.get_peers_raw
  persist-get_peers rocks laws handler d d' decodes coherent h =
      let (here, _) = laws.put_lem peers_key handler.peers_cache d d' h in
      elim (laws.get_lem peers_key d') [
        | inl found ↦
            inl (rw (found, here, coherent, decodes (uris_to_peers lib stored handler.uris)) refl)
        | inr (e, failed) ↦ inr (e, rw failed refl)
      ]
