-- ===== src/KeyserverClient/Manager/Rounds.antt =====
-- How a crawl ends.
use cashweb_backends.Common.{
  ℕ, suc, ◌≡◌, ◌≢◌, refl, sym, ap, List, [], ◌∷◌, some, true, false, inl, inr, if◌then◌else◌, map,
  Bool-cases,
}
use cashweb_backends.Common.Exec.{Outcome, ok, err, panic}
use cashweb_backends.Common.Exec.Rules.{and_then-eq-ok, value-eq-ok}
use cashweb_backends.Http.{Service}
use cashweb_backends.AuthWrapper.{Signing}
use cashweb_backends.KeyserverClient.Services.{
  Peers, Wire, PeersError, get_peers, errors_of, sample,
}
use cashweb_backends.KeyserverClient.Manager.{
  Uris, peers_path, append_all, collect_set, difference, union, parse_peers, peer_of, oks_of,
  AggregateResponse, aggregate, peers_of, aggregate_peers, CrawlError, Crawl, crawl_round,
  next_round, is_empty, crawl_loop, start_crawl, finish, finished, crawl_peers,
}

module _ (lib : Uris) (service : Service lib.Uri) (signing : Signing) (wire : Wire) where
  drained :
      (crawl next : Crawl lib service signing wire)
      → crawl_round lib service signing wire crawl ≡ ok next
      → is_empty lib service signing wire next.found_uris ≡ true
  unfolding crawl_round
  drained crawl next h =
      let (targets, t, h1) = and_then-eq-ok (append_all lib peers_path crawl.found_uris) _ h in
      let (responses, s, h2) =
        and_then-eq-ok (sample (get_peers service signing wire) targets) _ h1 in
      ap (λ (z : Crawl lib service signing wire). is_empty lib service signing wire z.found_uris)
        (sym (value-eq-ok (ok _) h2))

  second :
      (n : ℕ) (r : Outcome (CrawlError lib service signing wire) (Crawl lib service signing wire))
      → ((next : Crawl lib service signing wire)
          → r ≡ ok next
          → is_empty lib service signing wire next.found_uris ≡ true)
      → next_round lib service signing wire (crawl_loop lib service signing wire (suc n)) r ≡ some r
  unfolding crawl_loop
  second n (ok next) h = rw (h next refl) refl
  second n (err e) h = refl
  second n panic h = refl

  loop_lem :
      (n : ℕ) (crawl : Crawl lib service signing wire)
      → crawl_loop lib service signing wire (suc (suc n)) crawl
        ≡ some (
            if is_empty lib service signing wire crawl.found_uris
            then ok crawl
            else crawl_round lib service signing wire crawl)
  unfolding crawl_loop
  loop_lem n crawl = elim (Bool-cases (is_empty lib service signing wire crawl.found_uris)) [
    | inl e ↦ rw e refl
    | inr f ↦ rw (f, second n (crawl_round lib service signing wire crawl) (drained crawl)) refl
  ]

  -- The peers and the errors that a crawl ends with, from the answers of the keyservers that it began with.
  abbrev pub one_round :
      List lib.Uri
      → List (lib.Uri × Peers)
      → List (lib.Uri × PeersError service signing wire)
      → AggregateResponse lib.Uri Peers (PeersError service signing wire)
  one_round seeds answers errors = record {
    response = record {
      peers = map (peer_of lib) (
          union lib seeds
            (difference lib (collect_set lib (parse_peers lib (peers_of answers))) seeds));
    };
    errors = errors;
  }

  not_empty : (uris : List lib.Uri) → uris ≢ [] → is_empty lib service signing wire uris ≡ false
  not_empty [] n = absurd (n refl)
  not_empty (uri ∷ uris) n = refl

  -- A crawl ends after one round of requests, whatever the keyservers answer: with two tests of the loop's
  -- condition or more it has one and the same result. Without keyservers that is no peer and no error.
  -- Otherwise the keyservers that it began with are asked, and the result has them, then those among
  -- the peers in their answers that were not known, and the errors of the requests that failed; or it
  -- is the error of the sample.
  pub crawl_peers_terminates :
      (uris : List lib.Uri)
      → (r : Outcome
          (CrawlError lib service signing wire)
          (AggregateResponse lib.Uri Peers (PeersError service signing wire)))
        × ((n : ℕ) → crawl_peers lib service signing wire (suc (suc n)) uris ≡ some r)
        × (collect_set lib uris ≡ []
            → r ≡ ok (record { response = record { peers = [] }; errors = [] }))
        × ((targets : List lib.Uri)
            → collect_set lib uris ≢ []
            → append_all lib {E = CrawlError lib service signing wire} peers_path
                (collect_set lib uris)
              ≡ ok targets
            → ((responses : _)
                → sample (get_peers service signing wire) targets ≡ ok responses
                → r
                  ≡ ok (one_round (collect_set lib uris) (oks_of responses) (errors_of responses)))
              × ((e : CrawlError lib service signing wire)
                  → sample (get_peers service signing wire) targets ≡ err e
                  → r ≡ err e))
  unfolding crawl_peers start_crawl crawl_round aggregate aggregate_peers
  crawl_peers_terminates uris =
      let crawl = start_crawl lib service signing wire uris in
      (
        finish lib service signing wire (
            if is_empty lib service signing wire crawl.found_uris
            then ok crawl
            else crawl_round lib service signing wire crawl),
        λ n. ap (finished lib service signing wire) (loop_lem n crawl),
        λ e. rw e refl,
        λ targets some_uris t. (
          λ responses s. rw (not_empty (collect_set lib uris) some_uris, t, s) refl,
          λ e s. rw (not_empty (collect_set lib uris) some_uris, t, s) refl,
        ),
      )
