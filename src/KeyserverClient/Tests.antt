-- ===== src/KeyserverClient/Tests.antt =====
-- The theorems on the client at concrete inputs: two keyservers that answer with metadata and peers.
use cashweb_backends.Common.{ℕ, ◌≤◌, ◌≡◌, ◌≢◌, ◌⊎◌, refl, List, [], ◌∷◌, ◌++◌, some, All, suc}
use mathlib.Core.List.{Memᴰ}
use cashweb_backends.Common.Exec.{Outcome, ok, err}
use cashweb_backends.Bitcoin.Instances.{sum_digest}
use cashweb_backends.Http.{Incoming, authorization_name}
use cashweb_backends.AuthWrapper.{
  ParsedAuthWrapper, ecdsa, parse, digest_of, scheme_from_i32, verify, verify_scheme, verify_ecdsa,
}
use cashweb_backends.AuthWrapper.Instances.{signing}
use cashweb_backends.KeyserverClient.Instances.{lib, service, wire}
use cashweb_backends.KeyserverClient.Services.{
  get_request, Peers, MetadataPackage, SampleError, MetadataError, PeersError, get_peers,
  get_metadata, errors_of, join_all, sample, find_pop_header, token_of, check_wrapper,
}
use cashweb_backends.KeyserverClient.Services.Verified.{IsChecked, get_metadata-ok}
use cashweb_backends.KeyserverClient.Manager.{
  peers_path, keys_path, append_path, new_path_query, append_all, collect_set,
  uniform_random_sampler, oks_of, SampleResponse, AggregateResponse, select, max_from, max_by_key,
  Package, time_key, select_auth_wrapper, uniform_sample_metadata, CrawlError, crawl_peers,
  crawl_loop, crawl_round, start_crawl, aggregate, aggregate_peers, peers_of, parse_peers,
  difference, union,
}
use cashweb_backends.KeyserverClient.Manager.Newest.{uniform_sample_metadata-ok}
use cashweb_backends.KeyserverClient.Manager.Rounds.{one_round, crawl_peers_terminates}

abbrev parsed_of : List ℕ → ParsedAuthWrapper (List ℕ) (List ℕ)
parsed_of payload = record {
  public_key = 1 ∷ [];
  signature = 2 ∷ [];
  scheme = ecdsa;
  payload = payload;
  payload_digest = sum_digest payload;
}

abbrev package_of : ℕ → MetadataPackage (List ℕ) ℕ
package_of time = record {
  token = authorization_name;
  public_key = 1 ∷ [];
  metadata = time;
  raw_auth_wrapper = time ∷ [];
}

get_metadata-ok_example :
    (response : Incoming (Unit {0})) × (parsed : ParsedAuthWrapper (List ℕ) (List ℕ))
    × (service.call (get_request (5 ∷ 6 ∷ [])) ≡ ok response)
    × (response.status ≡ 200)
    × (response.body ≡ ok (package_of 5).raw_auth_wrapper)
    × IsChecked service signing wire (package_of 5).raw_auth_wrapper parsed (package_of 5).metadata
    × ((package_of 5).public_key ≡ parsed.public_key)
    × ((package_of 5).token ≡ authorization_name)
unfolding get_metadata token_of find_pop_header check_wrapper parse digest_of scheme_from_i32 verify
    verify_scheme verify_ecdsa
get_metadata-ok_example = get_metadata-ok service signing wire (5 ∷ 6 ∷ []) (package_of 5) refl

abbrev address : List ℕ
address = 77 ∷ []

abbrev target : ℕ → List ℕ
target n = n ∷ (keys_path ++ address)

abbrev seeds : List (List ℕ)
seeds = (3 ∷ []) ∷ (8 ∷ []) ∷ (4 ∷ []) ∷ []

abbrev answer :
    SampleResponse (List ℕ) (Package lib service signing wire) (MetadataError service signing wire)
answer = record { response = some (target 8, package_of 8); errors = [] }

uniform_sample_metadata-ok_example :
    (targets : List (List ℕ)) × (responses : List
      (List ℕ × (MetadataError service signing wire ⊎ Package lib service signing wire)))
    × (best : List ℕ × Package lib service signing wire) × (append_all lib
          {E = SampleError (List ℕ) (MetadataError service signing wire)}
          (keys_path ++ address)
          seeds
        ≡ ok targets)
    × (join_all {D = SampleError (List ℕ) (MetadataError service signing wire)}
          (get_metadata service signing wire)
          (uniform_random_sampler lib targets 3)
        ≡ ok responses)
    × (answer.response ≡ some best)
    × Memᴰ best (oks_of responses)
    × All
        (λ other. time_key lib service signing wire other ≤ time_key lib service signing wire best)
        (oks_of responses)
    × (answer.errors ≡ errors_of responses)
unfolding uniform_sample_metadata append_all append_path new_path_query uniform_random_sampler
    sample join_all select select_auth_wrapper max_by_key max_from oks_of errors_of get_metadata
    token_of find_pop_header check_wrapper parse digest_of scheme_from_i32 verify verify_scheme
    verify_ecdsa
uniform_sample_metadata-ok_example =
    uniform_sample_metadata-ok lib service signing wire seeds address 3 answer refl

crawl_peers_terminates_example :
    (r : Outcome
      (CrawlError lib service signing wire)
      (AggregateResponse (List ℕ) Peers (PeersError service signing wire)))
    × ((n : ℕ) → crawl_peers lib service signing wire (suc (suc n)) seeds ≡ some r)
    × (collect_set lib seeds ≡ []
        → r ≡ ok (record { response = record { peers = [] }; errors = [] }))
    × ((targets : List (List ℕ))
        → collect_set lib seeds ≢ []
        → append_all lib {E = CrawlError lib service signing wire} peers_path
            (collect_set lib seeds)
          ≡ ok targets
        → ((responses : List (List ℕ × (PeersError service signing wire ⊎ Peers)))
            → sample (get_peers service signing wire) targets ≡ ok responses
            → r
              ≡ ok (
                  one_round lib service signing wire
                    (collect_set lib seeds)
                    (oks_of responses)
                    (errors_of responses)))
          × ((e : CrawlError lib service signing wire)
              → sample (get_peers service signing wire) targets ≡ err e
              → r ≡ err e))
crawl_peers_terminates_example = crawl_peers_terminates lib service signing wire seeds

-- The peer 9 is found and never asked.
crawled :
    crawl_peers lib service signing wire 2 seeds
    ≡ some (
        ok (record {
          response = record {
            peers =
                record { url = 3 ∷ [] }
                ∷ record { url = 8 ∷ [] }
                ∷ record { url = 4 ∷ [] }
                ∷ record { url = 9 ∷ [] }
                ∷ [];
          };
          errors = [];
        }))
unfolding crawl_peers crawl_loop crawl_round start_crawl append_all append_path new_path_query
    sample join_all get_peers oks_of errors_of aggregate aggregate_peers peers_of parse_peers
    collect_set difference union
crawled = refl
