-- ===== src/KeyserverClient/Manager.antt =====
-- lib/cashweb-keyserver-client/src/manager.rs. URIs of the `http` crate and the random choice are
-- parameters. A `HashSet` is a list without duplicates, iterated in its order.
pub mod Newest
pub mod Rounds
use cashweb_backends.Common.{
  ℕ, zero, suc, ◌+◌, ◌%◌, ◌^◌, ◌⊎◌, inl, inr, List, [], ◌∷◌, ◌++◌, Option, none, some, Bool, true,
  false, not, ◌||◌, if◌then◌else◌, length, get_or, take, leb, ◌==◌, ◌-◌, map,
}
use cashweb_backends.Common.Exec.{Outcome, ok, err, panic, and_then, unwrap}
use cashweb_backends.Http.{Service}
use cashweb_backends.AuthWrapper.{Signing, AuthWrapper}
use cashweb_backends.Payments.Wallet.{Equal}
use cashweb_backends.KeyserverClient.Services.{
  Peer, Peers, Wire, MetadataPackage, SampleError, PeersError, MetadataError, PutError, get_peers,
  get_metadata, put_raw_auth_wrapper, errors_of, sample,
}

pub record PathAndQuery : Type 0 where
  pub path : List ℕ
  pub query : Option (List ℕ)

pub record Uris : Type 1 where
  pub Uri : Type 0
  -- All of a URI but its path and query.
  pub Origin : Type 0
  pub origin : Uri → Origin
  pub path_and_query : Uri → Option PathAndQuery
  pub parse_path_and_query : List ℕ → Option PathAndQuery
  pub from_parts : Origin → PathAndQuery → Option Uri
  pub parse : List ℕ → Option Uri
  pub to_string : Uri → List ℕ
  pub equal : Equal Uri
  pub choose_multiple : List Uri → ℕ → List Uri

-- "/peers" and "/keys/"
abbrev pub peers_path : List ℕ
peers_path = 47 ∷ 112 ∷ 101 ∷ 101 ∷ 114 ∷ 115 ∷ []

abbrev pub keys_path : List ℕ
keys_path = 47 ∷ 107 ∷ 101 ∷ 121 ∷ 115 ∷ 47 ∷ []

abbrev pub unwrap_or_default : Option (List ℕ) → List ℕ
unwrap_or_default none = []
unwrap_or_default (some xs) = xs

-- `path.ends_with('/')`
abbrev pub ends_with_slash : List ℕ → Bool
ends_with_slash [] = false
ends_with_slash (x ∷ []) = x == 47
ends_with_slash (x ∷ y ∷ xs) = ends_with_slash (y ∷ xs)

unfoldable pub new_path_query : List ℕ → Option PathAndQuery → List ℕ
new_path_query new_path none = new_path
new_path_query new_path (some p) =
    if ends_with_slash p.path
    then take (length p.path - 1) p.path ++ (new_path ++ unwrap_or_default p.query)
    else p.path ++ (new_path ++ unwrap_or_default p.query)

module _ (lib : Uris) where
  open lib use {
    Uri, origin, path_and_query, parse_path_and_query, from_parts, parse, to_string, equal,
    choose_multiple,
  }

  unfoldable pub append_path : {E : Type 0} → Uri → List ℕ → Outcome E Uri
  append_path uri new_path =
      and_then (unwrap (parse_path_and_query (new_path_query new_path (path_and_query uri))))
        λ p. unwrap (from_parts (origin uri) p)

  -- `.map(|uri| append_path(uri, …)).collect()`
  unfoldable pub append_all : {E : Type 0} → List ℕ → List Uri → Outcome E (List Uri)
  append_all new_path [] = ok []
  append_all new_path (uri ∷ uris) =
      and_then (append_path uri new_path)
        λ uri'. and_then (append_all new_path uris) λ uris'. ok (uri' ∷ uris')

  unfoldable pub uniform_random_sampler : List Uri → ℕ → List Uri
  uniform_random_sampler uris size = choose_multiple uris size

  abbrev pub member : List Uri → Uri → Bool
  member [] uri = false
  member (x ∷ xs) uri = equal.eq x uri || member xs uri

  -- `collect` into a set.
  unfoldable pub collect_set : List Uri → List Uri
  collect_set [] = []
  collect_set (uri ∷ uris) =
      let rest = collect_set uris in if member rest uri then rest else uri ∷ rest

  -- `found.difference(&total)`
  unfoldable pub difference : List Uri → List Uri → List Uri
  difference [] total = []
  difference (uri ∷ found) total =
      let rest = difference found total in if member total uri then rest else uri ∷ rest

  -- `total.union(&found)`
  unfoldable pub union : List Uri → List Uri → List Uri
  union total found = total ++ difference found total

  -- `filter_map(|peer| peer.url.parse::<Uri>().ok())`
  abbrev pub cons_parsed : Option Uri → List Uri → List Uri
  cons_parsed none uris = uris
  cons_parsed (some uri) uris = uri ∷ uris

  unfoldable pub parse_peers : List Peer → List Uri
  parse_peers [] = []
  parse_peers (peer ∷ peers) = cons_parsed (parse peer.url) (parse_peers peers)

  abbrev pub peer_of : Uri → Peer
  peer_of uri = record { url = to_string uri }

abbrev pub cons_ok : {Uri E R : Type 0} → Uri → E ⊎ R → List (Uri × R) → List (Uri × R)
cons_ok uri (inl e) oks = oks
cons_ok uri (inr r) oks = (uri, r) ∷ oks

unfoldable pub oks_of : {Uri E R : Type 0} → List (Uri × (E ⊎ R)) → List (Uri × R)
oks_of [] = []
oks_of (response ∷ responses) = cons_ok response.0 response.1 (oks_of responses)

pub record SampleResponse (Uri R E : Type 0) : Type 0 where
  pub response : Option (Uri × R)
  pub errors : List (Uri × E)

pub record AggregateResponse (Uri R E : Type 0) : Type 0 where
  pub response : R
  pub errors : List (Uri × E)

unfoldable pub select :
    {Uri R E : Type 0}
    → List (Uri × (E ⊎ R))
    → (List (Uri × R) → Option (Uri × R))
    → SampleResponse Uri R E
select responses selector = record {
  response = selector (oks_of responses);
  errors = errors_of responses;
}

unfoldable pub aggregate :
    {Uri R S E : Type 0} → List (Uri × (E ⊎ R)) → (List (Uri × R) → S) → AggregateResponse Uri S E
aggregate responses aggregator = record {
  response = aggregator (oks_of responses);
  errors = errors_of responses;
}

-- The order of `i64` on bit patterns.
abbrev pub i64_key : ℕ → ℕ
i64_key n = (n + 2 ^ 63) % 2 ^ 64

module _ {A : Type 0} (key : A → ℕ) where
  -- `max_by_key`, which takes the last of several greatest.
  unfoldable pub max_from : A → List A → A
  max_from best [] = best
  max_from best (x ∷ xs) = max_from (if leb (key best) (key x) then x else best) xs

  unfoldable pub max_by_key : List A → Option A
  max_by_key [] = none
  max_by_key (x ∷ xs) = some (max_from x xs)

unfoldable pub peers_of : {Uri : Type 0} → List (Uri × Peers) → List Peer
peers_of [] = []
peers_of (answer ∷ answers) = answer.1.peers ++ peers_of answers

unfoldable pub aggregate_peers : {Uri : Type 0} → List (Uri × Peers) → Peers
aggregate_peers answers = record { peers = peers_of answers }

module _ (lib : Uris) (service : Service lib.Uri) (signing : Signing) (wire : Wire) where
  open lib use {Uri}
  open signing use {PublicKey}
  open wire use {AddressMetadata, timestamp, encode_wrapper}

  abbrev pub Package : Type 0
  Package = MetadataPackage PublicKey AddressMetadata

  abbrev pub time_key : Uri × Package → ℕ
  time_key answer = i64_key (timestamp answer.1.metadata)

  unfoldable pub select_auth_wrapper : List (Uri × Package) → Option (Uri × Package)
  select_auth_wrapper metadatas = max_by_key time_key metadatas

  unfoldable pub uniform_sample_metadata :
      List Uri
      → List ℕ
      → ℕ
      → Outcome
          (SampleError Uri (MetadataError service signing wire))
          (SampleResponse Uri Package (MetadataError service signing wire))
  uniform_sample_metadata uris address sample_size =
      and_then (append_all lib (keys_path ++ address) uris) λ targets.
        and_then
          (sample (get_metadata service signing wire)
            (uniform_random_sampler lib targets sample_size))
          λ responses. ok (select responses select_auth_wrapper)

  unfoldable pub collect_peers :
      List Uri
      → Outcome
          (SampleError Uri (PeersError service signing wire))
          (AggregateResponse Uri Peers (PeersError service signing wire))
  collect_peers uris = and_then (append_all lib peers_path uris) λ targets.
      and_then (sample (get_peers service signing wire) targets)
        λ responses. ok (aggregate responses aggregate_peers)

  abbrev pub CrawlError : Type 0
  CrawlError = SampleError Uri (PeersError service signing wire)

  -- The URIs to ask next, all that are known, and the errors so far.
  pub record Crawl : Type 0 where
    pub found_uris : List Uri
    pub total : List Uri
    pub total_errors : List (Uri × PeersError service signing wire)

  -- The set that the loop tests is drained and stays empty: the new URIs go to another one, declared
  -- inside the loop.
  unfoldable pub crawl_round : Crawl → Outcome CrawlError Crawl
  crawl_round crawl = and_then (append_all lib peers_path crawl.found_uris) λ targets.
      and_then (sample (get_peers service signing wire) targets) λ responses.
        let answer = aggregate responses aggregate_peers in
        let found = collect_set lib (parse_peers lib answer.response.peers) in
        let new = difference lib found crawl.total in
        ok (record {
          found_uris = [];
          total = union lib crawl.total new;
          total_errors = crawl.total_errors ++ answer.errors;
        })

  abbrev pub next_round :
      (Crawl → Option (Outcome CrawlError Crawl))
      → Outcome CrawlError Crawl
      → Option (Outcome CrawlError Crawl)
  next_round again (ok crawl) = again crawl
  next_round again (err e) = some (err e)
  next_round again panic = some panic

  abbrev pub is_empty : List Uri → Bool
  is_empty [] = true
  is_empty (uri ∷ uris) = false

  -- `while !found_uris.is_empty()`; `none` when the fuel is used up.
  unfoldable pub crawl_loop : ℕ → Crawl → Option (Outcome CrawlError Crawl)
  crawl_loop zero crawl = none
  crawl_loop (suc n) crawl =
      let rest = next_round (crawl_loop n) (crawl_round crawl) in
      if is_empty crawl.found_uris then some (ok crawl) else rest

  unfoldable pub start_crawl : List Uri → Crawl
  start_crawl uris = record {
    found_uris = collect_set lib uris;
    total = collect_set lib uris;
    total_errors = [];
  }

  abbrev pub finish :
      Outcome CrawlError Crawl
      → Outcome CrawlError (AggregateResponse Uri Peers (PeersError service signing wire))
  finish r = and_then r λ crawl. ok (record {
    response = record { peers = map (peer_of lib) crawl.total };
    errors = crawl.total_errors;
  })

  abbrev pub finished :
      Option (Outcome CrawlError Crawl)
      → Option (Outcome CrawlError (AggregateResponse Uri Peers (PeersError service signing wire)))
  finished none = none
  finished (some r) = some (finish r)

  unfoldable pub crawl_peers :
      ℕ
      → List Uri
      → Option (Outcome CrawlError (AggregateResponse Uri Peers (PeersError service signing wire)))
  crawl_peers fuel uris = finished (crawl_loop fuel (start_crawl uris))

  abbrev pub no_response : List (Uri × Unit {0}) → Unit {0}
  no_response answers = tt

  unfoldable pub uniform_broadcast_raw_metadata :
      List Uri
      → List ℕ
      → List ℕ
      → List ℕ
      → ℕ
      → Outcome
          (SampleError Uri (PutError service signing wire))
          (AggregateResponse Uri (Unit {0}) (PutError service signing wire))
  uniform_broadcast_raw_metadata read_uris address raw_auth_wrapper token sample_size =
      and_then
        (append_all lib (keys_path ++ address) (uniform_random_sampler lib read_uris sample_size))
        λ uris.
          and_then (sample (put_raw_auth_wrapper service signing wire token raw_auth_wrapper) uris)
            λ responses. ok (aggregate responses no_response)

  unfoldable pub uniform_broadcast_metadata :
      List Uri
      → List ℕ
      → AuthWrapper
      → List ℕ
      → ℕ
      → Outcome
          (SampleError Uri (PutError service signing wire))
          (AggregateResponse Uri (Unit {0}) (PutError service signing wire))
  uniform_broadcast_metadata read_uris address auth_wrapper token sample_size =
      and_then
        (append_all lib (keys_path ++ address) (uniform_random_sampler lib read_uris sample_size))
        λ uris.
          and_then
            (sample (put_raw_auth_wrapper service signing wire token (encode_wrapper auth_wrapper))
              uris)
            λ responses. ok (aggregate responses no_response)
