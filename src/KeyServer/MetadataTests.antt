-- ===== src/KeyServer/MetadataTests.antt =====
-- The theorem on PUTs of metadata at a concrete wrapper and token.
use cashweb_backends.Common.{
  ℕ, ◌≡◌, ◌≢◌, refl, List, [], ◌∷◌, ◌++◌, Option, some, replicate, length, take, drop, take-append,
  drop-append, arith,
}
use cashweb_backends.Common.Exec.{Outcome, ok, err, ◌>>=◌, mapping_err}
use cashweb_backends.Bitcoin.Buf.{get_uint, get_slice, require}
use cashweb_backends.Bitcoin.Buf.Slice.{Slice, slice_buf}
use cashweb_backends.Bitcoin.Instances.{sum_digest}
use cashweb_backends.Bitcoin.VarInt as VarInt
use cashweb_backends.Bitcoin.Transaction as Transaction
use cashweb_backends.Bitcoin.Transaction.{collect_times}
use cashweb_backends.Bitcoin.Transaction.Input as Input
use cashweb_backends.Bitcoin.Transaction.Output as TxOutput
use cashweb_backends.Bitcoin.Transaction.Script.{is_op_return}
use cashweb_backends.Http.{with_body}
use cashweb_backends.AuthWrapper.{
  AuthWrapper, ParsedAuthWrapper, digest_of, scheme_from_i32, parse, verify, verify_scheme,
  verify_ecdsa,
}
use cashweb_backends.AuthWrapper.Instances.{signing}
use cashweb_backends.Relay.Instances.{to_bytes, to_bytes-IsBytes}
use cashweb_backends.Token.{pop_prefix, split_pop_token, extract_pop_header, extract_pop}
use cashweb_backends.Token.Instances.{plain, plain_laws}
use cashweb_backends.Token.ChainCommitment.{
  Chain, construct_commitment, check_script, check_length, validate_token,
}
use cashweb_backends.RelayServer.Database.Digests.{UnlessError}
use cashweb_backends.RelayServer.Instances.{Memory, memory, memory_laws}
use mathlib.Core.List.{Memᴰ}
use cashweb_backends.KeyserverClient.Instances.{lib, service, wire}
use cashweb_backends.KeyserverClient.Services.{join_all, sample, put_raw_auth_wrapper, errors_of}
use cashweb_backends.KeyserverClient.Manager.{
  append_all, append_path, new_path_query, uniform_random_sampler, uniform_broadcast_raw_metadata,
  aggregate, oks_of,
}
use cashweb_backends.KeyServer.TokenCache.{add_token, broadcast_block, cycled, run}
use cashweb_backends.KeyServer.Peering.{Call, run_call, send_all}
use cashweb_backends.KeyServer.Peering.Sent.{put_metadata-send_all}
use cashweb_backends.KeyServer.Database as Database
use cashweb_backends.KeyServer.Database.{DatabaseWrapper, Stored, IsStored, metadata_key}
use cashweb_backends.KeyServer.Metadata.{
  Server, PutError, pop_protection, check, store, cache_token, put_metadata,
}
use cashweb_backends.KeyServer.Metadata.Committed.{IsCommitted, put_metadata-IsCommitted}

-- Version 1, no input, one output of 0 that commits to 32 bytes of 64, lock time 0.
abbrev raw_tx : List ℕ
raw_tx =
    (1 ∷ 0 ∷ 0 ∷ 0 ∷ 0 ∷ 1 ∷ 0 ∷ 0 ∷ 0 ∷ 0 ∷ 0 ∷ 0 ∷ 0 ∷ 0 ∷ 34 ∷ 106 ∷ 32 ∷ [])
    ++ (replicate 32 64 ++ (0 ∷ 0 ∷ 0 ∷ 0 ∷ []))

abbrev chain : Chain
chain = record {
  NodeError = Unit {0};
  get_raw_transaction = λ tx_id. ok raw_tx;
  sha256 = sum_digest;
  Slice = Slice;
  slice_buf = slice_buf;
  as_slice = λ xs. record { contents = to_bytes xs; valid = to_bytes-IsBytes xs };
}

abbrev decode_stored : List ℕ → Outcome (Unit {0}) DatabaseWrapper
decode_stored [] = err tt
decode_stored (n ∷ xs) = ok (record { serialized_auth_wrapper = drop n xs; token = take n xs })

abbrev stored : Stored
stored = record {
  DecodeError = Unit {0};
  encode_wrapper = λ (w : DatabaseWrapper). length w.token ∷ (w.token ++ w.serialized_auth_wrapper);
  decode_wrapper = decode_stored;
  encode_peers = λ peers. [];
  decode_peers = λ raw. err tt;
}

stored_laws : IsStored stored
stored_laws = record {
  decode-encode = λ (w : DatabaseWrapper).
      rw
        (
          take-append w.token w.serialized_auth_wrapper,
          drop-append w.token w.serialized_auth_wrapper,
        )
        refl;
}

abbrev wrapper : AuthWrapper
wrapper = record {
  public_key = 1 ∷ [];
  signature = 2 ∷ [];
  scheme = 1;
  payload = 3 ∷ 4 ∷ [];
  payload_digest = replicate 32 2;
  burn_amount = 0;
  transactions = [];
}

abbrev decode_wrapper : List ℕ → Outcome (Unit {0}) AuthWrapper
decode_wrapper raw = ok wrapper

abbrev to_str : List ℕ → Option (List ℕ)
to_str value = some value

abbrev address : List ℕ
address = replicate 20 7

abbrev raw_token : List ℕ
raw_token = replicate 36 0

abbrev body : List ℕ
body = 9 ∷ 9 ∷ []

abbrev empty : Server Memory
empty = record { database = []; cache = [] ∷ [] ∷ [] }

abbrev after : Server Memory
after = record {
  database = (metadata_key address, 36 ∷ (raw_token ++ body)) ∷ [];
  cache = (address ∷ []) ∷ [] ∷ [];
}

put_metadata-IsCommitted_example :
    (decode_wrapper body ≡ ok wrapper)
    × IsCommitted signing plain chain to_str decode_wrapper raw_token
        (sum_digest wrapper.public_key)
        (sum_digest wrapper.payload)
    × ((parsed : ParsedAuthWrapper (List ℕ) (List ℕ)) × (parse signing wrapper ≡ ok parsed)
        × (verify signing parsed ≡ ok tt))
    × UnlessError
        (Database.get_metadata stored memory address after.database)
        (some (record { serialized_auth_wrapper = body; token = raw_token }))
    × ((key : List ℕ)
        → key ≢ metadata_key address
        → memory_laws.contents after.database key ≡ memory_laws.contents empty.database key)
    × (add_token {E = PutError signing stored memory} address empty.cache ≡ ok after.cache)
unfolding pop_protection extract_pop extract_pop_header split_pop_token validate_token check_length
    check_script construct_commitment is_op_return Transaction.decode collect_times Input.decode
    TxOutput.decode VarInt.decode VarInt.match_first get_uint get_slice require mapping_err ◌>>=◌
    put_metadata check store cache_token add_token Database.put_metadata parse digest_of
    scheme_from_i32 verify verify_scheme verify_ecdsa
put_metadata-IsCommitted_example =
    put_metadata-IsCommitted signing plain chain to_str decode_wrapper stored memory memory_laws
      stored_laws address body ((pop_prefix ++ raw_token) ∷ []) (wrapper, raw_token) empty after
      (with_body 200 []) (λ xs. refl) refl refl

abbrev seeds : List (List ℕ)
seeds = (3 ∷ []) ∷ (8 ∷ []) ∷ []

abbrev encode_address : List ℕ → Outcome (Unit {0}) (List ℕ)
encode_address body = ok (99 ∷ body)

abbrev sent_call : Call
sent_call = record {
  addr_str = 99 ∷ address;
  raw_auth_wrapper = body;
  token = pop_prefix ++ raw_token;
}

-- Two blocks, and the second broadcast sends the wrapper to two peers.
put_metadata-send_all_example :
    Memᴰ sent_call (sent_call ∷ [])
    × (validate_token plain chain
          (sum_digest wrapper.public_key)
          (sum_digest wrapper.payload)
          raw_token
        ≡ ok raw_token)
unfolding pop_protection extract_pop extract_pop_header split_pop_token validate_token check_length
    check_script construct_commitment is_op_return Transaction.decode collect_times Input.decode
    TxOutput.decode VarInt.decode VarInt.match_first get_uint get_slice require mapping_err ◌>>=◌
    put_metadata check store cache_token add_token Database.put_metadata Database.get_metadata
    Database.get_raw_metadata parse digest_of scheme_from_i32 verify verify_scheme verify_ecdsa run
    broadcast_block send_all run_call uniform_broadcast_raw_metadata append_all append_path
    new_path_query uniform_random_sampler sample join_all put_raw_auth_wrapper aggregate oks_of
    errors_of
put_metadata-send_all_example =
    put_metadata-send_all signing plain chain to_str decode_wrapper lib service wire stored memory
      encode_address 2 memory_laws stored_laws address body (99 ∷ address)
      ((pop_prefix ++ raw_token) ∷ []) (wrapper, raw_token) empty after (with_body 200 [])
      (cycled ∷ cycled ∷ []) ([] ∷ (address ∷ []) ∷ []) ([] ∷ [] ∷ []) 1 seeds after.database
      (address ∷ []) (sent_call ∷ []) plain_laws (λ xs. refl) refl refl refl (omega arith) refl refl
      refl refl refl
