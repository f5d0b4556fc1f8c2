-- ===== src/KeyServer/PubSubTests.antt =====
-- The theorem on messages at a concrete message with one burn.
use cashweb_backends.Common.{
  ℕ, ◌≡◌, refl, List, [], ◌∷◌, ◌++◌, false, ◌&&◌, ltb, replicate, All, sum, map, ◌%◌, ◌^◌,
}
use cashweb_backends.Common.Exec.{Outcome, ok, ◌>>=◌, mapping_err}
use cashweb_backends.Bitcoin.Buf.{put_uint, put_bytes, get_uint, get_slice, require}
use cashweb_backends.Bitcoin.Buf.Slice.{Slice, slice_buf, room_buf}
use cashweb_backends.Bitcoin.Instances.{sum_digest, room_vec}
use cashweb_backends.Bitcoin.VarInt as VarInt
use cashweb_backends.Bitcoin.Transaction as Transaction
use cashweb_backends.Bitcoin.Transaction.{Transaction, collect_times}
use cashweb_backends.Bitcoin.Transaction.Input as Input
use cashweb_backends.Bitcoin.Transaction.Output as TxOutput
use cashweb_backends.Bitcoin.Transaction.Script as Script
use cashweb_backends.Bitcoin.Transaction.Script.{is_op_return, is_empty}
use cashweb_backends.Bitcoin.Buf.ByteVec.{write_to_vec}
use cashweb_backends.Bitcoin.Merkle.{
  lotus_merkle_root, lotus_merkle_root_inline, pair_loop, pair_hash, sha256d,
}
use cashweb_backends.Bitcoin.Transaction.SignatureHash.{transaction_id, leaves}
use cashweb_backends.Bitcoin.Transaction.Slices.{Slices}
use cashweb_backends.BitcoinClient.{BitcoinClient}
use cashweb_backends.Http.{with_body}
use cashweb_backends.AuthWrapper.{AuthWrapper}
use cashweb_backends.Relay.Instances.{to_bytes, to_bytes-IsBytes}
use cashweb_backends.RelayServer.Database.Digests.{UnlessFails}
use cashweb_backends.RelayServer.Instances.{Memory, memory, memory_laws}
use cashweb_backends.KeyServer.Instances.{encode, decode, decode-encode}
use cashweb_backends.KeyServer.PubSub.{
  rocks_db, Text, Families, split_topic, join_topic, valid_topic, topical_key, put_payload,
  put_index, put_indices, check_topic, put_message, get_message,
}
use cashweb_backends.KeyServer.PubSub.Handlers as Handlers
use cashweb_backends.KeyServer.PubSub.Handlers.{
  Burn, Burns, insert, is_burn_script, map_key, check_output, add_burn, add_burns, send_burns,
  no_burns, with_digest, accept, put_new, put_accepted, put_digested, handle_put,
}
use cashweb_backends.KeyServer.PubSub.Burns.{IsSent}
use cashweb_backends.KeyServer.PubSub.Counted.{IsCounted}
use cashweb_backends.KeyServer.PubSub.Stored.{handle_put-ok}

abbrev slices : Slices
slices = record {
  Slice = Slice;
  slice_buf = slice_buf;
  as_slice = λ xs. record { contents = to_bytes xs; valid = to_bytes-IsBytes xs };
}

abbrev client : BitcoinClient
client = record {
  RpcError = Unit {0};
  JsonError = Unit {0};
  FromHexError = Unit {0};
  send_tx = λ raw. ok (1 ∷ []);
  get_new_addr = ok [];
  get_raw_transaction = λ id. ok id;
}

abbrev text : Text
text = record {
  DecodeError = Unit {0};
  encode = encode;
  decode = decode;
  sha256 = sum_digest;
  is_lowercase = λ c. ltb 96 c && ltb c 123;
  is_numeric = λ c. ltb 47 c && ltb c 58;
  as_bytes = λ topic. topic;
}

-- The topic "a.b" of every payload.
abbrev decode_topic : List ℕ → Outcome (Unit {0}) (List ℕ)
decode_topic payload = ok (97 ∷ 46 ∷ 98 ∷ [])

-- Version 1, no input, one output of 9 that votes for a payload of two bytes, lock time 0.
abbrev raw_tx : List ℕ
raw_tx =
    (1 ∷ 0 ∷ 0 ∷ 0 ∷ 0 ∷ 1 ∷ 9 ∷ 0 ∷ 0 ∷ 0 ∷ 0 ∷ 0 ∷ 0 ∷ 0 ∷ 40 ∷ [])
    ++ ((106 ∷ 4 ∷ 80 ∷ 79 ∷ 78 ∷ 68 ∷ 81 ∷ 32 ∷ []) ++ (replicate 32 2 ++ (0 ∷ 0 ∷ 0 ∷ 0 ∷ [])))

abbrev message : AuthWrapper
message = record {
  public_key = 1 ∷ [];
  signature = 2 ∷ [];
  scheme = 1;
  payload = 3 ∷ 4 ∷ [];
  payload_digest = [];
  burn_amount = 0;
  transactions = record { tx = raw_tx; index = 0 } ∷ [];
}

abbrev empty : Families Memory
empty = record { messages = []; payloads = [] }

abbrev after : Families Memory
after = (handle_put slices client text memory decode_topic room_vec 100 message empty).1

handle_put-ok_example :
    let m = with_digest slices client text memory decode_topic room_vec message in
    (burns : Burns) × (no_burns slices client text memory decode_topic room_vec message.transactions
      ≡ false)
    × (add_burns slices client text memory decode_topic room_vec m.payload_digest m.transactions []
        ≡ ok burns)
    × IsCounted slices client text memory decode_topic room_vec m.payload_digest m.transactions
        burns
    × All (IsSent slices client text memory decode_topic room_vec) m.transactions
    × (is_empty m.payload ≡ false
        → UnlessFails rocks_db (get_message text memory m.payload_digest after) (record m {
          burn_amount = sum (map (λ (entry : List ℕ × Burn). entry.1.amount) burns) % 2 ^ 64;
        }))
unfolding handle_put put_digested put_accepted accept put_new with_digest add_burns add_burn
    check_output map_key insert send_burns is_burn_script is_op_return Handlers.check_topic
    valid_topic split_topic join_topic topical_key put_message check_topic put_payload put_index
    put_indices get_message Transaction.decode collect_times Input.decode TxOutput.decode
    VarInt.decode VarInt.match_first transaction_id leaves lotus_merkle_root
    lotus_merkle_root_inline pair_loop pair_hash sha256d write_to_vec put_uint
    Transaction.encode_raw TxOutput.encode_raw VarInt.encode_raw Script.len_varint Script.encode_raw
    put_bytes get_uint get_slice require mapping_err ◌>>=◌
handle_put-ok_example =
    handle_put-ok slices client text memory decode_topic room_vec memory_laws decode-encode 100
      message empty after (with_body 200 []) refl
