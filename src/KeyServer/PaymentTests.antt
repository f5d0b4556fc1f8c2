-- ===== src/KeyServer/PaymentTests.antt =====
-- The theorem on payments to a key server at a concrete payment of one transaction.
use mathlib.Core.List.{Memᴰ}
use mathlib.Core.List.Memᴰ.{head, tail}
use cashweb_backends.Common.{
  ℕ, ◌≡◌, ◌<◌, ◌^◌, refl, sym, ap, List, [], ◌∷◌, ◌++◌, some, none, replicate, length, take, drop,
  bytes_eq, bytes_eq→eq, if◌then◌else◌, subst, arith,
}
use cashweb_backends.Common.Exec.{Outcome, ok, err, ◌>>=◌, mapping_err}
use cashweb_backends.Common.Exec.Rules.{if-ok-eq-ok, value-eq-ok}
use cashweb_backends.Http.{Response, authorization_name, location_name}
use cashweb_backends.Bitcoin.Buf.{get_uint, get_slice, require, put_uint, put_bytes}
use cashweb_backends.Bitcoin.Buf.Slice.{Slice, slice_buf, room_buf}
use cashweb_backends.Bitcoin.Buf.ByteVec.{write_to_vec}
use cashweb_backends.Bitcoin.Instances.{sum_digest, room_vec}
use cashweb_backends.Bitcoin.Merkle.{
  lotus_merkle_root, lotus_merkle_root_inline, pair_loop, pair_hash, sha256d,
}
use cashweb_backends.Bitcoin.VarInt as VarInt
use cashweb_backends.Bitcoin.Transaction as Transaction
use cashweb_backends.Bitcoin.Transaction.{Transaction, collect_times}
use cashweb_backends.Bitcoin.Transaction.Input as Input
use cashweb_backends.Bitcoin.Transaction.Output as TxOutput
use cashweb_backends.Bitcoin.Transaction.Script as Script
use cashweb_backends.Bitcoin.Transaction.SignatureHash.{transaction_id, transaction_id_rev, leaves}
use cashweb_backends.BitcoinClient.{BitcoinClient, rpc}
use cashweb_backends.KeyserverClient.Manager.{keys_path}
use cashweb_backends.Payments.Bip70.{
  Payment, Encoders, PaymentAck, PaymentDetails, PaymentRequest, Settings,
}
use cashweb_backends.Relay.Instances.{to_bytes, to_bytes-IsBytes}
use cashweb_backends.Token.{pop_prefix}
use cashweb_backends.Token.Instances.{plain, plain_laws}
use cashweb_backends.Token.ChainCommitment.{
  Chain, construct_commitment, construct_token, construct_token_raw, decode_slice, validate_token,
}
use cashweb_backends.KeyServer.Payments.{
  is_commitment, find_output, find_commitment, decode_tx, decode_txs, send_txs, check_preimage,
  token_for, payment_response, process_payment,
}
use cashweb_backends.KeyServer.Payments.Tokens.{IsNode, process_payment-validate_token}

-- Version 1, no input, one output of 0 that commits to 32 bytes of 64, lock time 0.
abbrev raw_tx : List ℕ
raw_tx =
    (1 ∷ 0 ∷ 0 ∷ 0 ∷ 0 ∷ 1 ∷ 0 ∷ 0 ∷ 0 ∷ 0 ∷ 0 ∷ 0 ∷ 0 ∷ 0 ∷ 34 ∷ 106 ∷ 32 ∷ [])
    ++ (replicate 32 64 ++ (0 ∷ 0 ∷ 0 ∷ 0 ∷ []))

abbrev chain : Chain
chain = record {
  NodeError = Unit {0};
  get_raw_transaction = λ tx_id. ok raw_tx;
  sha256 = sum_digest;
  Slice = Slice;
  slice_buf = slice_buf;
  as_slice = λ xs. record { contents = to_bytes xs; valid = to_bytes-IsBytes xs };
}

-- A node that accepts this transaction.
abbrev client : BitcoinClient
client = record {
  RpcError = Unit {0};
  JsonError = Unit {0};
  FromHexError = Unit {0};
  send_tx = λ raw. if bytes_eq raw raw_tx then ok [] else err (rpc tt);
  get_new_addr = ok [];
  get_raw_transaction = λ tx_id. ok raw_tx;
}

is_node : IsNode client plain chain room_vec
is_node = record {
  get_sent = λ raw reply tx_id tx s d i.
      ap ok (sym (bytes_eq→eq raw raw_tx (if-ok-eq-ok (bytes_eq raw raw_tx) (rpc tt) (ok []) s).0));
}

abbrev encoders : Encoders
encoders = record {
  encode_ack = λ (ack : PaymentAck). 1 ∷ [];
  encode_details = λ (details : PaymentDetails). 2 ∷ [];
  encode_request = λ (request : PaymentRequest). 3 ∷ [];
}

abbrev settings : Settings
settings = record { memo = []; network = []; token_fee = 5; timeout = 1000 }

abbrev encode_address : List ℕ → Outcome (Unit {0}) (List ℕ)
encode_address body = ok body

abbrev preimage : List ℕ
preimage = replicate 32 7 ++ replicate 32 8

abbrev payment : Payment
payment = record {
  merchant_data = some preimage;
  transactions = raw_tx ∷ [];
  refund_to = [];
  memo = none;
}

abbrev response : Response
response = record {
  status = 200;
  headers =
      (location_name, keys_path ++ replicate 32 7)
      ∷ (authorization_name, pop_prefix ++ (replicate 32 32 ++ replicate 4 0))
      ∷ [];
  body = 1 ∷ [];
}

fits :
    (raw : List ℕ) (tx : Transaction)
    → Memᴰ raw (raw_tx ∷ [])
    → decode_slice plain chain raw ≡ ok tx
    → length tx.outputs < 2 ^ 32
unfolding Transaction.decode collect_times Input.decode TxOutput.decode VarInt.decode
    VarInt.match_first get_uint get_slice require mapping_err ◌>>=◌
fits raw tx m d = elim m [
  | head e ↦
      let d' : decode_slice plain chain raw_tx ≡ ok tx =
        subst (λ x. decode_slice plain chain x ≡ ok tx) e d in
      let one : 1 ≡ length tx.outputs =
        ap (λ (t : Transaction). length t.outputs)
          (value-eq-ok (decode_slice plain chain raw_tx) d') in
      omega (arith, one)
  | tail later ↦ elim later [ ]
]

process_payment-validate_token_example :
    (given addr_str token raw : List ℕ) × (some preimage ≡ some given)
    × (length given ≡ 64)
    × (encode_address (take 32 given) ≡ ok addr_str)
    × (response.headers
        ≡ (location_name, keys_path ++ addr_str) ∷ (authorization_name, pop_prefix ++ token) ∷ [])
    × (validate_token plain chain (take 32 given) (drop 32 given) token ≡ ok raw)
unfolding process_payment decode_txs decode_tx check_preimage find_commitment find_output
    is_commitment send_txs payment_response token_for construct_token construct_token_raw
    construct_commitment Transaction.decode collect_times Input.decode TxOutput.decode VarInt.decode
    VarInt.match_first transaction_id transaction_id_rev leaves lotus_merkle_root
    lotus_merkle_root_inline pair_loop pair_hash sha256d write_to_vec put_uint
    Transaction.encode_raw TxOutput.encode_raw VarInt.encode_raw Script.len_varint Script.encode_raw
    put_bytes get_uint get_slice require mapping_err ◌>>=◌
process_payment-validate_token_example =
    process_payment-validate_token client plain chain encoders settings encode_address room_vec
      {D = Unit {0}} payment response plain_laws (λ xs. refl) is_node fits refl
