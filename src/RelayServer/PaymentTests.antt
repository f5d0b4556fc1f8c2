-- ===== src/RelayServer/PaymentTests.antt =====
-- The theorems on payments at a concrete payment of one output.
use cashweb_backends.Common.{
  ℕ, ◌≡◌, refl, List, [], ◌∷◌, ◌++◌, Option, some, none, true, replicate, bytes_eq, bytes_eq→eq,
  bytes_eq_refl, if◌then◌else◌,
}
use cashweb_backends.Common.Exec.{Outcome, ok, err, ◌>>=◌, mapping_err}
use cashweb_backends.Common.Exec.Rules.{if-ok-eq-ok}
use cashweb_backends.Bitcoin.Buf.{get_uint, get_slice, require}
use cashweb_backends.Bitcoin.Buf.Slice.{Slice, slice_buf}
use cashweb_backends.Bitcoin.VarInt as VarInt
use cashweb_backends.Bitcoin.Transaction as Transaction
use cashweb_backends.Bitcoin.Transaction.{Transaction, collect_times}
use cashweb_backends.Bitcoin.Transaction.Input as Input
use cashweb_backends.Bitcoin.Transaction.Output as TxOutput
use cashweb_backends.Bitcoin.Transaction.Slices.{Slices, decode_txs}
use cashweb_backends.BitcoinClient.{BitcoinClient}
use cashweb_backends.Http.{Response, authorization_name}
use cashweb_backends.Payments.Bip70.{
  Output, Payment, Encoders, PaymentAck, PaymentDetails, PaymentRequest, Settings, output_equal,
  key_equal,
}
use cashweb_backends.Payments.Wallet.{
  unexpected_outputs, lookup, remove, all_contained, recv_outputs, receive_expected,
}
use cashweb_backends.Relay.Instances.{to_bytes, to_bytes-IsBytes}
use cashweb_backends.Token.HmacBearer.{Base64, IsBase64, Hmac, IsHmac, construct_token}
use cashweb_backends.RelayServer.Payments.{
  wallet_error, node, Crates, Wallet, outputs_of, Node, send_txs, token_for, payment_response,
  send_payment, receive_payment, read_payment, process_payment, request_response, new_output,
  fee_output, add_invoice, generate_payment_request, pop_protection,
}
use cashweb_backends.RelayServer.Payments.Tokens.{
  IsAscii, process_payment-ok, process_payment-generate,
}

abbrev slices : Slices
slices = record {
  Slice = Slice;
  slice_buf = slice_buf;
  as_slice = λ xs. record { contents = to_bytes xs; valid = to_bytes-IsBytes xs };
}

abbrev client : BitcoinClient
client = record {
  RpcError = Unit {0};
  JsonError = Unit {0};
  FromHexError = Unit {0};
  send_tx = λ raw. ok raw;
  get_new_addr = ok (9 ∷ 9 ∷ []);
  get_raw_transaction = λ id. ok id;
}

abbrev encoders : Encoders
encoders = record {
  encode_ack = λ (ack : PaymentAck). 1 ∷ [];
  encode_details = λ (details : PaymentDetails). 2 ∷ [];
  encode_request = λ (request : PaymentRequest). 3 ∷ [];
}

abbrev settings : Settings
settings = record { memo = []; network = []; token_fee = 5; timeout = 1000 }

abbrev crates : Crates
crates = record {
  AddressError = Unit {0};
  HeaderValue = List ℕ;
  decode_address = λ text. ok text;
  to_str = λ value. some value;
  validation_text = [];
  request_text = [];
}

abbrev unmark : List ℕ → Outcome (Unit {0}) (List ℕ)
unmark [] = err tt
unmark (x ∷ xs) = ok xs

-- The letter A before the bytes.
abbrev marked : Base64
marked = record { Base64Error = Unit {0}; encode = λ xs. 65 ∷ xs; decode = unmark }

abbrev marked_laws : IsBase64 marked
marked_laws = record { decode-encode = λ xs. refl }

abbrev tag : List ℕ → List ℕ → List ℕ
tag key xs = 1 ∷ (key ++ xs)

abbrev marked_mac : Hmac
marked_mac = record {
  Key = List ℕ;
  VerifyFailed = Unit {0};
  new_key = λ key. key;
  sign = tag;
  verify = λ key xs t. if bytes_eq t (tag key xs) then ok tt else err tt;
}

marked_mac-laws : IsHmac marked_mac
marked_mac-laws = record {
  verify_iff = λ key xs t. (
    λ h. bytes_eq→eq t (tag key xs) (if-ok-eq-ok (bytes_eq t (tag key xs)) tt (ok tt) h).0,
    λ e. rw (e, bytes_eq_refl (tag key xs)) refl,
  );
}

ascii : IsAscii marked marked_mac
ascii = record {
  sign_lem = λ key xs. (1, key ++ xs, refl);
  encode_lem = λ b bs. (65, b ∷ bs, refl, refl);
}

abbrev fee : Output
fee = record { amount = some 5; script = 118 ∷ 169 ∷ 20 ∷ 9 ∷ 9 ∷ 136 ∷ 172 ∷ [] }

-- Version 1, no input, one output of 5 with the script of the fee, lock time 0.
abbrev raw_tx : List ℕ
raw_tx =
    (1 ∷ 0 ∷ 0 ∷ 0 ∷ 0 ∷ 1 ∷ 5 ∷ 0 ∷ 0 ∷ 0 ∷ 0 ∷ 0 ∷ 0 ∷ 0 ∷ 7 ∷ [])
    ++ (118 ∷ 169 ∷ 20 ∷ 9 ∷ 9 ∷ 136 ∷ 172 ∷ 0 ∷ 0 ∷ 0 ∷ 0 ∷ [])

abbrev tx : Transaction
tx = record {
  version = 1;
  inputs = [];
  outputs = record { value = 5; script = record { raw = fee.script } } ∷ [];
  lock_time = 0;
}

decoded : decode_txs slices (raw_tx ∷ []) ≡ ok (tx ∷ [])
unfolding decode_txs Transaction.decode collect_times Input.decode TxOutput.decode VarInt.decode
    VarInt.match_first get_uint get_slice require mapping_err ◌>>=◌
decoded = refl

abbrev address : List ℕ
address = replicate 20 7

abbrev payment : Payment
payment = record {
  merchant_data = some address;
  transactions = raw_tx ∷ [];
  refund_to = [];
  memo = none;
}

abbrev pending : Wallet
pending = (address, fee ∷ []) ∷ []

abbrev acknowledged : Response
acknowledged = record {
  status = 200;
  headers = (authorization_name, 80 ∷ 79 ∷ 80 ∷ 32 ∷ 65 ∷ 1 ∷ 3 ∷ address) ∷ [];
  body = 1 ∷ [];
}

process_payment-ok_example :
    (txs : List Transaction) × (addr : List ℕ) × (expected : List Output) × (decode_txs slices
        payment.transactions
      ≡ ok txs)
    × (payment.merchant_data ≡ some addr)
    × (lookup key_equal output_equal addr pending ≡ some expected)
    × (all_contained key_equal output_equal (outputs_of txs) expected ≡ true)
    × (send_txs slices client marked marked_mac encoders settings crates payment.transactions
        ≡ ok tt)
    × ([] ≡ remove key_equal output_equal addr pending)
    × (acknowledged.headers
        ≡ (
          authorization_name,
          token_for slices client marked marked_mac encoders settings crates (3 ∷ []) addr,
        )
          ∷ [])
unfolding process_payment receive_payment send_payment read_payment payment_response token_for
    construct_token send_txs recv_outputs receive_expected outputs_of decode_txs Transaction.decode
    collect_times Input.decode TxOutput.decode VarInt.decode VarInt.match_first get_uint get_slice
    require mapping_err ◌>>=◌
process_payment-ok_example =
    process_payment-ok slices client marked marked_mac encoders settings crates {D = Unit {0}}
      (3 ∷ []) payment pending [] acknowledged refl

process_payment-generate_example :
    let after =
      add_invoice slices client marked marked_mac encoders settings crates address fee [] in
    let paid = remove key_equal output_equal address after in
    (generate_payment_request slices client marked marked_mac encoders settings crates 7000 address
        []
      ≡ (
        ok (
            request_response slices client marked marked_mac encoders settings crates 7000 address
              fee),
        after,
      ))
    × (send_txs slices client marked marked_mac encoders settings crates payment.transactions
          ≡ ok tt
        → (process_payment slices client marked marked_mac encoders settings crates {D = Unit {0}}
              (3 ∷ [])
              payment
              after
            ≡ (
              ok (
                  payment_response slices client marked marked_mac encoders settings crates
                    (3 ∷ [])
                    payment
                    address),
              paid,
            ))
          × ((value : List ℕ) (values : List (List ℕ)) (access_token : Option (List ℕ))
              → crates.to_str value
                ≡ some (
                    token_for slices client marked marked_mac encoders settings crates
                      (3 ∷ [])
                      address)
              → pop_protection slices client marked marked_mac encoders settings crates
                  (3 ∷ [])
                  address
                  (value ∷ values)
                  access_token
                ≡ ok address))
    × ((e : Node slices client marked marked_mac encoders settings crates)
        → send_txs slices client marked marked_mac encoders settings crates payment.transactions
          ≡ err e
        → (process_payment slices client marked marked_mac encoders settings crates {D = Unit {0}}
              (3 ∷ [])
              payment
              after
            ≡ (err (node e), paid))
          × ((again : Payment) (others : List Transaction)
              → decode_txs slices again.transactions ≡ ok others
              → again.merchant_data ≡ some address
              → process_payment slices client marked marked_mac encoders settings crates
                  {D = Unit {0}}
                  (3 ∷ [])
                  again
                  paid
                ≡ (err (wallet_error unexpected_outputs), paid)))
unfolding new_output fee_output outputs_of
process_payment-generate_example =
    process_payment-generate slices client marked marked_mac encoders settings crates {D = Unit {0}}
      (3 ∷ []) 7000 address fee payment (tx ∷ []) [] marked_laws marked_mac-laws ascii refl decoded
      refl refl
