-- ===== src/RelayServer/Payments.antt =====
-- relayserver/src/net/payments.rs and protection.rs. An address is its body, the 20 bytes that the
-- handlers use; times are in nanoseconds.
pub mod Received
pub mod Tokens
use cashweb_backends.Common.{
  ℕ, ◌+◌, ◌*◌, ◌/◌, ◌^◌, List, [], ◌∷◌, ◌++◌, Option, none, some, map, concat_map,
}
use cashweb_backends.Common.Exec.{
  Outcome, ok, err, panic, Exec, and_then, map_err, ok_or, mapping_err, lift, pure, ◌>>=◌, ◌>>◌,
}
use cashweb_backends.Http.{Response, authorization_name, with_body}
use cashweb_backends.Bitcoin.Transaction
use cashweb_backends.Bitcoin.Transaction.{Transaction}
use cashweb_backends.Bitcoin.Transaction.Output as TxOutput
use cashweb_backends.Bitcoin.Transaction.Slices.{Slices, decode_txs}
use cashweb_backends.BitcoinClient.{BitcoinClient, NodeError, node_status}
use cashweb_backends.Payments.Preprocess.{
  PreprocessingError, missing_accept_header, missing_content_type_header, payment_decode,
}
use cashweb_backends.Payments.Bip70.{
  Output, Payment, Encoders, Settings, output_equal, key_equal, payment_url, invoice,
}
use cashweb_backends.Payments.Wallet.{UnexpectedOutputs, Pending, add_outputs, recv_outputs}
use cashweb_backends.Token.{pop_prefix, split_option, found_or, extract_pop}
use cashweb_backends.Token.HmacBearer.{
  Base64, Hmac, ValidationError, construct_token, validate_token,
}

pub data PaymentError (DecodeError Node : Type 0) : Type 0 where
  preprocess : PreprocessingError DecodeError → PaymentError DecodeError Node
  wallet_error : UnexpectedOutputs → PaymentError DecodeError Node
  malformed_tx : Transaction.DecodeError → PaymentError DecodeError Node
  missing_merchant_data : PaymentError DecodeError Node
  node : Node → PaymentError DecodeError Node

abbrev pub preprocess_status : {D : Type 0} → PreprocessingError D → ℕ
preprocess_status missing_accept_header = 406
preprocess_status missing_content_type_header = 415
preprocess_status (payment_decode e) = 400

unfoldable pub to_status : {D R J H : Type 0} → PaymentError D (NodeError R J H) → ℕ
to_status (preprocess e) = preprocess_status e
to_status (wallet_error e) = 404
to_status (malformed_tx e) = 400
to_status missing_merchant_data = 400
to_status (node e) = node_status e

pub data PaymentRequestError (AddressError Node : Type 0) : Type 0 where
  address_error : AddressError → PaymentRequestError AddressError Node
  request_node : Node → PaymentRequestError AddressError Node

pub data ProtectionError (Base64Error : Type 0) : Type 0 where
  missing_token : List ℕ → ProtectionError Base64Error
  validation : ValidationError Base64Error → ProtectionError Base64Error

-- The crates of the server: addresses, headers, and the texts of errors.
pub record Crates : Type 1 where
  pub AddressError : Type 0
  pub HeaderValue : Type 0
  pub decode_address : List ℕ → Outcome AddressError (List ℕ)
  pub to_str : HeaderValue → Option (List ℕ)
  pub validation_text : List ℕ
  pub request_text : List ℕ

abbrev pub Wallet : Type 0
Wallet = Pending key_equal output_equal

-- The outputs of a transaction as outputs of the protocol.
abbrev pub as_output : TxOutput.Output → Output
as_output output = record { amount = some output.value; script = output.script.raw }

unfoldable pub outputs_of : List Transaction → List Output
outputs_of txs = concat_map (λ (tx : Transaction). map as_output tx.outputs) txs

module _ (slices : Slices) (client : BitcoinClient) (base64 : Base64) (hmac : Hmac)
    (encoders : Encoders) (settings : Settings) (crates : Crates) where
  open client use {RpcError, JsonError, FromHexError}
  open base64 use {Base64Error}
  open crates use {AddressError, HeaderValue, decode_address, to_str}

  abbrev pub Node : Type 0
  Node = NodeError RpcError JsonError FromHexError

  -- `for tx in &payment.transactions`
  unfoldable pub send_txs : List (List ℕ) → Outcome Node (Unit {0})
  send_txs [] = ok tt
  send_txs (tx ∷ txs) = and_then (client.send_tx tx) λ id. send_txs txs

  unfoldable pub token_for : hmac.Key → List ℕ → List ℕ
  token_for key pubkey_hash = pop_prefix ++ construct_token base64 hmac key pubkey_hash

  unfoldable pub payment_response : hmac.Key → Payment → List ℕ → Response
  payment_response key payment pubkey_hash = record {
    status = 200;
    headers = (authorization_name, token_for key pubkey_hash) ∷ [];
    body = encoders.encode_ack (record { payment = payment; memo = some settings.memo });
  }

  -- The transactions go to the node after the wallet has given up the invoice.
  unfoldable pub send_payment :
      {D : Type 0} → hmac.Key → Payment → List ℕ → Exec Wallet (PaymentError D Node) Response
  send_payment key payment pubkey_hash = do
    lift (map_err node (send_txs payment.transactions))
    pure (payment_response key payment pubkey_hash)

  unfoldable pub receive_payment :
      {D : Type 0}
      → hmac.Key
      → Payment
      → List Transaction
      → List ℕ
      → Exec Wallet (PaymentError D Node) Response
  receive_payment key payment txs pubkey_hash = do
    mapping_err wallet_error (recv_outputs key_equal output_equal pubkey_hash (outputs_of txs))
    send_payment key payment pubkey_hash

  -- The checks of what the payment holds.
  unfoldable pub read_payment :
      {D : Type 0} → Payment → Outcome (PaymentError D Node) (List Transaction × List ℕ)
  read_payment payment =
      and_then (map_err malformed_tx (decode_txs slices payment.transactions)) λ txs.
        and_then (ok_or payment.merchant_data missing_merchant_data)
          λ pubkey_hash. ok (txs, pubkey_hash)

  unfoldable pub process_payment :
      {D : Type 0} → hmac.Key → Payment → Exec Wallet (PaymentError D Node) Response
  process_payment key payment = do
    given ← lift (read_payment payment)
    receive_payment key payment given.0 given.1

  unfoldable pub fee_output : List ℕ → Output
  fee_output output_addr = record {
    amount = some settings.token_fee;
    script = (118 ∷ 169 ∷ 20 ∷ []) ++ (output_addr ++ (136 ∷ 172 ∷ []));
  }

  unfoldable pub request_response : ℕ → List ℕ → Output → Response
  request_response current_time addr output = with_body 402 (
      invoice encoders (record {
        network = some settings.network;
        outputs = output ∷ [];
        time = current_time / 10 ^ 9;
        expires = some ((current_time + settings.timeout * 10 ^ 6) / 10 ^ 9);
        memo = none;
        payment_url = some payment_url;
        merchant_data = some addr;
      }))

  -- The address that the node gives for the fee.
  unfoldable pub new_output : Outcome (PaymentRequestError AddressError Node) Output
  new_output = and_then (map_err request_node client.get_new_addr) λ output_addr_str.
      and_then (map_err address_error (decode_address output_addr_str))
        λ output_addr. ok (fee_output output_addr)

  abbrev pub add_invoice : List ℕ → Output → Wallet → Wallet
  add_invoice addr output wallet = add_outputs key_equal output_equal addr (output ∷ []) wallet

  unfoldable pub insert_invoice :
      List ℕ → Output → Exec Wallet (PaymentRequestError AddressError Node) (Unit {0})
  insert_invoice addr output wallet = (ok tt, add_invoice addr output wallet)

  unfoldable pub generate_payment_request :
      ℕ → List ℕ → Exec Wallet (PaymentRequestError AddressError Node) Response
  generate_payment_request current_time addr = do
    output ← lift new_output
    insert_invoice addr output
    pure (request_response current_time addr output)

  abbrev pub protect :
      hmac.Key → List ℕ → Option (List ℕ) → Outcome (ProtectionError Base64Error) (List ℕ)
  protect key addr none = err (missing_token addr)
  protect key addr (some pop_token) =
      and_then (map_err validation (validate_token base64 hmac key addr pop_token)) λ u. ok addr

  unfoldable pub pop_protection :
      hmac.Key
      → List ℕ
      → List HeaderValue
      → Option (List ℕ)
      → Outcome (ProtectionError Base64Error) (List ℕ)
  pop_protection key addr headers access_token =
      and_then (extract_pop to_str headers) λ found.
        and_then (found_or found (split_option access_token)) λ token. protect key addr token

  -- `Err(err)` of the request for a payment is an answer with status 400.
  abbrev pub recovered :
      Outcome (PaymentRequestError AddressError Node) Response × Wallet
      → Outcome (Unit {0}) Response × Wallet
  recovered (ok response, wallet) = (ok response, wallet)
  recovered (err e, wallet) = (ok (with_body 400 crates.request_text), wallet)
  recovered (panic, wallet) = (panic, wallet)

  unfoldable pub protection_error_recovery :
      ℕ → ProtectionError Base64Error → Exec Wallet (Unit {0}) Response
  protection_error_recovery current_time (validation e) wallet =
      (ok (with_body 400 crates.validation_text), wallet)
  protection_error_recovery current_time (missing_token addr) wallet =
      recovered (generate_payment_request current_time addr wallet)
