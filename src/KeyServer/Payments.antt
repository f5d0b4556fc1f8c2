-- ===== src/KeyServer/Payments.antt =====
-- keyserver/src/net/payments.rs, and what net/protection.rs answers without a token. Times are in
-- nanoseconds; the encoding of addresses is a parameter.
pub mod Found
pub mod Tokens
use cashweb_backends.Common.{
  ℕ, ◌+◌, ◌%◌, ◌/◌, ◌^◌, List, [], ◌∷◌, ◌++◌, Option, none, some, Bool, true, false, ◌&&◌, not,
  if◌then◌else◌, length, take, drop, get_or, bytes_eq, ◌==◌,
}
use cashweb_backends.Common.Exec.{Outcome, ok, err, and_then, map_err, ok_or, unwrap_ok}
use cashweb_backends.Http.{Response, authorization_name, location_name, with_body}
use cashweb_backends.Bitcoin.Buf.{BufMut}
use cashweb_backends.Bitcoin.Buf.ByteVec.{ByteVec}
use cashweb_backends.Bitcoin.Transaction
use cashweb_backends.Bitcoin.Transaction.{Transaction}
use cashweb_backends.Bitcoin.Transaction.Output.{Output}
use cashweb_backends.Bitcoin.Transaction.SignatureHash.{transaction_id_rev}
use cashweb_backends.Bitcoin.Transaction.Script.{op_return}
use cashweb_backends.BitcoinClient.{BitcoinClient, NodeError, node_status}
use cashweb_backends.KeyserverClient.Manager.{keys_path}
use cashweb_backends.Payments.Preprocess.{PreprocessingError}
use cashweb_backends.Payments.Bip70 as Bip70
use cashweb_backends.Payments.Bip70.{Payment, Encoders, Settings, payment_url, invoice}
use cashweb_backends.RelayServer.Payments.{preprocess_status}
use cashweb_backends.Token.{pop_prefix}
use cashweb_backends.Token.HmacBearer.{Base64}
use cashweb_backends.Token.ChainCommitment.{
  Chain, construct_commitment, construct_token, decode_slice,
}
use cashweb_backends.KeyServer.Metadata.{ProtectionError, missing_token, validation, decode_error}

abbrev pub commitment_preimage_size : ℕ
commitment_preimage_size = 32 + 32

abbrev pub commitment_size : ℕ
commitment_size = 32

pub data PaymentError (DecodeError Node EncodingError : Type 0) : Type 0 where
  preprocess : PreprocessingError DecodeError → PaymentError DecodeError Node EncodingError
  missing_commitment missing_merchant_data incorrect_length_preimage :
      PaymentError DecodeError Node EncodingError
  malformed_tx : Transaction.DecodeError → PaymentError DecodeError Node EncodingError
  node : Node → PaymentError DecodeError Node EncodingError
  address_error : EncodingError → PaymentError DecodeError Node EncodingError

unfoldable pub to_status : {D R J H A : Type 0} → PaymentError D (NodeError R J H) A → ℕ
to_status (address_error e) = 400
to_status incorrect_length_preimage = 400
to_status (preprocess e) = preprocess_status e
to_status (malformed_tx e) = 400
to_status missing_merchant_data = 400
to_status missing_commitment = 400
to_status (node e) = node_status e

-- The test of `find_map`; `&&` does not read an index that the length test rules out.
unfoldable pub is_commitment : List ℕ → List ℕ → Bool
is_commitment commitment raw_script =
    (length raw_script == 2 + commitment_size)
    && ((get_or raw_script 0 0 == op_return)
        && ((get_or raw_script 1 0 == commitment_size)
            && bytes_eq (take 32 (drop 2 raw_script)) commitment))

-- The first output that commits, from the index `vout` on.
unfoldable pub find_output : List ℕ → ℕ → List Output → Option ℕ
find_output commitment vout [] = none
find_output commitment vout (output ∷ outputs) =
    let rest = find_output commitment (vout + 1) outputs in
    if is_commitment commitment output.script.raw then some vout else rest

abbrev pub or_next : List ℕ → Option ℕ → Option (List ℕ × ℕ) → Option (List ℕ × ℕ)
or_next tx_id none rest = rest
or_next tx_id (some vout) rest = some (tx_id, vout)

unfoldable pub find_commitment : List ℕ → List (Transaction × List ℕ) → Option (List ℕ × ℕ)
find_commitment commitment [] = none
find_commitment commitment (entry ∷ entries) =
    or_next entry.1 (find_output commitment 0 entry.0.outputs) (find_commitment commitment entries)

module _ (client : BitcoinClient) (base64 : Base64) (chain : Chain) (encoders : Encoders)
    (settings : Settings) {EncodingError : Type 0}
    (encode_address : List ℕ → Outcome EncodingError (List ℕ)) {W : Type 0} ⦃buf : BufMut W⦄
    (vec : ByteVec W) where
  open client use {RpcError, JsonError, FromHexError}

  abbrev pub Node : Type 0
  Node = NodeError RpcError JsonError FromHexError

  abbrev pub Error : Type 0 → Type 0
  Error D = PaymentError D Node EncodingError

  unfoldable pub decode_tx : {D : Type 0} → List ℕ → Outcome (Error D) (Transaction × List ℕ)
  decode_tx raw_tx =
      and_then (map_err malformed_tx (decode_slice base64 chain raw_tx))
        λ tx. and_then (unwrap_ok (transaction_id_rev chain.sha256 vec tx)) λ tx_id. ok (tx, tx_id)

  unfoldable pub decode_txs :
      {D : Type 0} → List (List ℕ) → Outcome (Error D) (List (Transaction × List ℕ))
  decode_txs [] = ok []
  decode_txs (raw_tx ∷ raw_txs) =
      and_then (decode_tx raw_tx) λ tx. and_then (decode_txs raw_txs) λ txs. ok (tx ∷ txs)

  unfoldable pub send_txs : {D : Type 0} → List (List ℕ) → Outcome (Error D) (Unit {0})
  send_txs [] = ok tt
  send_txs (tx ∷ txs) = and_then (map_err node (client.send_tx tx)) λ id. send_txs txs

  unfoldable pub check_preimage : {D : Type 0} → Option (List ℕ) → Outcome (Error D) (List ℕ)
  check_preimage merchant_data = and_then (ok_or merchant_data missing_merchant_data) λ preimage.
      if not (length preimage == commitment_preimage_size)
      then err incorrect_length_preimage
      else ok preimage

  abbrev pub commitment_of : List ℕ → List ℕ
  commitment_of preimage = construct_commitment base64 chain (take 32 preimage) (drop 32 preimage)

  -- `vout as u32`
  unfoldable pub token_for : List ℕ × ℕ → List ℕ
  token_for outpoint = pop_prefix ++ construct_token base64 chain outpoint.0 (outpoint.1 % 2 ^ 32)

  unfoldable pub payment_response : Payment → List ℕ → List ℕ × ℕ → Response
  payment_response payment addr_str outpoint = record {
    status = 200;
    headers =
        (location_name, keys_path ++ addr_str) ∷ (authorization_name, token_for outpoint) ∷ [];
    body = encoders.encode_ack (record { payment = payment; memo = some settings.memo });
  }

  unfoldable pub process_payment : {D : Type 0} → Payment → Outcome (Error D) Response
  process_payment payment = and_then (decode_txs payment.transactions) λ txs.
      and_then (check_preimage payment.merchant_data) λ preimage.
        and_then (map_err address_error (encode_address (take 32 preimage))) λ addr_str.
          and_then (ok_or (find_commitment (commitment_of preimage) txs) missing_commitment)
            λ outpoint.
              and_then (send_txs payment.transactions)
                λ u. ok (payment_response payment addr_str outpoint)

  unfoldable pub construct_payment_response : ℕ → List ℕ → List ℕ → Response
  construct_payment_response current_time pub_key_hash metadata_digest = with_body 402 (
      invoice encoders (record {
        network = some settings.network;
        outputs =
            record {
              amount = none;
              script = 106 ∷ commitment_size ∷ chain.sha256 (pub_key_hash ++ metadata_digest);
            }
            ∷ [];
        time = current_time / 10 ^ 9;
        expires = none;
        memo = none;
        payment_url = some payment_url;
        merchant_data = some (pub_key_hash ++ metadata_digest);
      }))

  -- The text for a wrapper that does not decode is that of the decoder.
  unfoldable pub protection_error_recovery :
      {DecodeError Base64Error NodeError : Type 0}
      → (ProtectionError DecodeError Base64Error NodeError → List ℕ)
      → (DecodeError → List ℕ)
      → ℕ
      → ProtectionError DecodeError Base64Error NodeError
      → Response
  protection_error_recovery to_string decode_text current_time (validation e) =
      with_body 400 (to_string (validation e))
  protection_error_recovery to_string decode_text current_time
        (missing_token pubkey_digest metadata_digest) =
      construct_payment_response current_time pubkey_digest metadata_digest
  protection_error_recovery to_string decode_text current_time (decode_error e) =
      with_body 400 (decode_text e)
