-- ===== src/KeyServer/Payments/Tokens.antt =====
-- The token that a payment is answered with validates for what was paid for.
use cashweb_backends.Common.{
  ℕ, ◌%◌, ◌^◌, ◌<◌, ◌≡◌, sym, ap, ◌∙◌, List, [], ◌∷◌, ◌++◌, some, length, take, drop, get_elem?,
  subst, arith, length-append, take-append, drop-append, length-to_le_bytes, to_le_bytes,
  from_le_bytes, from_le_bytes-to_le_bytes, take_all,
}
use mathlib.Core.List.{Memᴰ}
use cashweb_backends.Common.Exec.{Outcome, ok, map_err, ok_or, unwrap_ok}
use cashweb_backends.Common.Exec.Rules.{
  and_then-eq-ok, map_err-eq-ok, unwrap_ok-eq-ok, ok_or-eq-ok, value-eq-ok,
}
use cashweb_backends.Http.{Response, authorization_name, location_name}
use cashweb_backends.Bitcoin.Buf.{BufMut}
use cashweb_backends.Bitcoin.Buf.ByteVec.{ByteVec}
use cashweb_backends.Bitcoin.Transaction.{Transaction}
use cashweb_backends.Bitcoin.Transaction.Output.{Output}
use cashweb_backends.Bitcoin.Transaction.SignatureHash.{transaction_id_rev}
use cashweb_backends.BitcoinClient.{BitcoinClient}
use cashweb_backends.KeyserverClient.Manager.{keys_path}
use cashweb_backends.Payments.Bip70.{Payment, Encoders, Settings}
use cashweb_backends.Token.{pop_prefix}
use cashweb_backends.Token.HmacBearer.{Base64, IsBase64}
use cashweb_backends.Token.ChainCommitment.{
  Chain, construct_token, construct_token_raw, decode_slice, validate_token,
}
use cashweb_backends.Token.ChainCommitment.Commits.{commitment_script, validate_token_iff}
use cashweb_backends.KeyServer.Payments.{
  missing_commitment, address_error, malformed_tx, find_commitment, decode_tx, decode_txs, send_txs,
  check_preimage, commitment_of, token_for, payment_response, process_payment,
}
use cashweb_backends.KeyServer.Payments.Found.{
  find_output-some, find_commitment-some, length-transaction_id_rev, decode_txs-Mem, send_txs-Mem,
  check_preimage-ok,
}

token_fields :
    (id : List ℕ) (v : ℕ)
    → length id ≡ 32
    → v < 2 ^ 32
    → let raw = construct_token_raw id v in
      (length raw ≡ 36) × (take 32 raw ≡ id) × (from_le_bytes (take 4 (drop 32 raw)) ≡ v)
unfolding construct_token_raw
token_fields id v len small =
    let le = to_le_bytes 4 v in
    let len4 : length le ≡ 4 = length-to_le_bytes 4 v in
    let all4 : take 4 le ≡ le = take_all 4 le len4 in
    (
      length-append id le ∙ omega (arith, len, len4),
      subst (λ n. take n (id ++ le) ≡ id) len (take-append id le),
      ap (λ xs. from_le_bytes (take 4 xs))
            (subst (λ n. drop n (id ++ le) ≡ le) len (drop-append id le))
          ∙ ap from_le_bytes all4
          ∙ from_le_bytes-to_le_bytes 4 v small,
    )

module _ (client : BitcoinClient) (base64 : Base64) (chain : Chain) {W : Type 0} ⦃buf : BufMut W⦄
    (vec : ByteVec W) where
  -- What the node gives for the ID of a transaction that it accepted: the bytes that were sent.
  pub record IsNode : Type 0 where
    pub get_sent :
        (raw reply tx_id : List ℕ) (tx : Transaction)
        → client.send_tx raw ≡ ok reply
        → decode_slice base64 chain raw ≡ ok tx
        → transaction_id_rev chain.sha256 vec tx ≡ ok tx_id
        → chain.get_raw_transaction tx_id ≡ ok raw

module _ (client : BitcoinClient) (base64 : Base64) (chain : Chain) (encoders : Encoders)
    (settings : Settings) {EncodingError : Type 0}
    (encode_address : List ℕ → Outcome EncodingError (List ℕ)) {W : Type 0} ⦃buf : BufMut W⦄
    (vec : ByteVec W) {D : Type 0} where
  on_chain :
      (commitment : List ℕ) (raws : List (List ℕ)) (txs : List (Transaction × List ℕ))
      (outpoint : List ℕ × ℕ)
      → ((xs : List ℕ) → length (chain.sha256 xs) ≡ 32)
      → IsNode client base64 chain vec
      → ((raw : List ℕ) (tx : Transaction)
          → Memᴰ raw raws
          → decode_slice base64 chain raw ≡ ok tx
          → length tx.outputs < 2 ^ 32)
      → decode_txs client base64 chain encoders settings encode_address vec {D = D} raws ≡ ok txs
      → find_commitment commitment txs ≡ some outpoint
      → send_txs client base64 chain encoders settings encode_address vec {D = D} raws ≡ ok tt
      → (raw : List ℕ) × (tx : Transaction) × (output : Output) × (length outpoint.0 ≡ 32)
        × (outpoint.1 < 2 ^ 32)
        × (chain.get_raw_transaction outpoint.0 ≡ ok raw)
        × (decode_slice base64 chain raw ≡ ok tx)
        × (get_elem? tx.outputs outpoint.1 ≡ some output)
        × (output.script ≡ commitment_script commitment)
  unfolding decode_tx
  on_chain commitment raws txs outpoint sha256_len is_node fits d f s =
      let (entry, m, id, found) = find_commitment-some commitment txs outpoint f in
      let (i, at, small, output, g, script) =
        find_output-some commitment 0 entry.0.outputs outpoint.1 found in
      let (raw, rm, dec) =
        decode_txs-Mem client base64 chain encoders settings encode_address vec {D = D} raws txs
          entry d m in
      let (reply, sent) =
        send_txs-Mem client base64 chain encoders settings encode_address vec {D = D} raws raw s
          rm in
      let (tx, dt, h1) =
        and_then-eq-ok (map_err malformed_tx (decode_slice base64 chain raw)) _ dec in
      let (tx_id, it, h2) =
        and_then-eq-ok (unwrap_ok (transaction_id_rev chain.sha256 vec tx)) _ h1 in
      let same : (tx, tx_id) ≡ entry = value-eq-ok (ok (tx, tx_id)) h2 in
      let same_tx : tx ≡ entry.0 = ap (λ (z : Transaction × List ℕ). z.0) same in
      let same_id : tx_id ≡ outpoint.0 = ap (λ (z : Transaction × List ℕ). z.1) same ∙ id in
      let decoded : decode_slice base64 chain raw ≡ ok tx = map_err-eq-ok _ _ dt in
      let known : transaction_id_rev chain.sha256 vec tx ≡ ok tx_id = unwrap_ok-eq-ok _ it in
      let at_i : i ≡ outpoint.1 = omega (arith, at) in
      let bound : length entry.0.outputs < 2 ^ 32 =
        subst (λ (t : Transaction). length t.outputs < 2 ^ 32) same_tx (fits raw tx rm decoded) in
      (
        raw,
        tx,
        output,
        subst (λ xs. length xs ≡ 32) same_id
            (length-transaction_id_rev chain.sha256 vec sha256_len tx tx_id known),
        omega (arith, at_i, small, bound),
        subst (λ xs. chain.get_raw_transaction xs ≡ ok raw) same_id
            (is_node.get_sent raw reply tx_id tx sent decoded known),
        decoded,
        subst (λ (t : Transaction). get_elem? t.outputs outpoint.1 ≡ some output) (sym same_tx)
            (subst (λ n. get_elem? entry.0.outputs n ≡ some output) at_i g),
        script,
      )

  -- A payment is answered only if its merchant data are 64 bytes, and then with the location of the
  -- address that the first 32 of them encode to and with a token that validates, on the chain, for the
  -- first 32 as the hash of the address and the last 32 as the digest. This is so where SHA-256 has 32 bytes, base64 decodes what it encodes, the node gives back what it
  -- accepted, and no transaction of the payment has 2^32 outputs.
  pub process_payment-validate_token :
      (payment : Payment) (response : Response)
      → IsBase64 base64
      → ((xs : List ℕ) → length (chain.sha256 xs) ≡ 32)
      → IsNode client base64 chain vec
      → ((raw : List ℕ) (tx : Transaction)
          → Memᴰ raw payment.transactions
          → decode_slice base64 chain raw ≡ ok tx
          → length tx.outputs < 2 ^ 32)
      → process_payment client base64 chain encoders settings encode_address vec {D = D} payment
        ≡ ok response
      → (preimage addr_str token raw : List ℕ) × (payment.merchant_data ≡ some preimage)
        × (length preimage ≡ 64)
        × (encode_address (take 32 preimage) ≡ ok addr_str)
        × (response.headers
            ≡ (location_name, keys_path ++ addr_str)
              ∷ (authorization_name, pop_prefix ++ token)
              ∷ [])
        × (validate_token base64 chain (take 32 preimage) (drop 32 preimage) token ≡ ok raw)
  unfolding process_payment payment_response token_for construct_token
  process_payment-validate_token payment response base64_laws sha256_len is_node fits h =
      let (txs, d, h1) =
        and_then-eq-ok
          (decode_txs client base64 chain encoders settings encode_address vec {D = D}
            payment.transactions)
          _ h in
      let (preimage, p, h2) =
        and_then-eq-ok
          (check_preimage client base64 chain encoders settings encode_address vec {D = D}
            payment.merchant_data)
          _ h1 in
      let (addr_str, a, h3) =
        and_then-eq-ok (map_err address_error (encode_address (take 32 preimage))) _ h2 in
      let commitment =
        commitment_of client base64 chain encoders settings encode_address vec preimage in
      let (outpoint, f, h4) =
        and_then-eq-ok (ok_or (find_commitment commitment txs) missing_commitment) _ h3 in
      let (u, s, h5) =
        and_then-eq-ok
          (send_txs client base64 chain encoders settings encode_address vec {D = D}
            payment.transactions)
          _ h4 in
      let (given, len) =
        check_preimage-ok client base64 chain encoders settings encode_address vec {D = D}
          payment.merchant_data preimage p in
      let (raw_tx, tx, output, id_len, small, has, dec, g, script) =
        on_chain commitment payment.transactions txs outpoint sha256_len is_node fits d
          (ok_or-eq-ok _ _ f) s in
      let vout : outpoint.1 % 2 ^ 32 ≡ outpoint.1 = omega (arith, small) in
      let raw = construct_token_raw outpoint.0 (outpoint.1 % 2 ^ 32) in
      let (raw_len, id_is, vout_is) =
        token_fields outpoint.0 (outpoint.1 % 2 ^ 32) id_len (omega (arith, vout, small)) in
      (
        preimage,
        addr_str,
        base64.encode raw,
        raw,
        given,
        len,
        map_err-eq-ok _ _ a,
        ap (λ (z : Response). z.headers) (sym (value-eq-ok (ok _) h5)),
        (validate_token_iff base64 chain sha256_len (take 32 preimage) (drop 32 preimage)
              (base64.encode raw) raw).1
            (
              base64_laws.decode-encode raw,
              raw_len,
              raw_tx,
              tx,
              output,
              ap chain.get_raw_transaction id_is ∙ has,
              dec,
              ap (get_elem? tx.outputs) (vout_is ∙ vout) ∙ g,
              script,
            ),
      )
