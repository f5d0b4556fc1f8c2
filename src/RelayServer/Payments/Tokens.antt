-- ===== src/RelayServer/Payments/Tokens.antt =====
-- When a payment gives a token, and that the token opens the protected routes.
use cashweb_backends.Common.{
  ℕ, ◌≡◌, refl, sym, ap, ◌∙◌, List, [], ◌∷◌, ◌++◌, Option, some, true, false, bytes_eq_refl, subst,
}
use cashweb_backends.Common.Exec.{ok, err, map_err, with_err, mapping_err, pure, ◌>>=◌}
use cashweb_backends.Common.Exec.Rules.{value-eq-ok, map_err-eq-ok, continue-eq-ok, with_err-eq-ok}
use cashweb_backends.Http.{Response, authorization_name}
use cashweb_backends.Bitcoin.Transaction.{Transaction}
use cashweb_backends.Bitcoin.Transaction.Slices.{Slices, decode_txs}
use cashweb_backends.BitcoinClient.{BitcoinClient}
use cashweb_backends.Payments.Bip70.{Output, Payment, Encoders, Settings, output_equal, key_equal}
use cashweb_backends.Payments.Wallet.{
  unexpected_outputs, lookup, remove, contains, all_contained, add_outputs, receive_expected,
  recv_outputs,
}
use cashweb_backends.Payments.Wallet.Invoices.{lookup-remove, receive_covered}
use cashweb_backends.Token.{pop_prefix, is_continuation, extract_pop_header, extract_pop}
use cashweb_backends.Token.Prefix.{split_pop_token_lem}
use cashweb_backends.Token.HmacBearer.{
  Base64, IsBase64, Hmac, IsHmac, construct_token, validate_token-construct_token,
}
use cashweb_backends.RelayServer.Payments.{
  PaymentError, wallet_error, node, Crates, Wallet, outputs_of, Node, send_txs, token_for,
  payment_response, send_payment, receive_payment, read_payment, process_payment, request_response,
  new_output, add_invoice, insert_invoice, generate_payment_request, pop_protection,
}
use cashweb_backends.RelayServer.Payments.Received.{key_equal-laws, received, read_payment-ok}

-- What base64 and the tags of the HMAC are made of: a tag is not empty, and the encoding of bytes begins
-- with a character of one byte.
pub record IsAscii (base64 : Base64) (hmac : Hmac) : Type 0 where
  pub sign_lem :
      (key : hmac.Key) (xs : List ℕ) → (b : ℕ) × (bs : List ℕ) × (hmac.sign key xs ≡ b ∷ bs)
  pub encode_lem :
      (b : ℕ) (bs : List ℕ)
      → (c : ℕ) × (cs : List ℕ) × (base64.encode (b ∷ bs) ≡ c ∷ cs) × (is_continuation c ≡ false)

module _ (slices : Slices) (client : BitcoinClient) (base64 : Base64) (hmac : Hmac)
    (encoders : Encoders) (settings : Settings) (crates : Crates) where
  -- A payment is answered with a token only for transactions that decode and that the node accepted, all
  -- of them, and for an address with a pending invoice, each of whose outputs is among those of the
  -- transactions. The token is that of the address, and the invoice is not pending any more.
  pub process_payment-ok :
      {D : Type 0} (key : hmac.Key) (payment : Payment) (wallet wallet' : Wallet)
      (response : Response)
      → process_payment slices client base64 hmac encoders settings crates {D = D} key payment
          wallet
        ≡ (ok response, wallet')
      → (txs : List Transaction) × (addr : List ℕ) × (expected : List Output) × (decode_txs slices
            payment.transactions
          ≡ ok txs)
        × (payment.merchant_data ≡ some addr)
        × (lookup key_equal output_equal addr wallet ≡ some expected)
        × (all_contained key_equal output_equal (outputs_of txs) expected ≡ true)
        × (send_txs slices client base64 hmac encoders settings crates payment.transactions ≡ ok tt)
        × (wallet' ≡ remove key_equal output_equal addr wallet)
        × (response.headers
            ≡ (
              authorization_name,
              token_for slices client base64 hmac encoders settings crates key addr,
            )
              ∷ [])
  unfolding process_payment receive_payment send_payment read_payment payment_response recv_outputs
      mapping_err ◌>>=◌
  process_payment-ok {D = D} key payment wallet wallet' response h =
      let P = PaymentError D (Node slices client base64 hmac encoders settings crates) in
      let (given, w1, t, h1) =
        continue-eq-ok
          (λ given.
            receive_payment slices client base64 hmac encoders settings crates {D = D} key payment
              given.0 given.1)
          (read_payment slices client base64 hmac encoders settings crates {D = D} payment, wallet)
          h in
      let (u, w2, r, h2) =
        continue-eq-ok
          (λ (u : Unit {0}).
            send_payment slices client base64 hmac encoders settings crates {D = D} key payment
              given.1)
          (with_err wallet_error
            (recv_outputs key_equal output_equal given.1 (outputs_of given.0) w1))
          h1 in
      let (v, w3, s, h3) =
        continue-eq-ok
          (λ (v : Unit {0}). pure {E = P} (
            payment_response slices client base64 hmac encoders settings crates key payment
              given.1))
          (
            map_err {E = P} node
                (send_txs slices client base64 hmac encoders settings crates payment.transactions),
            w2,
          )
          h2 in
      let same : w1 ≡ wallet = sym (ap (λ z. z.1) t) in
      let (decoded, addressed) =
        read_payment-ok slices client base64 hmac encoders settings crates payment given
          (ap (λ z. z.0) t) in
      let (expected, found, covered, gone) =
        received given.1 (outputs_of given.0) wallet w2
          (lookup key_equal output_equal given.1 wallet)
          (subst
            (λ w. recv_outputs key_equal output_equal given.1 (outputs_of given.0) w ≡ (ok tt, w2))
            same (with_err-eq-ok wallet_error _ r)) in
      (
        given.0,
        given.1,
        expected,
        decoded,
        addressed,
        found,
        covered,
        map_err-eq-ok node _ (ap (λ z. z.0) s),
        sym (ap (λ z. z.1) h3) ∙ sym (ap (λ z. z.1) s) ∙ gone,
        ap (λ (z : Response). z.headers) (sym (value-eq-ok (ok _) (ap (λ z. z.0) h3))),
      )

  -- The header with the token of an address opens its routes.
  token_opens :
      (key : hmac.Key) (addr : List ℕ) (value : crates.HeaderValue)
      (values : List crates.HeaderValue) (access_token : Option (List ℕ))
      → IsBase64 base64
      → IsHmac hmac
      → IsAscii base64 hmac
      → crates.to_str value
        ≡ some (token_for slices client base64 hmac encoders settings crates key addr)
      → pop_protection slices client base64 hmac encoders settings crates key addr
          (value ∷ values)
          access_token
        ≡ ok addr
  unfolding pop_protection token_for extract_pop extract_pop_header construct_token
  token_opens key addr value values access_token base64_laws hmac_laws ascii t =
      let (b, bs, signed) = ascii.sign_lem key addr in
      let (c, cs, encoded, plain) = ascii.encode_lem b bs in
      let token_is : base64.encode (hmac.sign key addr) ≡ c ∷ cs =
        ap base64.encode signed ∙ encoded in
      let valid = (validate_token-construct_token base64_laws hmac_laws key addr addr []).1 in
      rw
        (
          t,
          token_is,
          ((split_pop_token_lem (pop_prefix ++ (c ∷ cs))).0 (c ∷ cs)).1
              (refl, (c, cs, refl, plain)),
        )
        (rw (← token_is, valid) refl)

  -- A wallet in which an output of the address is pending, and a payment whose outputs have it.
  added_lem :
      (addr : List ℕ) (output : Output) (outputs : List Output) (wallet : Wallet)
      → contains key_equal output_equal outputs output ≡ true
      → let after =
          add_invoice slices client base64 hmac encoders settings crates addr output wallet in
        recv_outputs key_equal output_equal addr outputs after
        ≡ (ok tt, remove key_equal output_equal addr after)
  unfolding add_outputs
  added_lem addr output outputs wallet c =
      let after =
        add_invoice slices client base64 hmac encoders settings crates addr output wallet in
      let pending : lookup key_equal output_equal addr after ≡ some (output ∷ []) =
        rw (bytes_eq_refl addr) refl in
      receive_covered key_equal output_equal key_equal-laws addr outputs (output ∷ []) after pending
        (rw c refl)

  gone :
      (addr : List ℕ) (outputs : List Output) (wallet : Wallet)
      → recv_outputs key_equal output_equal addr outputs (remove key_equal output_equal addr wallet)
        ≡ (err unexpected_outputs, remove key_equal output_equal addr wallet)
  unfolding recv_outputs receive_expected
  gone addr outputs wallet =
      rw (lookup-remove key_equal output_equal key_equal-laws addr wallet) refl

  -- An address that asks without a token gets an invoice for the output that the node gave, and paying it
  -- with transactions that have this output and that the node accepts gives a token whose header opens
  -- the routes of the address. If the node refuses them, the payment is an error and the invoice is lost
  -- all the same: every later payment for the address is refused.
  pub process_payment-generate :
      {D : Type 0} (key : hmac.Key) (current_time : ℕ) (addr : List ℕ) (output : Output)
      (payment : Payment) (txs : List Transaction) (wallet : Wallet)
      → IsBase64 base64
      → IsHmac hmac
      → IsAscii base64 hmac
      → new_output slices client base64 hmac encoders settings crates ≡ ok output
      → decode_txs slices payment.transactions ≡ ok txs
      → payment.merchant_data ≡ some addr
      → contains key_equal output_equal (outputs_of txs) output ≡ true
      → let after =
          add_invoice slices client base64 hmac encoders settings crates addr output wallet in
        let paid = remove key_equal output_equal addr after in
        (generate_payment_request slices client base64 hmac encoders settings crates current_time
            addr wallet
          ≡ (
            ok (
                request_response slices client base64 hmac encoders settings crates current_time
                  addr output),
            after,
          ))
        × (send_txs slices client base64 hmac encoders settings crates payment.transactions ≡ ok tt
            → (process_payment slices client base64 hmac encoders settings crates {D = D} key
                  payment after
                ≡ (
                  ok (
                      payment_response slices client base64 hmac encoders settings crates key
                        payment addr),
                  paid,
                ))
              × ((value : crates.HeaderValue) (values : List crates.HeaderValue)
                    (access_token : Option (List ℕ))
                  → crates.to_str value
                    ≡ some (token_for slices client base64 hmac encoders settings crates key addr)
                  → pop_protection slices client base64 hmac encoders settings crates key addr
                      (value ∷ values)
                      access_token
                    ≡ ok addr))
        × ((e : Node slices client base64 hmac encoders settings crates)
            → send_txs slices client base64 hmac encoders settings crates payment.transactions
              ≡ err e
            → (process_payment slices client base64 hmac encoders settings crates {D = D} key
                  payment after
                ≡ (err (node e), paid))
              × ((again : Payment) (others : List Transaction)
                  → decode_txs slices again.transactions ≡ ok others
                  → again.merchant_data ≡ some addr
                  → process_payment slices client base64 hmac encoders settings crates {D = D} key
                      again paid
                    ≡ (err (wallet_error unexpected_outputs), paid)))
  unfolding generate_payment_request insert_invoice process_payment receive_payment send_payment
      read_payment mapping_err ◌>>=◌
  process_payment-generate key current_time addr output payment txs wallet base64_laws hmac_laws
        ascii o d m c =
      let after =
        add_invoice slices client base64 hmac encoders settings crates addr output wallet in
      (
        rw o refl,
        λ s. (
          rw (d, m, added_lem addr output (outputs_of txs) wallet c, s) refl,
          λ value values access_token.
              token_opens key addr value values access_token base64_laws hmac_laws ascii,
        ),
        λ e s. (
          rw (d, m, added_lem addr output (outputs_of txs) wallet c, s) refl,
          λ again others d' m'. rw (d', m', gone addr (outputs_of others) after) refl,
        ),
      )
