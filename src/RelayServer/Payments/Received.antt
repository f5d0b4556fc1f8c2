-- ===== src/RelayServer/Payments/Received.antt =====
-- What a payment that was received has shown to the wallet.
use cashweb_backends.Common.{
  ℕ, ◌≡◌, refl, sym, ap, List, Option, none, some, Bool, true, false, if◌then◌else◌, bytes_eq,
  bytes_eq→eq, bytes_eq_refl, subst,
}
use cashweb_backends.Common.Exec.{Outcome, ok, err, map_err, ok_or}
use cashweb_backends.Common.Exec.Rules.{and_then-eq-ok, value-eq-ok, map_err-eq-ok, ok_or-eq-ok}
use cashweb_backends.Bitcoin.Transaction.{Transaction}
use cashweb_backends.Bitcoin.Transaction.Slices.{Slices, decode_txs}
use cashweb_backends.BitcoinClient.{BitcoinClient}
use cashweb_backends.Payments.Bip70.{Output, Payment, Encoders, Settings, output_equal, key_equal}
use cashweb_backends.Payments.Wallet.{
  UnexpectedOutputs, unexpected_outputs, remove, all_contained, receive_expected,
}
use cashweb_backends.Payments.Wallet.Invoices.{IsEqual}
use cashweb_backends.Token.HmacBearer.{Base64, Hmac}
use cashweb_backends.RelayServer.Payments.{
  malformed_tx, missing_merchant_data, Crates, Wallet, read_payment,
}

pub key_equal-laws : IsEqual key_equal
key_equal-laws = record {
  eq_iff = λ a b. (bytes_eq→eq a b, λ e. subst (λ z. bytes_eq a z ≡ true) e (bytes_eq_refl a));
}

received_if :
    (covered : Bool) (key : List ℕ) (wallet wallet' : Wallet) (expected outputs : List Output)
    → all_contained key_equal output_equal outputs expected ≡ covered
    → ◌≡◌ {A = Outcome UnexpectedOutputs (Unit {0}) × Wallet}
        (if covered
          then (ok tt, remove key_equal output_equal key wallet)
          else (err unexpected_outputs, wallet))
        (ok tt, wallet')
    → (found : List Output) × (some expected ≡ some found)
      × (all_contained key_equal output_equal outputs found ≡ true)
      × (wallet' ≡ remove key_equal output_equal key wallet)
received_if true key wallet wallet' expected outputs c h =
    (expected, refl, c, sym (ap (λ z. z.1) h))
received_if false key wallet wallet' expected outputs c h = cc (ap (λ z. z.0) h)

pub received :
    (key : List ℕ) (outputs : List Output) (wallet wallet' : Wallet) (found : Option (List Output))
    → receive_expected key_equal output_equal key outputs wallet found ≡ (ok tt, wallet')
    → (expected : List Output) × (found ≡ some expected)
      × (all_contained key_equal output_equal outputs expected ≡ true)
      × (wallet' ≡ remove key_equal output_equal key wallet)
unfolding receive_expected
received key outputs wallet wallet' none h = cc (ap (λ z. z.0) h)
received key outputs wallet wallet' (some expected) h =
    received_if (all_contained key_equal output_equal outputs expected) key wallet wallet' expected
      outputs refl h

module _ (slices : Slices) (client : BitcoinClient) (base64 : Base64) (hmac : Hmac)
    (encoders : Encoders) (settings : Settings) (crates : Crates) where
  pub read_payment-ok :
      {D : Type 0} (payment : Payment) (given : List Transaction × List ℕ)
      → read_payment slices client base64 hmac encoders settings crates {D = D} payment ≡ ok given
      → (decode_txs slices payment.transactions ≡ ok given.0)
        × (payment.merchant_data ≡ some given.1)
  unfolding read_payment
  read_payment-ok payment given h =
      let (txs, t, h1) =
        and_then-eq-ok (map_err malformed_tx (decode_txs slices payment.transactions)) _ h in
      let (addr, m, h2) = and_then-eq-ok (ok_or payment.merchant_data missing_merchant_data) _ h1 in
      subst
        (λ (z : List Transaction × List ℕ).
          (decode_txs slices payment.transactions ≡ ok z.0) × (payment.merchant_data ≡ some z.1))
        (value-eq-ok (ok (txs, addr)) h2) (map_err-eq-ok _ _ t, ok_or-eq-ok _ _ m)
