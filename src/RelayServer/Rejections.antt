-- ===== src/RelayServer/Rejections.antt =====
-- relayserver/src/net/mod.rs: the addresses of routes, and how a rejection becomes a response. The crate of
-- addresses, the texts of errors and what `warp` finds in a rejection are parameters.
use cashweb_backends.Common.{
  ℕ, List, [], Option, none, some, Bool, not, if◌then◌else◌, length, ◌==◌,
}
use cashweb_backends.Common.Exec.{Outcome, ok, err, Exec, and_then, map_err, pure}
use cashweb_backends.BitcoinClient.{BitcoinClient, NodeError}
use cashweb_backends.Bitcoin.Transaction.Slices.{Slices}
use cashweb_backends.Http.{Response, to_response, with_body}
use cashweb_backends.Payments.Bip70.{Encoders, Settings}
use cashweb_backends.Token.HmacBearer.{Base64, Hmac}
use cashweb_backends.RelayServer.Messages.{PutMessageError}
use cashweb_backends.RelayServer.Queries as Queries
use cashweb_backends.RelayServer.Queries.{GetMessageError}
use cashweb_backends.RelayServer.Profiles as Profiles
use cashweb_backends.RelayServer.Profiles.{GetProfileError, PutProfileError}
use cashweb_backends.RelayServer.Payments as Payments
use cashweb_backends.RelayServer.Payments.{
  PaymentError, ProtectionError, Crates, Wallet, protection_error_recovery,
}

pub data AddressDecode (CashError Base58Error : Type 0) : Type 0 where
  decode_failed : CashError × Base58Error → AddressDecode CashError Base58Error
  unexpected_body_length : ℕ → AddressDecode CashError Base58Error

-- An address is its body.
unfoldable pub address_decode :
    {CashError Base58Error : Type 0}
    → (List ℕ → Outcome (CashError × Base58Error) (List ℕ))
    → List ℕ
    → Outcome (AddressDecode CashError Base58Error) (List ℕ)
address_decode decode addr_str = and_then (map_err decode_failed (decode addr_str)) λ address.
    if not (length address == 20) then err (unexpected_body_length (length address)) else ok address

unfoldable pub address_status : {C B : Type 0} → AddressDecode C B → ℕ
address_status (decode_failed e) = 400
address_status (unexpected_body_length n) = 400

-- `if let Some(err) = err.find()`
abbrev pub if_found : {E X : Type 0} → Option E → (E → X) → X → X
if_found none f rest = rest
if_found (some e) f rest = f e

module _ (slices : Slices) (client : BitcoinClient) (base64 : Base64) (hmac : Hmac)
    (encoders : Encoders) (settings : Settings) (crates : Crates)
    (to_string : (E : Type 0) → E → List ℕ) (CashError Base58Error RocksError DecodeError : Type 0)
    (SecpError FromHexError : Type 0) where
  open client use {RpcError, JsonError}
  open base64 use {Base64Error}

  abbrev pub Node : Type 0
  Node = NodeError RpcError JsonError client.FromHexError

  -- What `find` gives for each type of error.
  pub record Rejection : Type 0 where
    pub address_error : Option (AddressDecode CashError Base58Error)
    pub get_profile_error : Option (GetProfileError RocksError)
    pub put_profile_error : Option (PutProfileError RocksError DecodeError SecpError)
    pub get_message_error : Option (GetMessageError RocksError FromHexError)
    pub put_message_error : Option (PutMessageError RocksError DecodeError SecpError Node)
    pub payment_error : Option (PaymentError DecodeError Node)
    pub protection_error : Option (ProtectionError Base64Error)
    pub payload_too_large : Bool
    pub is_not_found : Bool

  abbrev pub answer : Response → Exec Wallet (Unit {0}) Response
  answer response = pure response

  unfoldable pub handle_rejection : ℕ → Rejection → Exec Wallet (Unit {0}) Response
  handle_rejection current_time rejection =
      if_found rejection.address_error (λ e. answer (to_response address_status (to_string _) e))
        (if_found rejection.get_profile_error
          (λ e. answer (to_response Profiles.get_status (to_string _) e))
          (if_found rejection.put_profile_error
            (λ e. answer (to_response Profiles.put_status (to_string _) e))
            (if_found rejection.get_message_error
              (λ e. answer (to_response Queries.get_status (to_string _) e))
              (if_found rejection.put_message_error
                (λ e. answer (to_response Queries.put_status (to_string _) e))
                (if_found rejection.payment_error
                  (λ e. answer (to_response Payments.to_status (to_string _) e))
                  (if_found rejection.protection_error
                    (protection_error_recovery slices client base64 hmac encoders settings crates
                      current_time)
                    (if rejection.payload_too_large
                      then answer (with_body 413 [])
                      else if rejection.is_not_found
                      then answer (with_body 404 [])
                      else answer (with_body 500 []))))))))
