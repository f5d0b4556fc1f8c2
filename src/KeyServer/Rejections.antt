-- ===== src/KeyServer/Rejections.antt =====
-- keyserver/src/net/mod.rs: the addresses of routes, and how a rejection becomes a response. The crate of
-- addresses, the texts of errors and what `warp` finds in a rejection are parameters.
use cashweb_backends.Common.{ℕ, List, [], Option, Bool, if◌then◌else◌}
use cashweb_backends.Common.Exec.{Outcome, map_err}
use cashweb_backends.BitcoinClient.{BitcoinClient, NodeError}
use cashweb_backends.Bitcoin.Buf.{BufMut}
use cashweb_backends.Bitcoin.Buf.ByteVec.{ByteVec}
use cashweb_backends.Http.{Response, to_response, with_body}
use cashweb_backends.Payments.Bip70.{Encoders, Settings}
use cashweb_backends.Token.HmacBearer.{Base64}
use cashweb_backends.Token.ChainCommitment.{Chain}
use cashweb_backends.RelayServer.Rejections.{if_found}
use cashweb_backends.KeyServer.Metadata as Metadata
use cashweb_backends.KeyServer.Metadata.{ProtectionError, GetMetadataError, PutMetadataError}
use cashweb_backends.KeyServer.Payments as Payments
use cashweb_backends.KeyServer.Payments.{PaymentError, protection_error_recovery}
use cashweb_backends.KeyServer.Peering as Peering
use cashweb_backends.KeyServer.Peering.{PeeringUnavailable}

pub data AddressDecode (CashError Base58Error : Type 0) : Type 0 where
  decode_failed : CashError × Base58Error → AddressDecode CashError Base58Error

-- An address is its body.
unfoldable pub address_decode :
    {CashError Base58Error : Type 0}
    → (List ℕ → Outcome (CashError × Base58Error) (List ℕ))
    → List ℕ
    → Outcome (AddressDecode CashError Base58Error) (List ℕ)
address_decode decode addr_str = map_err decode_failed (decode addr_str)

unfoldable pub address_status : {C B : Type 0} → AddressDecode C B → ℕ
address_status (decode_failed e) = 400

module _ (client : BitcoinClient) (base64 : Base64) (chain : Chain) (encoders : Encoders)
    (settings : Settings) (to_string : (E : Type 0) → E → List ℕ) {EncodingError : Type 0}
    (encode_address : List ℕ → Outcome EncodingError (List ℕ)) {W : Type 0} ⦃buf : BufMut W⦄
    (vec : ByteVec W) (CashError Base58Error RocksError DecodeError SecpError : Type 0) where
  open client use {RpcError, JsonError, FromHexError}

  abbrev pub Node : Type 0
  Node = NodeError RpcError JsonError FromHexError

  abbrev pub Protection : Type 0
  Protection = ProtectionError DecodeError base64.Base64Error chain.NodeError

  -- What `find` gives for each type of error.
  pub record Rejection : Type 0 where
    pub address_error : Option (AddressDecode CashError Base58Error)
    pub get_metadata_error : Option (GetMetadataError RocksError)
    pub put_metadata_error : Option (PutMetadataError RocksError SecpError)
    pub payment_error : Option (PaymentError DecodeError Node EncodingError)
    pub peering_error : Option PeeringUnavailable
    pub protection_error : Option Protection
    pub payload_too_large : Bool
    pub is_not_found : Bool

  unfoldable pub handle_rejection : ℕ → Rejection → Response
  handle_rejection current_time rejection =
      if_found rejection.address_error (to_response address_status (to_string _)) (
        if_found rejection.get_metadata_error (to_response Metadata.get_status (to_string _)) (
          if_found rejection.put_metadata_error (to_response Metadata.put_status (to_string _)) (
            if_found rejection.payment_error (to_response Payments.to_status (to_string _)) (
              if_found rejection.peering_error (to_response Peering.to_status (to_string _)) (
                if_found rejection.protection_error
                  (protection_error_recovery client base64 chain encoders settings encode_address
                    vec (to_string _) (to_string _) current_time)
                  (if rejection.payload_too_large
                    then with_body 413 []
                    else if rejection.is_not_found
                    then with_body 404 []
                    else with_body 500 []))))))
