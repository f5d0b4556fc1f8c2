-- ===== src/Payments/Bip70.antt =====
-- The messages of lib/cashweb-payments/src/proto/paymentrequest.proto and how they are encoded, a parameter; and
-- the invoice that both servers send.
use cashweb_backends.Common.{
  ℕ, List, [], ◌∷◌, Option, none, some, Bool, true, false, ◌&&◌, bytes_eq, ◌==◌,
}
use cashweb_backends.Payments.Wallet.{Equal}

pub record Output : Type 0 where
  pub amount : Option ℕ
  pub script : List ℕ

pub record Payment : Type 0 where
  pub merchant_data : Option (List ℕ)
  pub transactions : List (List ℕ)
  pub refund_to : List Output
  pub memo : Option (List ℕ)

pub record PaymentAck : Type 0 where
  pub payment : Payment
  pub memo : Option (List ℕ)

pub record PaymentDetails : Type 0 where
  pub network : Option (List ℕ)
  pub outputs : List Output
  pub time : ℕ
  pub expires : Option ℕ
  pub memo : Option (List ℕ)
  pub payment_url : Option (List ℕ)
  pub merchant_data : Option (List ℕ)

pub record PaymentRequest : Type 0 where
  pub payment_details_version : Option ℕ
  pub pki_type : Option (List ℕ)
  pub pki_data : Option (List ℕ)
  pub serialized_payment_details : List ℕ
  pub signature : Option (List ℕ)

pub record Encoders : Type 0 where
  pub encode_ack : PaymentAck → List ℕ
  pub encode_details : PaymentDetails → List ℕ
  pub encode_request : PaymentRequest → List ℕ

-- What the configuration of a server sets.
pub record Settings : Type 0 where
  pub memo : List ℕ
  pub network : List ℕ
  pub token_fee : ℕ
  -- In milliseconds.
  pub timeout : ℕ

abbrev pub amount_eq : Option ℕ → Option ℕ → Bool
amount_eq none none = true
amount_eq none (some b) = false
amount_eq (some a) none = false
amount_eq (some a) (some b) = a == b

-- `PartialEq` of outputs.
abbrev pub output_equal : Equal Output
output_equal = record {
  eq = λ (a b : Output). amount_eq a.amount b.amount && bytes_eq a.script b.script;
}

abbrev pub key_equal : Equal (List ℕ)
key_equal = record { eq = bytes_eq }

-- "/payments"
abbrev pub payment_url : List ℕ
payment_url = 47 ∷ 112 ∷ 97 ∷ 121 ∷ 109 ∷ 101 ∷ 110 ∷ 116 ∷ 115 ∷ []

-- "none"
abbrev pub pki_none : List ℕ
pki_none = 110 ∷ 111 ∷ 110 ∷ 101 ∷ []

unfoldable pub invoice : Encoders → PaymentDetails → List ℕ
invoice encoders details = encoders.encode_request (record {
  payment_details_version = some 1;
  pki_type = some pki_none;
  pki_data = none;
  serialized_payment_details = encoders.encode_details details;
  signature = none;
})
