-- ===== src/Payments/Preprocess.antt =====
-- lib/cashweb-payments/src/lib.rs. The values of the headers are byte strings, and the decoder of payments
-- is a parameter.
use cashweb_backends.Common.{
  ℕ, ◌≡◌, ◌↔◌, refl, List, [], ◌∷◌, Bool, true, false, not, ◌||◌, if◌then◌else◌, bytes_eq,
}
use cashweb_backends.Common.Exec.{Outcome, ok, err, map_err}
use cashweb_backends.Common.Exec.Rules.{if-eq-ok, map_err-eq-ok}

pub data PreprocessingError (DecodeError : Type 0) : Type 0 where
  missing_accept_header missing_content_type_header : PreprocessingError DecodeError
  payment_decode : DecodeError → PreprocessingError DecodeError

-- What `get_all` returns for the two headers.
pub record Headers : Type 0 where
  pub content_type : List (List ℕ)
  pub accept : List (List ℕ)

-- "application/bitcoincash-payment"
abbrev pub content_type_value : List ℕ
content_type_value =
    97 ∷ 112 ∷ 112 ∷ 108 ∷ 105 ∷ 99 ∷ 97 ∷ 116 ∷ 105 ∷ 111 ∷ 110 ∷ 47 ∷ 98 ∷ 105 ∷ 116 ∷ 99 ∷ 111
    ∷ 105 ∷ 110 ∷ 99 ∷ 97 ∷ 115 ∷ 104 ∷ 45 ∷ 112 ∷ 97 ∷ 121 ∷ 109 ∷ 101 ∷ 110 ∷ 116 ∷ []

-- "application/bitcoincash-paymentack"
abbrev pub accept_value : List ℕ
accept_value =
    97 ∷ 112 ∷ 112 ∷ 108 ∷ 105 ∷ 99 ∷ 97 ∷ 116 ∷ 105 ∷ 111 ∷ 110 ∷ 47 ∷ 98 ∷ 105 ∷ 116 ∷ 99 ∷ 111
    ∷ 105 ∷ 110 ∷ 99 ∷ 97 ∷ 115 ∷ 104 ∷ 45 ∷ 112 ∷ 97 ∷ 121 ∷ 109 ∷ 101 ∷ 110 ∷ 116 ∷ 97 ∷ 99 ∷ 107
    ∷ []

-- `iter().any(|header_val| header_val == value)`
abbrev pub any_eq : List ℕ → List (List ℕ) → Bool
any_eq value [] = false
any_eq value (x ∷ xs) = bytes_eq x value || any_eq value xs

not-eq-false : (b : Bool) → not b ≡ false → b ≡ true
not-eq-false true h = refl
not-eq-false false h = cc

module _ {Payment DecodeError : Type 0} (decode : List ℕ → Outcome DecodeError Payment) where
  unfoldable pub preprocess_payment :
      Headers → List ℕ → Outcome (PreprocessingError DecodeError) Payment
  preprocess_payment headers body =
      if not (any_eq content_type_value headers.content_type)
      then err missing_content_type_header
      else if not (any_eq accept_value headers.accept)
      then err missing_accept_header
      else map_err payment_decode (decode body)

  -- A payment comes back exactly when both headers have the values of the payment protocol among
  -- theirs and the body decodes to it. Without the content type that is the error, whatever the rest.
  pub preprocess_payment_iff :
      (headers : Headers) (body : List ℕ) (payment : Payment)
      → ((preprocess_payment headers body ≡ ok payment) ↔ (
          (any_eq content_type_value headers.content_type ≡ true)
          × (any_eq accept_value headers.accept ≡ true)
          × (decode body ≡ ok payment)))
        × (any_eq content_type_value headers.content_type ≡ false
            → preprocess_payment headers body ≡ err missing_content_type_header)
  unfolding preprocess_payment
  preprocess_payment_iff headers body payment = (
    (
      λ h.
          let (c, h1) = if-eq-ok (not (any_eq content_type_value headers.content_type)) _ _ h in
          let (a, h2) = if-eq-ok (not (any_eq accept_value headers.accept)) _ _ h1 in
          (
            not-eq-false (any_eq content_type_value headers.content_type) c,
            not-eq-false (any_eq accept_value headers.accept) a,
            map_err-eq-ok _ _ h2,
          ),
      λ (c, a, d). rw (c, a, d) refl,
    ),
    λ c. rw c refl,
  )
