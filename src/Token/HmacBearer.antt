-- ===== src/Token/HmacBearer.antt =====
-- lib/cashweb-token/src/schemes/hmac_bearer.rs. Base64 and the HMAC of `ring` are parameters.
use cashweb_backends.Common.{ℕ, ◌≡◌, ◌↔◌, refl, List, subst}
use cashweb_backends.Common.Exec.{Outcome, ok, and_then, map_err}
use cashweb_backends.Common.Exec.Rules.{and_then-eq-ok, map_err-eq-ok}

-- The URL-safe alphabet without padding.
pub record Base64 : Type 1 where
  pub Base64Error : Type 0
  pub encode : List ℕ → List ℕ
  pub decode : List ℕ → Outcome Base64Error (List ℕ)

pub record IsBase64 (base64 : Base64) : Type 0 where
  pub decode-encode : (xs : List ℕ) → base64.decode (base64.encode xs) ≡ ok xs

pub record Hmac : Type 1 where
  pub Key : Type 0
  pub VerifyFailed : Type 0
  pub new_key : List ℕ → Key
  pub sign : Key → List ℕ → List ℕ
  pub verify : Key → List ℕ → List ℕ → Outcome VerifyFailed (Unit {0})

pub record IsHmac (hmac : Hmac) : Type 0 where
  pub verify_iff :
      (key : hmac.Key) (xs tag : List ℕ)
      → (hmac.verify key xs tag ≡ ok tt) ↔ (tag ≡ hmac.sign key xs)

pub data ValidationError (Base64Error : Type 0) : Type 0 where
  base64_error : Base64Error → ValidationError Base64Error
  invalid : ValidationError Base64Error

module _ (base64 : Base64) (hmac : Hmac) where
  open base64 use {Base64Error, encode, decode}
  open hmac use {Key, new_key, sign, verify}

  unfoldable pub new : List ℕ → Key
  new key = new_key key

  unfoldable pub construct_token : Key → List ℕ → List ℕ
  construct_token key bytes = encode (sign key bytes)

  unfoldable pub validate_token :
      Key → List ℕ → List ℕ → Outcome (ValidationError Base64Error) (Unit {0})
  validate_token key bytes token =
      and_then (map_err base64_error (decode token))
        λ tag. map_err (λ e. invalid) (verify key bytes tag)

module _ {base64 : Base64} {hmac : Hmac} (base64_laws : IsBase64 base64)
    (hmac_laws : IsHmac hmac) where
  validate_iff :
      (key : hmac.Key) (bytes token : List ℕ)
      → (validate_token base64 hmac key bytes token ≡ ok tt)
        ↔ (base64.decode token ≡ ok (hmac.sign key bytes))
  unfolding validate_token
  validate_iff key bytes token = (
    λ h.
        let (tag, d, h1) = and_then-eq-ok (map_err base64_error (base64.decode token)) _ h in
        let same = (hmac_laws.verify_iff key bytes tag).0 (map_err-eq-ok _ _ h1) in
        subst (λ t. base64.decode token ≡ ok t) same (map_err-eq-ok _ _ d),
    λ d. rw (d, (hmac_laws.verify_iff key bytes (hmac.sign key bytes)).1 refl) refl,
  )

  -- A token validates for some data exactly when it decodes to their HMAC, as every constructed token
  -- does; and a token constructed for other data validates only if both have the same HMAC.
  pub validate_token-construct_token :
      (key : hmac.Key) (bytes other token : List ℕ)
      → ((validate_token base64 hmac key bytes token ≡ ok tt)
          ↔ (base64.decode token ≡ ok (hmac.sign key bytes)))
        × (validate_token base64 hmac key bytes (construct_token base64 hmac key bytes) ≡ ok tt)
        × (validate_token base64 hmac key bytes (construct_token base64 hmac key other) ≡ ok tt
            → hmac.sign key other ≡ hmac.sign key bytes)
  unfolding validate_token construct_token
  validate_token-construct_token key bytes other token =
      let (found, finds) = validate_iff key bytes token in
      let own = (hmac_laws.verify_iff key bytes (hmac.sign key bytes)).1 refl in
      (
        (found, finds),
        rw (base64_laws.decode-encode (hmac.sign key bytes), own) refl,
        λ h.
            let valid : map_err (λ e. invalid) (hmac.verify key bytes (hmac.sign key other))
                ≡ ok tt =
              subst
                (λ r.
                  and_then {E = ValidationError base64.Base64Error} (map_err base64_error r)
                    (λ tag. map_err (λ e. invalid) (hmac.verify key bytes tag))
                  ≡ ok tt)
                (base64_laws.decode-encode (hmac.sign key other)) h in
            (hmac_laws.verify_iff key bytes (hmac.sign key other)).0 (map_err-eq-ok _ _ valid),
      )
