-- ===== src/Relay/Opening.antt =====
-- lib/cashweb-relay/src/lib.rs: encrypting and opening payloads, and pages. Protobuf's decoder of payloads
-- and AES-128-CBC with PKCS #7 are parameters.
pub mod Outcomes
pub mod InPlace
use cashweb_backends.Common.{
  ℕ, ◌≡◌, ◌≤◌, ◌<◌, List, ◌++◌, map, length, take, drop, if◌then◌else◌, ◌==◌,
}
use cashweb_backends.Common.Exec.{
  Outcome, ok, err, panic, Exec, and_then, map_err, unwrap_ok, continue, with_err, lift, pure,
  ◌>>=◌, ◌>>◌,
}
use cashweb_backends.Bitcoin.Secp.{Secp}
use cashweb_backends.Bitcoin.Transaction.{Transaction}
use cashweb_backends.Relay.Stamp.{Crypto, StampError}
use cashweb_backends.Relay.Message.{
  Message, ParsedMessage, create_shared_key, parsed_authenticate, parsed_verify_stamp,
}

pub record Cipher : Type 1 where
  pub Payload : Type 0
  pub PayloadError : Type 0
  pub CipherError : Type 0
  pub decode_payload : List ℕ → Outcome PayloadError Payload
  pub encrypt_vec : List ℕ → List ℕ → List ℕ → List ℕ
  pub decrypt_vec : List ℕ → List ℕ → List ℕ → Outcome CipherError (List ℕ)
  -- The key, the initial vector, the buffer, and where the plaintext in it ends.
  pub encrypt_in_place : List ℕ → List ℕ → List ℕ → ℕ → Outcome CipherError (Unit {0}) × List ℕ
  pub decrypt_in_place : List ℕ → List ℕ → List ℕ → Outcome CipherError (Unit {0}) × List ℕ

-- What the cipher encrypts it decrypts with the same key and initial vector. In place, the plaintext at the
-- beginning of a buffer is overwritten with what it is encrypted to, padding included, if that fits.
pub record IsCipher (cipher : Cipher) : Type 0 where
  pub decrypt_lem :
      (key iv plaintext : List ℕ)
      → cipher.decrypt_vec key iv (cipher.encrypt_vec key iv plaintext) ≡ ok plaintext
  pub encrypt_in_place_lem :
      (key iv buffer : List ℕ) (pos : ℕ)
      → let ciphertext = cipher.encrypt_vec key iv (take pos buffer) in
        (length ciphertext ≤ length buffer
          → cipher.encrypt_in_place key iv buffer pos
            ≡ (ok tt, ciphertext ++ drop (length ciphertext) buffer))
        × (length buffer < length ciphertext
            → (e : cipher.CipherError) × (cipher.encrypt_in_place key iv buffer pos
                ≡ (err e, buffer)))

pub record Opened (Payload : Type 0) : Type 0 where
  pub txs : List Transaction
  pub payload : Payload

pub data OpenError (SecpError PayloadError CipherError : Type 0) : Type 0 where
  stamp_error : StampError → OpenError SecpError PayloadError CipherError
  shared_key_error : SecpError → OpenError SecpError PayloadError CipherError
  authentication : OpenError SecpError PayloadError CipherError
  payload_error : PayloadError → OpenError SecpError PayloadError CipherError
  decrypt_error : CipherError → OpenError SecpError PayloadError CipherError

-- `split_at(16)` and the two arrays of 16 bytes: any other length panics.
unfoldable pub split_key : {E : Type 0} → List ℕ → Outcome E (List ℕ × List ℕ)
split_key shared_key =
    if length shared_key == 32 then ok (take 16 shared_key, drop 16 shared_key) else panic

module _ (crypto : Crypto) (cipher : Cipher) where
  open crypto use {secp}
  open secp use {PublicKey, SecpError}
  open cipher use {
    Payload, PayloadError, CipherError, decode_payload, encrypt_vec, decrypt_vec, encrypt_in_place,
    decrypt_in_place,
  }

  abbrev pub Error : Type 0
  Error = OpenError SecpError PayloadError CipherError

  unfoldable pub encrypt_payload : {E : Type 0} → List ℕ → List ℕ → Outcome E (List ℕ)
  encrypt_payload shared_key plaintext =
      and_then (split_key shared_key) λ halves. ok (encrypt_vec halves.0 halves.1 plaintext)

  abbrev pub unwrapped :
      {E : Type 0} → Outcome CipherError (Unit {0}) × List ℕ → Outcome E (Unit {0}) × List ℕ
  unwrapped (r, payload) = (unwrap_ok r, payload)

  -- The end of the plaintext is given as 0.
  abbrev pub encrypt_halves : {E : Type 0} → List ℕ × List ℕ → Exec (List ℕ) E (Unit {0})
  encrypt_halves halves payload = unwrapped (encrypt_in_place halves.0 halves.1 payload 0)

  unfoldable pub encrypt_payload_in_place : {E : Type 0} → List ℕ → Exec (List ℕ) E (Unit {0})
  encrypt_payload_in_place shared_key = do
    halves ← lift (split_key shared_key)
    encrypt_halves halves

  -- The first three steps of both ways to open: the stamp, the shared key, the HMAC.
  unfoldable pub admit :
      ParsedMessage PublicKey → List ℕ → Outcome Error (List Transaction × (List ℕ × List ℕ))
  admit p private_key = and_then (map_err stamp_error (parsed_verify_stamp crypto p)) λ txs.
      and_then
        (map_err shared_key_error (create_shared_key crypto p.source_public_key private_key p.salt))
        λ shared_key.
          and_then (map_err (λ e. authentication) (parsed_authenticate crypto p shared_key))
            λ u. and_then (split_key shared_key) λ halves. ok (txs, halves)

  unfoldable pub open_message : ParsedMessage PublicKey → List ℕ → Outcome Error (Opened Payload)
  open_message p private_key = and_then (admit p private_key) λ admitted.
      and_then (map_err decrypt_error (decrypt_vec admitted.1.0 admitted.1.1 p.payload))
        λ plaintext.
          and_then (map_err payload_error (decode_payload p.payload))
            λ payload. ok (record { txs = admitted.0; payload = payload })

  -- The buffer after `decrypt` is the message's payload from then on, also when it fails.
  unfoldable pub decrypt_payload : List ℕ × List ℕ → Exec (ParsedMessage PublicKey) Error (Unit {0})
  decrypt_payload halves p =
      let result = decrypt_in_place halves.0 halves.1 p.payload in
      (map_err decrypt_error result.0, record p { payload = result.1 })

  unfoldable pub decode_self : Exec (ParsedMessage PublicKey) Error Payload
  decode_self p = (map_err payload_error (decode_payload p.payload), p)

  unfoldable pub decode_opened :
      List Transaction → Exec (ParsedMessage PublicKey) Error (Opened Payload)
  decode_opened txs = do payload ← decode_self; pure (record { txs = txs; payload = payload })

  unfoldable pub open_admitted :
      List Transaction × (List ℕ × List ℕ) → Exec (ParsedMessage PublicKey) Error (Opened Payload)
  open_admitted admitted = do decrypt_payload admitted.1; decode_opened admitted.0

  unfoldable pub open_in_place : List ℕ → Exec (ParsedMessage PublicKey) Error (Opened Payload)
  open_in_place private_key = do admitted ← λ p. (admit p private_key, p); open_admitted admitted

pub record MessagePage : Type 0 where
  pub messages : List Message
  pub start_time : ℕ
  pub end_time : ℕ
  pub start_digest : List ℕ
  pub end_digest : List ℕ

pub record PayloadPage : Type 0 where
  pub payloads : List (List ℕ)
  pub start_time : ℕ
  pub end_time : ℕ
  pub start_digest : List ℕ
  pub end_digest : List ℕ

unfoldable pub into_payload_page : MessagePage → PayloadPage
into_payload_page page = record {
  payloads = map (λ (m : Message). m.payload) page.messages;
  start_time = page.start_time;
  end_time = page.end_time;
  start_digest = page.start_digest;
  end_digest = page.end_digest;
}
