-- ===== src/Relay/Instances.antt =====
-- A concrete instance of the digests, the buffer and the cipher, on which the tests run.
use cashweb_backends.Common.{
  ℕ, ◌%◌, ◌≡◌, refl, ap₂, List, [], ◌∷◌, ◌++◌, length, length-take, take, drop, replicate, IsBytes,
  arith,
}
use cashweb_backends.Common.Exec.{ok}
use cashweb_backends.Bitcoin.Buf.Slice.{Slice, slice_buf, slice_laws}
use cashweb_backends.Bitcoin.Instances.{sum_digest, byte_keys, byte_keys_laws}
use cashweb_backends.Relay.Stamp.{Crypto}
use cashweb_backends.Relay.Stamp.Keys.{IsCrypto}
use cashweb_backends.Relay.Opening.{Cipher, IsCipher}

abbrev pub to_bytes : List ℕ → List ℕ
to_bytes [] = []
to_bytes (x ∷ xs) = (x % 256) ∷ to_bytes xs

pub to_bytes-IsBytes : (xs : List ℕ) → IsBytes (to_bytes xs)
to_bytes-IsBytes [] = tt
to_bytes-IsBytes (x ∷ xs) = (omega arith, to_bytes-IsBytes xs)

pub to_bytes_id : (xs : List ℕ) → IsBytes xs → to_bytes xs ≡ xs
to_bytes_id [] h = refl
to_bytes_id (x ∷ xs) h =
    let head : x % 256 ≡ x = omega arith in ap₂ (λ z zs. z ∷ zs) head (to_bytes_id xs h.1)

abbrev pub small_crypto : Crypto
small_crypto = record {
  secp = byte_keys;
  sha256 = sum_digest;
  ripemd160 = λ xs. replicate 20 (length xs);
  Slice = Slice;
  slice_buf = slice_buf;
  as_slice = λ xs. record { contents = to_bytes xs; valid = to_bytes-IsBytes xs };
}

abbrev pub small_crypto_laws : IsCrypto small_crypto
small_crypto_laws = record {
  secp_laws = byte_keys_laws;
  slice_laws = slice_laws;
  as_slice_lem = to_bytes_id;
  ripemd160_len = λ xs. refl;
}

-- A cipher that changes nothing.
abbrev pub plain_cipher : Cipher
plain_cipher = record {
  Payload = List ℕ;
  PayloadError = Unit {0};
  CipherError = Unit {0};
  decode_payload = λ xs. ok xs;
  encrypt_vec = λ key iv xs. xs;
  decrypt_vec = λ key iv xs. ok xs;
  encrypt_in_place =
      λ key iv buffer pos. (ok tt, take pos buffer ++ drop (length (take pos buffer)) buffer);
  decrypt_in_place = λ key iv xs. (ok tt, xs);
}

abbrev pub plain_cipher_laws : IsCipher plain_cipher
plain_cipher_laws = record {
  decrypt_lem = λ key iv xs. refl;
  encrypt_in_place_lem =
      λ key iv buffer pos. (λ h. refl, λ h. absurd (omega (arith, h, length-take pos buffer)));
}
