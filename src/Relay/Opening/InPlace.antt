-- ===== src/Relay/Opening/InPlace.antt =====
-- What an encryption in place leaves in its buffer.
use cashweb_backends.Common.{ℕ, ◌≡◌, ◌≤◌, ◌<◌, refl, List, [], ◌++◌, length, take, drop, arith}
use cashweb_backends.Common.Exec.{ok, panic, ◌>>=◌}
use cashweb_backends.Relay.Stamp.{Crypto}
use cashweb_backends.Relay.Opening.{Cipher, IsCipher, split_key, encrypt_payload_in_place}

-- Nothing of the payload is encrypted: a payload of a block or more has its first block overwritten with the
-- encryption of the empty payload, whatever it was, and keeps the rest as it was; a shorter one panics. The
-- shared key has 32 bytes, and the encryption of the empty payload is one block of padding.
encrypt_payload_in_place_lem :
    {E : Type 0} (crypto : Crypto) (cipher : Cipher) (shared_key payload : List ℕ)
    → IsCipher cipher
    → length shared_key ≡ 32
    → length (cipher.encrypt_vec (take 16 shared_key) (drop 16 shared_key) []) ≡ 16
    → (16 ≤ length payload
        → encrypt_payload_in_place crypto cipher {E = E} shared_key payload ≡ (
          ok tt,
          cipher.encrypt_vec (take 16 shared_key) (drop 16 shared_key) [] ++ drop 16 payload,
        ))
      × (length payload < 16
          → encrypt_payload_in_place crypto cipher {E = E} shared_key payload ≡ (panic, payload))
unfolding encrypt_payload_in_place split_key ◌>>=◌
encrypt_payload_in_place_lem crypto cipher shared_key payload laws key_len block_len =
    let key = take 16 shared_key in
    let iv = drop 16 shared_key in
    let (fits, short) = laws.encrypt_in_place_lem key iv payload 0 in
    (
      λ h. let done = fits (omega (arith, h, block_len)) in rw (key_len, done, block_len) refl,
      λ h. let (e, failed) = short (omega (arith, h, block_len)) in rw (key_len, failed) refl,
    )
