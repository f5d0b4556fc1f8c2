-- ===== src/Bitcoin/Instances.antt =====
-- Small concrete instances of the third-party interfaces, on which the tests run: a digest, a byte
-- vector, and keys that are lists of 32 numbers added place by place.
use cashweb_backends.Common.{
  ℕ, ◌+◌, ◌-◌, ◌%◌, ◌^◌, ◌≡◌, refl, ap, ap₂, ◌∙◌, List, [], ◌∷◌, replicate, length, ◌==◌,
  if◌then◌else◌, arith,
}
use cashweb_backends.Common.Exec.{Outcome, ok, err}
use cashweb_backends.Bitcoin.Buf.Slice.{Room, room_laws}
use cashweb_backends.Bitcoin.Buf.ByteVec.{ByteVec, IsByteVec}
use cashweb_backends.Bitcoin.Secp.{Secp, IsSecp}

abbrev pub sum_digest : List ℕ → List ℕ
sum_digest xs = replicate 32 (length xs % 256)

abbrev pub room_vec : ByteVec Room
room_vec = record {
  empty = record { contents = []; room = 2 ^ 63 - 1 };
  as_slice = λ w. w.contents;
}

abbrev pub room_is_vec : IsByteVec room_laws room_vec
room_is_vec = record { as_slice_lem = λ w. refl; empty_lem = refl; empty_room = omega arith }

abbrev pub add_bytes : List ℕ → List ℕ → List ℕ
add_bytes [] ys = []
add_bytes (x ∷ xs) [] = []
add_bytes (x ∷ xs) (y ∷ ys) = (x + y) ∷ add_bytes xs ys

pub add_bytes_comm : (xs ys : List ℕ) → add_bytes xs ys ≡ add_bytes ys xs
add_bytes_comm [] [] = refl
add_bytes_comm [] (y ∷ ys) = refl
add_bytes_comm (x ∷ xs) [] = refl
add_bytes_comm (x ∷ xs) (y ∷ ys) =
    let heads : x + y ≡ y + x = omega arith in ap₂ (λ z zs. z ∷ zs) heads (add_bytes_comm xs ys)

abbrev pub key_of : List ℕ → Outcome (Unit {0}) (List ℕ)
key_of xs = if length xs == 32 then ok xs else err tt

abbrev pub byte_keys : Secp
byte_keys = record {
  PublicKey = List ℕ;
  SecretKey = List ℕ;
  SecpError = Unit {0};
  serialize = λ key. key;
  secret_bytes = λ key. key;
  secret_from_slice = key_of;
  from_secret_key = λ key. key;
  add_exp_assign = λ key tweak. ok (add_bytes key tweak);
  add_assign = λ key tweak. ok (add_bytes key tweak);
  combine = λ key other. ok (add_bytes key other);
  hmac_sha512 = λ key xs. replicate 64 (length xs % 256);
  hmac_sha256 = λ key xs. replicate 32 (length xs % 256);
  public_from_slice = λ xs. ok xs;
  mul_assign = λ key tweak. ok (add_bytes key tweak);
}

pub key_of_lem : (xs key : List ℕ) → key_of xs ≡ ok key → key ≡ xs
key_of_lem xs key h = ground arith

abbrev pub byte_keys_laws : IsSecp byte_keys
byte_keys_laws = record {
  add_exp_lem = λ tweak key sum h. ap ok (add_bytes_comm key tweak) ∙ h;
  combine_lem = λ key tweak sum h. h;
  secret_from_slice_lem = key_of_lem;
  serialize_lem = λ key. refl;
  mul_lem = λ a b. ap ok (add_bytes_comm a b);
  hmac_sha256_len = λ key xs. refl;
}
