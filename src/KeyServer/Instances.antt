-- ===== src/KeyServer/Instances.antt =====
-- A coding of wrappers in which every field comes behind its length, on which the tests run.
use cashweb_backends.Common.{
  ℕ, zero, suc, ◌≡◌, refl, List, [], ◌∷◌, ◌++◌, length, take, drop, take-append, drop-append,
}
use cashweb_backends.Common.Exec.{Outcome, ok, err, and_then}
use cashweb_backends.AuthWrapper.{AuthWrapper, BurnOutputs}

abbrev pub encode_field : List ℕ → List ℕ → List ℕ
encode_field field rest = length field ∷ (field ++ rest)

abbrev pub encode_burns : List BurnOutputs → List ℕ
encode_burns [] = []
encode_burns (burn ∷ burns) = encode_field burn.tx (burn.index ∷ encode_burns burns)

abbrev pub encode : AuthWrapper → List ℕ
encode w = encode_field w.public_key (
    encode_field w.signature (
      w.scheme
      ∷ encode_field w.payload (
          encode_field w.payload_digest
            (w.burn_amount ∷ length w.transactions ∷ encode_burns w.transactions))))

module _ {A : Type 0} where
  abbrev pub read_field : List ℕ → (List ℕ → List ℕ → Outcome (Unit {0}) A) → Outcome (Unit {0}) A
  read_field [] next = err tt
  read_field (n ∷ xs) next = next (take n xs) (drop n xs)

  abbrev pub read_number : List ℕ → (ℕ → List ℕ → Outcome (Unit {0}) A) → Outcome (Unit {0}) A
  read_number [] next = err tt
  read_number (n ∷ xs) next = next n xs

abbrev pub decode_burns : ℕ → List ℕ → Outcome (Unit {0}) (List BurnOutputs)
decode_burns zero xs = ok []
decode_burns (suc n) xs = read_field xs λ tx rest. read_number rest λ index rest'.
    and_then (decode_burns n rest') λ burns. ok (record { tx = tx; index = index } ∷ burns)

abbrev pub decode : List ℕ → Outcome (Unit {0}) AuthWrapper
decode xs = read_field xs λ public_key r1. read_field r1 λ signature r2. read_number r2 λ scheme r3.
    read_field r3 λ payload r4. read_field r4 λ payload_digest r5. read_number r5 λ burn_amount r6.
      read_number r6 λ count r7. and_then (decode_burns count r7) λ transactions. ok (record {
        public_key = public_key;
        signature = signature;
        scheme = scheme;
        payload = payload;
        payload_digest = payload_digest;
        burn_amount = burn_amount;
        transactions = transactions;
      })

decode_burns-encode :
    (burns : List BurnOutputs) → decode_burns (length burns) (encode_burns burns) ≡ ok burns
decode_burns-encode [] = refl
decode_burns-encode (burn ∷ burns) =
    rw
      (
        take-append burn.tx (burn.index ∷ encode_burns burns),
        drop-append burn.tx (burn.index ∷ encode_burns burns),
        decode_burns-encode burns,
      )
      refl

pub decode-encode : (w : AuthWrapper) → decode (encode w) ≡ ok w
decode-encode w =
    let r5 = w.burn_amount ∷ length w.transactions ∷ encode_burns w.transactions in
    let r4 = encode_field w.payload_digest r5 in
    let r3 = encode_field w.payload r4 in
    let r2 = w.scheme ∷ r3 in
    let r1 = encode_field w.signature r2 in
    rw
      (
        take-append w.public_key r1,
        drop-append w.public_key r1,
        take-append w.signature r2,
        drop-append w.signature r2,
        take-append w.payload r4,
        drop-append w.payload r4,
        take-append w.payload_digest r5,
        drop-append w.payload_digest r5,
        decode_burns-encode w.transactions,
      )
      refl
