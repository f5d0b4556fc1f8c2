-- ===== src/Bitcoin/Transaction/Wire.antt =====
-- What the encoder and the decoder of transactions promise to their callers.
use cashweb_backends.Common.{ℕ, ◌≤◌, ◌<◌, ◌≡◌, ap, ◌∙◌, List, ◌++◌, length, ◌+◌, arith}
use cashweb_backends.Common.Exec.{Outcome, ok, err, panic}
use cashweb_backends.Common.Exec.Rules.{Returns}
use cashweb_backends.Bitcoin.Buf.{Buf, BufMut, IsBuf, IsBufMut}
use cashweb_backends.Bitcoin.Encodable.{
  Encodable, IsEncodable, encode, insufficient_capacity, encode-short, encode-room,
}
use cashweb_backends.Bitcoin.Transaction.{Transaction, DecodeError, encoded_len, encode_raw, decode}
use cashweb_backends.Bitcoin.Transaction.Encoding.{
  encoding, IsValid, encoded_len-encoding, encode_raw-Writes,
}
use cashweb_backends.Bitcoin.Transaction.Decoding.{decode-Reads, decode-Parses}

-- `impl Encodable for Transaction`
instance abbrev pub transaction_encodable : {W : Type 0} ⦃buf : BufMut W⦄ → Encodable W Transaction
transaction_encodable = record { encoded_len = encoded_len; encode_raw = encode_raw }

module _ {B : Type 0} ⦃buf : Buf B⦄ (laws : IsBuf buf) where
  -- On any buffer that begins with the encoding of a valid transaction, the decoder returns that
  -- transaction and leaves exactly the bytes that follow it.
  pub decode-encoding :
      (tx : Transaction)
      → IsValid tx
      → (b : B) (rest : List ℕ) → laws.bytes b ≡ encoding tx ++ rest
      → (b' : B) × (decode b ≡ (ok tx, b')) × (laws.bytes b' ≡ rest)
  decode-encoding tx v = (decode-Reads laws tx v).at

  Returns-encoding :
      (b : B) (r : Outcome DecodeError Transaction × B)
      → Returns
          (λ tx b'.
            (xs : List ℕ) × (laws.bytes b ≡ xs ++ laws.bytes b')
            × ((xs ≡ encoding tx) × IsValid tx))
          r
      → Returns (λ tx b'. (laws.bytes b ≡ encoding tx ++ laws.bytes b') × IsValid tx) r
  Returns-encoding b (ok tx, b') (xs, e, (f, v)) = (e ∙ ap (λ t. t ++ laws.bytes b') f, v)
  Returns-encoding b (err x, b') h = h
  Returns-encoding b (panic, b') h = h

  -- Whatever a buffer holds, the decoder does not panic on it, and when it returns a transaction,
  -- the transaction is valid and the bytes taken are its encoding and no others.
  pub decode_canonical :
      (b : B)
      → Returns (λ tx b'. (laws.bytes b ≡ encoding tx ++ laws.bytes b') × IsValid tx) (decode b)
  decode_canonical b = Returns-encoding b (decode b) ((decode-Parses laws).at b (omega arith))

module _ {W : Type 0} ⦃buf : BufMut W⦄ (laws : IsBufMut buf) where
  transaction-IsEncodable :
      (tx : Transaction) → IsValid tx → IsEncodable laws transaction_encodable encoding tx
  transaction-IsEncodable tx v = record {
    len = encoded_len-encoding tx v;
    writes = encode_raw-Writes laws tx;
  }

  -- `encode` of a valid transaction either finds too little room, returns the error and leaves the
  -- buffer as it was, or appends the encoding, all of it, and never panics.
  pub encode-encoding :
      (tx : Transaction)
      → IsValid tx
      → (w : W)
      → (buf.remaining_mut w < length (encoding tx)
          → encode transaction_encodable tx w ≡ (err insufficient_capacity, w))
        × (length (encoding tx) ≤ buf.remaining_mut w
            → (w' : W) × (encode transaction_encodable tx w ≡ (ok tt, w'))
              × (laws.written w' ≡ laws.written w ++ encoding tx)
              × (buf.remaining_mut w' + length (encoding tx) ≡ buf.remaining_mut w))
  encode-encoding tx v w =
      let impl = transaction-IsEncodable tx v in (encode-short laws impl w, encode-room laws impl w)
