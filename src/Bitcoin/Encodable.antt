-- ===== src/Bitcoin/Encodable.antt =====
-- lib/cashweb-bitcoin/src/lib.rs: the trait `Encodable` and the enumeration of networks.
use cashweb_backends.Common.{
  ℕ, ◌+◌, ◌≤◌, ◌<◌, ◌≡◌, refl, List, ◌++◌, length, ltb, if◌then◌else◌, lt→ltb, le→ltb,
}
use cashweb_backends.Common.Exec.{ok, err, Exec}
use cashweb_backends.Bitcoin.Buf.{BufMut, IsBufMut}
use cashweb_backends.Bitcoin.Buf.Writes.{Writes}

pub data InsufficientCapacity : Type 0 where
  insufficient_capacity : InsufficientCapacity

pub record Encodable (W A : Type 0) : Type 0 where
  pub encoded_len : A → ℕ
  pub encode_raw : A → Exec W InsufficientCapacity (Unit {0})

module _ {W A : Type 0} ⦃buf : BufMut W⦄ where
  -- The trait's `encode`.
  unfoldable pub encode : Encodable W A → A → Exec W InsufficientCapacity (Unit {0})
  encode e a w =
      if ltb (buf.remaining_mut w) (e.encoded_len a)
      then (err insufficient_capacity, w)
      else e.encode_raw a w

module _ {W A : Type 0} ⦃buf : BufMut W⦄ (laws : IsBufMut buf) where
  -- An implementation writes `encoding a`, and knows its length beforehand.
  pub record IsEncodable (e : Encodable W A) (encoding : A → List ℕ) (a : A) : Type 0 where
    pub len : e.encoded_len a ≡ length (encoding a)
    pub writes : Writes laws (e.encode_raw a) (encoding a)

  module _ {e : Encodable W A} {encoding : A → List ℕ} {a : A}
      (impl : IsEncodable e encoding a) where
    pub encode-short :
        (w : W)
        → buf.remaining_mut w < length (encoding a)
        → encode e a w ≡ (err insufficient_capacity, w)
    unfolding encode
    encode-short w h = rw impl.len (rw (lt→ltb _ _ h) refl)

    pub encode-room :
        (w : W)
        → length (encoding a) ≤ buf.remaining_mut w
        → (w' : W) × (encode e a w ≡ (ok tt, w'))
          × (laws.written w' ≡ laws.written w ++ encoding a)
          × (buf.remaining_mut w' + length (encoding a) ≡ buf.remaining_mut w)
    unfolding encode
    encode-room w h = rw impl.len (rw (le→ltb _ _ h) (impl.writes.at w h))
