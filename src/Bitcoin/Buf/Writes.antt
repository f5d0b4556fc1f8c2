-- ===== src/Bitcoin/Buf/Writes.antt =====
-- What an encoder writes (`Writes`), with one rule for each way to build an encoder.
use cashweb_backends.Common.{
  ℕ, ◌+◌, ◌≤◌, ◌≡◌, refl, sym, ap, ◌∙◌, List, [], ◌++◌, append_assoc, append-nil, length,
  length-append, arith, to_le_bytes, length-to_le_bytes,
}
use cashweb_backends.Common.Exec.{ok, Exec, pure, ◌>>=◌, ◌>>◌, continue}
use cashweb_backends.Bitcoin.Buf.{BufMut, IsBufMut, put_uint, put_bytes, from_write}

module _ {W : Type 0} ⦃buf : BufMut W⦄ (laws : IsBufMut buf) where
  -- With room for `xs` the encoder returns, has appended `xs` and has used up that much room.
  pub record Writes {E : Type 0} (m : Exec W E (Unit {0})) (xs : List ℕ) : Type 0 where
    pub at :
        (w : W)
        → length xs ≤ buf.remaining_mut w
        → (w' : W) × (m w ≡ (ok tt, w'))
          × (laws.written w' ≡ laws.written w ++ xs)
          × (buf.remaining_mut w' + length xs ≡ buf.remaining_mut w)

module _ {W : Type 0} ⦃buf : BufMut W⦄ {laws : IsBufMut buf} {E : Type 0} where
  pub Writes-nothing : Writes laws {E = E} (pure tt) []
  Writes-nothing = record { at = λ w h. (w, refl, sym (append-nil (laws.written w)), omega arith) }

  pub Writes-then :
      {m : Exec W E (Unit {0})} (n : Exec W E (Unit {0})) {xs ys : List ℕ}
      → Writes laws m xs
      → Writes laws n ys
      → Writes laws (m >> n) (xs ++ ys)
  unfolding ◌>>=◌
  Writes-then n {xs = xs} {ys = ys} wm wn = record {
    at = λ w h.
        let both = length-append xs ys in
        let (w1, e1, p1, r1) = wm.at w (omega arith) in
        let (w2, e2, p2, r2) = wn.at w1 (omega arith) in
        (
          w2,
          ap (continue (λ _. n)) e1 ∙ e2,
          p2 ∙ ap (λ t. t ++ ys) p1 ∙ append_assoc (laws.written w) xs ys,
          omega arith,
        );
  }

  pub Writes-uint : (v n : ℕ) → Writes laws {E = E} (put_uint v n) (to_le_bytes n v)
  unfolding put_uint
  Writes-uint v n = record {
    at = λ w h.
        let len = length-to_le_bytes n v in
        let (w1, e1, p1, r1) = laws.put_uint_le_lem v n w (omega arith) in
        (w1, ap (λ r. from_write r w) e1, p1, omega arith);
  }

  pub Writes-bytes : (xs : List ℕ) → Writes laws {E = E} (put_bytes xs) xs
  unfolding put_bytes
  Writes-bytes xs = record {
    at = λ w h.
        let (w1, e1, p1, r1) = laws.put_slice_lem xs w h in
        (w1, ap (λ r. from_write r w) e1, p1, r1);
  }
