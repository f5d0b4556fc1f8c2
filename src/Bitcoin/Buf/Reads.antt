-- ===== src/Bitcoin/Buf/Reads.antt =====
-- What a decoder reads back (`Reads`), with one rule for each way to build a decoder.
use cashweb_backends.Common.{
  ℕ, ◌≤◌, ◌≡◌, refl, ap, ◌∙◌, some, List, [], ◌++◌, append_assoc, append-nil, length, length-append,
  take, drop, take-append, drop-append, arith, le→ltb, from_le_bytes, to_le_bytes,
  length-to_le_bytes, from_le_bytes-to_le_bytes, ◌<◌, ◌^◌,
}
use mathlib.Core.Path.{subst}
use cashweb_backends.Common.Exec.{ok, Exec, pure, ◌>>=◌, ◌>>◌, continue, mapping_err, with_err}
use cashweb_backends.Bitcoin.Buf.{Buf, IsBuf, get_uint, get_slice, require, from_read}

module _ {B : Type 0} ⦃buf : Buf B⦄ (laws : IsBuf buf) where
  -- On a buffer that begins with `xs` the decoder returns `a` and leaves what follows.
  pub record Reads {E A : Type 0} (m : Exec B E A) (xs : List ℕ) (a : A) : Type 0 where
    pub at :
        (b : B) (rest : List ℕ)
        → laws.bytes b ≡ xs ++ rest
        → (b' : B) × (m b ≡ (ok a, b')) × (laws.bytes b' ≡ rest)

module _ {B : Type 0} ⦃buf : Buf B⦄ (laws : IsBuf buf) where
  covers :
      (b : B) (xs rest : List ℕ) (n : ℕ)
      → laws.bytes b ≡ xs ++ rest
      → n ≤ length xs
      → n ≤ length (laws.bytes b)
  covers b xs rest n h le = rw h (omega (arith, length-append xs rest))

  cut :
      (b : B) (xs rest : List ℕ)
      → laws.bytes b ≡ xs ++ rest
      → (take (length xs) (laws.bytes b) ≡ xs) × (drop (length xs) (laws.bytes b) ≡ rest)
  cut b xs rest h = rw h (take-append xs rest, drop-append xs rest)

module _ {B : Type 0} ⦃buf : Buf B⦄ {laws : IsBuf buf} {E : Type 0} where
  pub Reads-pure : {A : Type 0} (a : A) → Reads laws {E = E} (pure a) [] a
  Reads-pure a = record { at = λ b rest h. (b, refl, h) }

  pub Reads-bind :
      {A C : Type 0} {m : Exec B E A} (f : A → Exec B E C) {xs ys : List ℕ} {a : A} {c : C}
      → Reads laws m xs a
      → Reads laws (f a) ys c
      → Reads laws (m >>= f) (xs ++ ys) c
  unfolding ◌>>=◌
  Reads-bind f {xs = xs} {ys = ys} rm rf = record {
    at = λ b rest h.
        let (b1, e1, h1) = rm.at b (ys ++ rest) (h ∙ append_assoc xs ys rest) in
        let (b2, e2, h2) = rf.at b1 rest h1 in (b2, ap (continue f) e1 ∙ e2, h2);
  }

  -- The same, where the rest reads nothing.
  pub Reads-bind_nil :
      {A C : Type 0} {m : Exec B E A} (f : A → Exec B E C) {xs : List ℕ} {a : A} {c : C}
      → Reads laws m xs a
      → Reads laws (f a) [] c
      → Reads laws (m >>= f) xs c
  Reads-bind_nil {m = m} f {xs = xs} {c = c} rm rf =
      subst (λ t. Reads laws (m >>= f) t c) (append-nil xs) (Reads-bind f rm rf)

  pub Reads-mapping_err :
      {D A : Type 0} {m : Exec B D A} {xs : List ℕ} {a : A} (f : D → E)
      → Reads laws m xs a
      → Reads laws (mapping_err f m) xs a
  unfolding mapping_err
  Reads-mapping_err f rm = record {
    at = λ b rest h. let (b1, e1, h1) = rm.at b rest h in (b1, ap (with_err f) e1, h1);
  }

  pub Reads-uint : (xs : List ℕ) → Reads laws {E = E} (get_uint (length xs)) xs (from_le_bytes xs)
  unfolding get_uint
  Reads-uint xs = record {
    at = λ b rest h.
        let (b1, e1, h1) =
          laws.get_uint_le_lem (length xs) b (covers laws b xs rest (length xs) h (omega arith)) in
        let (t, d) = cut laws b xs rest h in
        (b1, ap (λ r. from_read r b) (e1 ∙ ap (λ l. some (from_le_bytes l, b1)) t), h1 ∙ d);
  }

  pub Reads-le : (n v : ℕ) → v < 256 ^ n → Reads laws {E = E} (get_uint n) (to_le_bytes n v) v
  Reads-le n v h =
      rw (length-to_le_bytes n v, from_le_bytes-to_le_bytes n v h) at (Reads-uint (to_le_bytes n v))

  pub Reads-slice : (xs : List ℕ) → Reads laws {E = E} (get_slice (length xs)) xs xs
  unfolding get_slice
  Reads-slice xs = record {
    at = λ b rest h.
        let (b1, e1, h1) =
          laws.copy_to_slice_lem (length xs) b
            (covers laws b xs rest (length xs) h (omega arith)) in
        let (t, d) = cut laws b xs rest h in
        (b1, ap (λ r. from_read r b) (e1 ∙ ap (λ l. some (l, b1)) t), h1 ∙ d);
  }

  pub Reads-slice_of :
      (n : ℕ) (xs : List ℕ) → length xs ≡ n → Reads laws {E = E} (get_slice n) xs xs
  Reads-slice_of n xs e = rw e at (Reads-slice xs)

  pub Reads-require :
      {A : Type 0} {m : Exec B E A} {xs : List ℕ} {a : A} (n : ℕ) (e : E)
      → n ≤ length xs
      → Reads laws m xs a
      → Reads laws (require n e >> m) xs a
  unfolding require ◌>>=◌
  Reads-require {xs = xs} n e le rm = record {
    at = λ b rest h.
        rw (le→ltb (buf.remaining b) n (rw (laws.remaining_lem b) (covers laws b xs rest n h le)))
          (rm.at b rest h);
  }
