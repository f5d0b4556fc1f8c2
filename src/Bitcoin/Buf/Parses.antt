-- ===== src/Bitcoin/Buf/Parses.antt =====
-- What a decoder has taken when it returns, and that it does not panic (`Parses`), with one rule for
-- each way to build a decoder.
use cashweb_backends.Common.{
  ℕ, ◌+◌, ◌≤◌, ◌<◌, ◌^◌, ◌≡◌, refl, sym, ap, ◌∙◌, ◌⊎◌, inl, inr, List, [], ◌++◌, append_assoc,
  length, length-append, length-take, take, drop, take-append-drop, arith, IsByte, IsBytes,
  All-append_left, ltb, ltb→le, Bool-cases, to_le_bytes, from_le_bytes, from_le_bytes-lt,
  to_le_bytes-from_le_bytes,
}
use cashweb_backends.Common.Exec.{
  Outcome, ok, err, panic, Exec, pure, raise, ◌>>=◌, ◌>>◌, continue, mapping_err, with_err,
}
use cashweb_backends.Common.Exec.Rules.{Returns}
use cashweb_backends.Bitcoin.Buf.{Buf, IsBuf, get_uint, get_slice, require}

module _ {B : Type 0} ⦃buf : Buf B⦄ (laws : IsBuf buf) where
  -- With `k` bytes or more at hand the decoder does not panic, and when it returns `a`, it has
  -- taken bytes `xs` from the front that satisfy `Q a`.
  pub record Parses {E A : Type 0} (k : ℕ) (m : Exec B E A) (Q : A → List ℕ → Type 0) : Type 0 where
    pub at :
        (b : B)
        → k ≤ length (laws.bytes b)
        → Returns (λ a b'. (xs : List ℕ) × (laws.bytes b ≡ xs ++ laws.bytes b') × Q a xs) (m b)

map-Returns :
    {B D E A : Type 0} (Q : A → B → Type 0) (f : D → E) (r : Outcome D A × B)
    → Returns Q r
    → Returns Q (with_err f r)
map-Returns Q f (ok a, b) h = h
map-Returns Q f (err d, b) h = tt
map-Returns Q f (panic, b) h = h

module _ {B : Type 0} ⦃buf : Buf B⦄ {laws : IsBuf buf} {E : Type 0} where
  pub Parses-pure :
      {A : Type 0} {Q : A → List ℕ → Type 0} (k : ℕ) (a : A)
      → Q a []
      → Parses laws {E = E} k (pure a) Q
  Parses-pure k a q = record { at = λ b h. ([], refl, q) }

  pub Parses-raise :
      {A : Type 0} {Q : A → List ℕ → Type 0} (k : ℕ) (e : E) → Parses laws k (raise e) Q
  Parses-raise k e = record { at = λ b h. tt }

  bind-Returns :
      {A C : Type 0} (P : A → List ℕ → Type 0) (Q : C → List ℕ → Type 0) (f : A → Exec B E C)
      (k j : ℕ) (b : B) (r : Outcome E A × B)
      → k ≤ length (laws.bytes b)
      → ((a : A) (xs : List ℕ)
          → P a xs
          → (j + length xs ≤ k ⊎ j ≡ 0) × Parses laws j (f a) (λ c ys. Q c (xs ++ ys)))
      → Returns (λ a b'. (xs : List ℕ) × (laws.bytes b ≡ xs ++ laws.bytes b') × P a xs) r
      → Returns
          (λ c b'. (ys : List ℕ) × (laws.bytes b ≡ ys ++ laws.bytes b') × Q c ys)
          (continue f r)
  bind-Returns {C = C} P Q f k j b (ok a, b1) hk next (xs, split, p) =
      let (room, parses) = next a xs p in
      let total : length (laws.bytes b) ≡ length xs + length (laws.bytes b1) =
        ap length split ∙ length-append xs (laws.bytes b1) in
      regroup xs (laws.bytes b) (laws.bytes b1) split (f a b1) (parses.at b1 (ground arith))
    where
      regroup :
          (xs whole part : List ℕ)
          → whole ≡ xs ++ part
          → (r : Outcome E C × B)
          → Returns (λ c b'. (ys : List ℕ) × (part ≡ ys ++ laws.bytes b') × Q c (xs ++ ys)) r
          → Returns (λ c b'. (ys : List ℕ) × (whole ≡ ys ++ laws.bytes b') × Q c ys) r
      regroup xs whole part e (ok c, b2) (ys, e2, q) =
          (xs ++ ys, e ∙ ap (λ t. xs ++ t) e2 ∙ sym (append_assoc xs ys (laws.bytes b2)), q)
      regroup xs whole part e (err x, b2) h = tt
      regroup xs whole part e (panic, b2) h = h
  bind-Returns P Q f k j b (err e, b1) hk next h = tt
  bind-Returns P Q f k j b (panic, b1) hk next h = h

  -- The rest of a decoder has `j` of the `k` bytes left, or asks for none.
  pub Parses-bind :
      {A C : Type 0} {P : A → List ℕ → Type 0} {Q : C → List ℕ → Type 0} {m : Exec B E A}
      (f : A → Exec B E C) {k : ℕ} (j : ℕ)
      → Parses laws k m P
      → ((a : A) (xs : List ℕ)
          → P a xs
          → (j + length xs ≤ k ⊎ j ≡ 0) × Parses laws j (f a) (λ c ys. Q c (xs ++ ys)))
      → Parses laws k (m >>= f) Q
  unfolding ◌>>=◌
  Parses-bind {P = P} {Q = Q} {m = m} f {k = k} j pm pf = record {
    at = λ b h. bind-Returns P Q f k j b (m b) h pf (pm.at b h);
  }

  pub Parses-require :
      {A : Type 0} {Q : A → List ℕ → Type 0} {m : Exec B E A} {k : ℕ} (n : ℕ) (e : E)
      → Parses laws n m Q
      → Parses laws k (require n e >> m) Q
  unfolding require ◌>>=◌
  Parses-require n e pm = record {
    at = λ b h. elim (Bool-cases (ltb (buf.remaining b) n)) [
      | inl short ↦ rw short tt
      | inr enough ↦ rw enough (pm.at b (rw (← laws.remaining_lem b) (ltb→le _ _ enough)))
    ];
  }

  pub Parses-mapping_err :
      {D A : Type 0} {Q : A → List ℕ → Type 0} {m : Exec B D A} {k : ℕ} (f : D → E)
      → Parses laws k m Q
      → Parses laws k (mapping_err f m) Q
  unfolding mapping_err
  Parses-mapping_err {m = m} f pm = record { at = λ b h. map-Returns _ f (m b) (pm.at b h) }

  pub Parses-weaken :
      {A : Type 0} {P Q : A → List ℕ → Type 0} {m : Exec B E A} {k : ℕ} (j : ℕ)
      → j ≤ k
      → ((a : A) (xs : List ℕ) → P a xs → Q a xs)
      → Parses laws j m P
      → Parses laws k m Q
  Parses-weaken {P = P} {Q = Q} {m = m} j le f pm = record {
    at = λ b h. weaken b (m b) (pm.at b (omega arith));
  }
    where
      weaken :
          (b : B) (r : Outcome E _ × B)
          → Returns (λ a b'. (xs : List ℕ) × (laws.bytes b ≡ xs ++ laws.bytes b') × P a xs) r
          → Returns (λ a b'. (xs : List ℕ) × (laws.bytes b ≡ xs ++ laws.bytes b') × Q a xs) r
      weaken b (ok a, b1) (xs, e, p) = (xs, e, f a xs p)
      weaken b (err x, b1) h = tt
      weaken b (panic, b1) h = h

  -- The bytes of an integer that was read are its little-endian bytes.
  pub Parses-uint :
      (n : ℕ) → Parses laws {E = E} n (get_uint n) (λ v xs. (xs ≡ to_le_bytes n v) × (v < 256 ^ n))
  unfolding get_uint
  Parses-uint n = record {
    at = λ b h.
        let (b1, e1, h1) = laws.get_uint_le_lem n b h in
        let taken = take n (laws.bytes b) in
        let full : length taken ≡ n = omega (arith, length-take n (laws.bytes b)) in
        let bytes : IsBytes taken =
          All-append_left IsByte taken (drop n (laws.bytes b))
            (rw (take-append-drop n (laws.bytes b)) (laws.bytes-IsBytes b)) in
        rw e1 (
          taken,
          rw (h1, take-append-drop n (laws.bytes b)),
          (
            sym (to_le_bytes-from_le_bytes taken bytes)
                ∙ ap (λ k. to_le_bytes k (from_le_bytes taken)) full,
            rw full at (from_le_bytes-lt taken bytes),
          ),
        );
  }

  pub Parses-slice :
      (n : ℕ) → Parses laws {E = E} n (get_slice n) (λ v xs. (xs ≡ v) × (length v ≡ n) × IsBytes v)
  unfolding get_slice
  Parses-slice n = record {
    at = λ b h.
        let (b1, e1, h1) = laws.copy_to_slice_lem n b h in
        let taken = take n (laws.bytes b) in
        let bytes : IsBytes taken =
          All-append_left IsByte taken (drop n (laws.bytes b))
            (rw (take-append-drop n (laws.bytes b)) (laws.bytes-IsBytes b)) in
        rw e1 (
          taken,
          rw (h1, take-append-drop n (laws.bytes b)),
          (refl, omega (arith, length-take n (laws.bytes b)), bytes),
        );
  }
