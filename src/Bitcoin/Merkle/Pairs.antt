-- ===== src/Bitcoin/Merkle/Pairs.antt =====
-- One level of the tree, without the in-place loop: neighbours hashed together.
use cashweb_backends.Common.{
  ℕ, zero, suc, ◌+◌, ◌*◌, ◌/◌, ◌≡◌, refl, sym, ap, ◌∙◌, List, [], ◌∷◌, ◌++◌, append_assoc,
  append-nil, length, length-append, get_or, set, take, drop, take-append, ◌==◌, arith, true, false,
}
use cashweb_backends.Bitcoin.Merkle.{Hash, null_hash, sha256d, pair_hash, pair_loop}

module _ {ℓ} {A : Type ℓ} where
  get_or-append :
      (xs ys : List A) (i j : ℕ) (d : A) → j ≡ length xs + i → get_or (xs ++ ys) j d ≡ get_or ys i d
  get_or-append [] ys i j d e = let f : j ≡ i = omega arith in rw f
  get_or-append (x ∷ xs) ys i zero d e = absurd (omega arith)
  get_or-append (x ∷ xs) ys i (suc j) d e = get_or-append xs ys i j d (omega arith)

  set-append : (xs ys : List A) (v : A) → set (xs ++ ys) (length xs) v ≡ xs ++ set ys 0 v
  set-append [] ys v = refl
  set-append (x ∷ xs) ys v = ap (λ t. x ∷ t) (set-append xs ys v)

  take_front : (xs ys : List A) (k : ℕ) → length xs ≡ k → take k (xs ++ ys) ≡ xs
  take_front xs ys k e = rw (← e) (take-append xs ys)

  -- A write at the front of what follows `xs`.
  set_front :
      (xs used : List A) (x : A) (r : List A) (k : ℕ) (v : A)
      → length xs ≡ k
      → set (xs ++ (used ++ (x ∷ r))) k v ≡ (xs ++ (v ∷ [])) ++ drop 1 (used ++ (x ∷ r))
  set_front xs [] x r k v e = rw (← e) (set-append xs (x ∷ r) v ∙ sym (append_assoc xs (v ∷ []) r))
  set_front xs (u ∷ used) x r k v e =
      rw (← e)
        (set-append xs (u ∷ (used ++ (x ∷ r))) v ∙ sym (append_assoc xs (v ∷ []) (used ++ (x ∷ r))))

  -- Two more hashes are used, and one of the used ones is overwritten.
  used_after : List A → A → A → List A
  used_after used x y = drop 1 (used ++ (x ∷ y ∷ []))

  drop_used :
      (used : List A) (x y : A) (r : List A)
      → drop 1 (used ++ (x ∷ y ∷ r)) ≡ used_after used x y ++ r
  unfolding used_after
  drop_used [] x y r = refl
  drop_used (u ∷ used) x y r = sym (append_assoc used (x ∷ y ∷ []) r)

  length-used_after : (used : List A) (x y : A) → length (used_after used x y) ≡ length used + 1
  unfolding used_after
  length-used_after [] x y = refl
  length-used_after (u ∷ used) x y = omega (arith, length-append used (x ∷ y ∷ []))

module _ (sha256 : List ℕ → Hash) where
  unfoldable pub pair_up : List Hash → List Hash
  pair_up [] = []
  pair_up (x ∷ []) = sha256d sha256 (x ++ null_hash) ∷ []
  pair_up (x ∷ y ∷ r) = sha256d sha256 (x ++ y) ∷ pair_up r

  pub length-pair_up : (hs : List Hash) → length (pair_up hs) ≡ (length hs + 1) / 2
  unfolding pair_up
  length-pair_up [] = omega arith
  length-pair_up (x ∷ []) = omega arith
  length-pair_up (x ∷ y ∷ r) = omega (arith, length-pair_up r)

  module _ (len i : ℕ) (front : List Hash) (whole : length front ≡ i + i) where
    last_pair :
        (x : Hash)
        → len ≡ i + i + 1
        → pair_hash sha256 len i (front ++ (x ∷ [])) ≡ sha256d sha256 (x ++ null_hash)
    unfolding pair_hash
    last_pair x f =
        let odd : (2 * i + 1 == len) ≡ true = ground arith in
        rw (get_or-append front (x ∷ []) 0 (2 * i) null_hash (omega arith), odd)

    full_pair :
        (x y : Hash) (r : List Hash)
        → len ≡ i + i + (2 + length r)
        → pair_hash sha256 len i (front ++ (x ∷ y ∷ r)) ≡ sha256d sha256 (x ++ y)
    unfolding pair_hash
    full_pair x y r f =
        let even : (2 * i + 1 == len) ≡ false = ground arith in
        rw (
          get_or-append front (x ∷ y ∷ r) 0 (2 * i) null_hash (omega arith),
          even,
          get_or-append front (x ∷ y ∷ r) 1 (2 * i + 1) null_hash (omega arith),
        )

  -- After `i` rounds the slice holds `i` results, `i` hashes already used, and the rest.
  pair_loop_lem :
      (len n i : ℕ) (done used rest : List Hash)
      → length done ≡ i
      → length used ≡ i
      → len ≡ i + i + length rest
      → n ≡ (length rest + 1) / 2
      → take (i + n) (pair_loop sha256 len n i (done ++ (used ++ rest))) ≡ done ++ pair_up rest
  unfolding pair_loop pair_up
  pair_loop_lem len zero i done used [] d u l n =
      rw (append-nil done) (take_front done (used ++ []) (i + 0) (omega arith))
  pair_loop_lem len (suc n) i done used [] d u l e = absurd (omega arith)
  pair_loop_lem len zero i done used (x ∷ []) d u l e = absurd (omega arith)
  pair_loop_lem len (suc n) i done used (x ∷ []) d u l e =
      let h = sha256d sha256 (x ++ null_hash) in
      let none_left : n ≡ 0 = omega arith in
      let hashed : pair_hash sha256 len i (done ++ (used ++ (x ∷ []))) ≡ h =
        rw (← append_assoc done used (x ∷ []))
          (last_pair len i (done ++ used) (omega (arith, length-append done used)) x l) in
      rw (hashed, set_front done used x [] i h d, none_left)
        (take_front (done ++ (h ∷ [])) _ (i + 1) (omega (arith, length-append done (h ∷ []))))
  pair_loop_lem len zero i done used (x ∷ y ∷ r) d u l e = absurd (omega arith)
  pair_loop_lem len (suc n) i done used (x ∷ y ∷ r) d u l e =
      let h = sha256d sha256 (x ++ y) in
      let next : i + suc n ≡ i + 1 + n = omega arith in
      let hashed : pair_hash sha256 len i (done ++ (used ++ (x ∷ y ∷ r))) ≡ h =
        rw (← append_assoc done used (x ∷ y ∷ r)) (
          full_pair len i (done ++ used) (omega (arith, length-append done used)) x y r
            (omega arith)) in
      rw (hashed, set_front done used x (y ∷ r) i h d, drop_used used x y r, next)
        (pair_loop_lem len n (i + 1) (done ++ (h ∷ [])) (used_after used x y) r
            (omega (arith, length-append done (h ∷ []))) (omega (arith, length-used_after used x y))
            (omega arith) (omega arith)
          ∙ append_assoc done (h ∷ []) (pair_up r))

  -- The in-place loop leaves the level above in the front half of the slice.
  pub pair_loop-eq-pair_up :
      (hs : List Hash) (n : ℕ)
      → n ≡ (length hs + 1) / 2
      → take n (pair_loop sha256 (length hs) n 0 hs) ≡ pair_up hs
  pair_loop-eq-pair_up hs n e =
      let k : n ≡ 0 + n = omega arith in
      ap (λ t. take t (pair_loop sha256 (length hs) n 0 hs)) k
      ∙ pair_loop_lem (length hs) n 0 [] [] hs refl refl (omega arith) e
