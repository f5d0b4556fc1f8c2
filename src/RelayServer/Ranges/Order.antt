-- ===== src/RelayServer/Ranges/Order.antt =====
-- The order of keys, and what a scan that stops at the first key out of range has seen.
use mathlib.Core.List.{Memᴰ}
use mathlib.Core.List.Memᴰ.{head, tail}
use cashweb_backends.Common.{
  ℕ, zero, suc, ◌≡◌, ◌≤◌, ◌↔◌, inl, inr, refl, sym, ap, ◌∙◌, List, [], ◌∷◌, Bool, true, false,
  length, take, drop, All, Bool-cases, subst, arith,
}
use cashweb_backends.Common.Exec.{Outcome, ok}
use cashweb_backends.Common.Exec.Rules.{and_then-eq-ok, value-eq-ok}
use cashweb_backends.RelayServer.Ranges.{bytes_lt, keep, take_while}

pub bytes_lt_trans :
    (xs ys zs : List ℕ) → bytes_lt xs ys ≡ true → bytes_lt ys zs ≡ true → bytes_lt xs zs ≡ true
bytes_lt_trans xs [] zs h k = cc h
bytes_lt_trans xs (y ∷ ys) [] h k = cc k
bytes_lt_trans [] (y ∷ ys) (z ∷ zs) h k = refl
bytes_lt_trans (x ∷ xs) (y ∷ ys) (z ∷ zs) h k = elim (Bool-cases (bytes_lt xs zs)) [
  | inl t ↦ ground (arith, h, k, t)
  | inr f ↦ elim (Bool-cases (bytes_lt xs ys)) [
    | inl a ↦ elim (Bool-cases (bytes_lt ys zs)) [
      | inl b ↦ absurd (cc (bytes_lt_trans xs ys zs a b, f))
      | inr b ↦ ground (arith, h, k, f, a, b)
    ]
    | inr a ↦ ground (arith, h, k, f, a)
  ]
]

-- A key between two with the same beginning has it too.
pub between :
    (n : ℕ) (start xs ys : List ℕ)
    → n ≤ length xs
    → bytes_lt xs start ≡ false
    → bytes_lt xs ys ≡ true
    → take n start ≡ take n ys
    → take n xs ≡ take n ys
between zero start xs ys l h k e = refl
between (suc n) start [] ys l h k e = absurd (omega arith)
between (suc n) start (x ∷ xs) [] l h k e = cc k
between (suc n) [] (x ∷ xs) (y ∷ ys) l h k e = cc e
between (suc n) (s ∷ start) (x ∷ xs) (y ∷ ys) l h k e =
    let same : s ≡ y = cc e in
    let rest : take n start ≡ take n ys = cc e in
    let here : x ≡ y = ground (arith, h, k, same) in
    let above : bytes_lt xs start ≡ false = ground (arith, h, same, here) in
    let below : bytes_lt xs ys ≡ true = ground (arith, k, here) in
    let tails = between n start xs ys (omega arith) above below rest in rw (here, tails) refl

pub bytes_lt-drop :
    (n : ℕ) (xs ys : List ℕ)
    → n ≤ length xs
    → take n xs ≡ take n ys
    → bytes_lt xs ys ≡ true
    → bytes_lt (drop n xs) (drop n ys) ≡ true
bytes_lt-drop zero xs ys l e k = k
bytes_lt-drop (suc n) [] ys l e k = absurd (omega arith)
bytes_lt-drop (suc n) (x ∷ xs) [] l e k = cc k
bytes_lt-drop (suc n) (x ∷ xs) (y ∷ ys) l e k =
    let here : x ≡ y = cc e in
    let rest : take n xs ≡ take n ys = cc e in
    let below : bytes_lt xs ys ≡ true = ground (arith, k, here) in
    bytes_lt-drop n xs ys (omega arith) rest below

module _ {A : Type 0} (Before : A → A → Type 0) where
  abbrev pub Sorted : List A → Type 0
  Sorted [] = Unit
  Sorted (x ∷ xs) = All (Before x) xs × Sorted xs

  all_before : (x z : A) (xs : List A) → All (Before x) xs → Memᴰ z xs → Before x z
  all_before x z [] a m = elim m [ ]
  all_before x z (y ∷ xs) a m = elim m [
    | head e ↦ subst (Before x) (sym e) a.0
    | tail m' ↦ all_before x z xs a.1 m'
  ]

  module _ {E : Type 0} (test : A → Outcome E Bool) where
    -- Where the test holds of all that stands before an element of which it holds.
    abbrev Closed : List A → Type 0
    Closed xs = (x y : A) → Memᴰ x xs → Memᴰ y xs → Before x y → test y ≡ ok true → test x ≡ ok true

    kept_lem :
        (x : A) (xs ys : List A) (kept : Bool)
        → All (Before x) xs
        → Closed (x ∷ xs)
        → test x ≡ ok kept
        → keep x kept (take_while test xs) ≡ ok ys
        → ((rest : List A)
            → take_while test xs ≡ ok rest
            → (z : A) → Memᴰ z rest ↔ (Memᴰ z xs × (test z ≡ ok true)))
        → (z : A) → Memᴰ z ys ↔ (Memᴰ z (x ∷ xs) × (test z ≡ ok true))
    kept_lem x xs ys false before closed t h later z = (
      λ m. elim (subst (Memᴰ z) (sym (value-eq-ok (ok []) h)) m) [ ],
      λ (m, k). elim m [
        | head e ↦ cc (ap test e, k, t)
        | tail m' ↦
            let k' = closed x z (head refl) (tail m') (all_before x z xs before m') k in cc (k', t)
      ],
    )
    kept_lem x xs ys true before closed t h later z =
        let (rest, r, h1) = and_then-eq-ok (take_while test xs) _ h in
        let same : x ∷ rest ≡ ys = value-eq-ok (ok (x ∷ rest)) h1 in
        (
          λ m. elim (subst (Memᴰ z) (sym same) m) [
            | head e ↦ (head e, ap test e ∙ t)
            | tail m' ↦ let (n, k) = (later rest r z).0 m' in (tail n, k)
          ],
          λ (m, k).
              subst (Memᴰ z) same
                (elim m [ head e ↦ head e | tail m' ↦ tail ((later rest r z).1 (m', k)) ]),
        )

    -- On a sorted list the elements before the first that fails the test are all that pass it, where the
    -- test holds of whatever stands before an element of which it holds.
    pub take_while_iff :
        (xs ys : List A)
        → Sorted xs
        → Closed xs
        → take_while test xs ≡ ok ys
        → (z : A) → Memᴰ z ys ↔ (Memᴰ z xs × (test z ≡ ok true))
    unfolding take_while
    take_while_iff [] ys sorted closed h z =
        (λ m. elim (subst (Memᴰ z) (sym (value-eq-ok (ok []) h)) m) [ ], λ (m, k). elim m [ ])
    take_while_iff (x ∷ xs) ys sorted closed h z =
        let (kept, t, h1) = and_then-eq-ok (test x) (λ kept. keep x kept (take_while test xs)) h in
        kept_lem x xs ys kept sorted.0 closed t h1
          (λ rest r. take_while_iff xs rest sorted.1 (λ a b m n. closed a b (tail m) (tail n)) r) z
