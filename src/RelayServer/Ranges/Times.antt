-- ===== src/RelayServer/Ranges/Times.antt =====
-- The order of the keys of an address is that of the times in them.
use mathlib.Core.List.{reverse-cons}
use native.Mathlib.Nat.{pow-succ'}
use cashweb_backends.Common.{
  ℕ, zero, suc, ◌*◌, ◌/◌, ◌%◌, ◌^◌, ◌<◌, ◌≡◌, refl, sym, ap, ap₂, ◌∙◌, List, [], ◌∷◌, ◌++◌,
  append_assoc, append-nil, Option, some, Bool, true, false, ◌&&◌, ◌||◌, length, length-append,
  take, take-append, drop, drop-append, ltb, le→ltb, ◌==◌, bytes_eq, bytes_eq_refl, to_be_bytes,
  to_le_bytes, subst, arith,
}
use cashweb_backends.Common.Exec.{ok}
use cashweb_backends.RelayServer.Database.{key_of, msg_prefix}
use cashweb_backends.Common.Slices.{slice_to, slice_from}
use cashweb_backends.RelayServer.Ranges.{bytes_lt, in_namespace, before_end_key, in_range}

-- One number before another, or equal and `rest`.
abbrev before : ℕ → ℕ → Bool → Bool
before v w rest = ltb v w || ((v == w) && rest)

before-digits :
    (v w : ℕ) (rest : Bool)
    → before (v / 256) (w / 256) (before (v % 256) (w % 256) rest) ≡ before v w rest
before-digits v w true = ground arith
before-digits v w false = ground arith

to_be_bytes-suc :
    (n v : ℕ) (xs : List ℕ)
    → to_be_bytes (suc n) v ++ xs ≡ to_be_bytes n (v / 256) ++ ((v % 256) ∷ xs)
to_be_bytes-suc n v xs =
    ap (λ t. t ++ xs) (reverse-cons (v % 256) (to_le_bytes n (v / 256)))
    ∙ append_assoc (to_be_bytes n (v / 256)) ((v % 256) ∷ []) xs

bytes_lt-to_be_bytes :
    (n v w : ℕ) (xs ys : List ℕ)
    → v < 256 ^ n
    → w < 256 ^ n
    → bytes_lt (to_be_bytes n v ++ xs) (to_be_bytes n w ++ ys) ≡ before v w (bytes_lt xs ys)
bytes_lt-to_be_bytes zero v w xs ys hv hw =
    let v_0 : v ≡ 0 = omega arith in let w_0 : w ≡ 0 = omega arith in rw (v_0, w_0) refl
bytes_lt-to_be_bytes (suc n) v w xs ys hv hw =
    let p : 256 ^ suc n ≡ 256 * 256 ^ n = pow-succ' 256 n in
    ap₂ bytes_lt (to_be_bytes-suc n v xs) (to_be_bytes-suc n w ys)
    ∙ bytes_lt-to_be_bytes n (v / 256) (w / 256) ((v % 256) ∷ xs) ((w % 256) ∷ ys) (omega arith)
        (omega arith)
    ∙ before-digits v w (bytes_lt xs ys)

bytes_lt-prefix : (xs ys zs : List ℕ) → bytes_lt (xs ++ ys) (xs ++ zs) ≡ bytes_lt ys zs
bytes_lt-prefix [] ys zs = refl
bytes_lt-prefix (x ∷ xs) ys zs =
    let not_less : ltb x x ≡ false = ground arith in
    let equal : (x == x) ≡ true = ground arith in rw (not_less, equal) (bytes_lt-prefix xs ys zs)

slice_to-append :
    {E : Type 0} (n : ℕ) (xs ys : List ℕ) → length xs ≡ n → slice_to {E = E} n (xs ++ ys) ≡ ok xs
slice_to-append {E = E} n xs ys h =
    let long : ltb (length (xs ++ ys)) n ≡ false =
      le→ltb _ _ (omega (arith, length-append xs ys)) in
    let cut : take n (xs ++ ys) ≡ xs = subst (λ k. take k (xs ++ ys) ≡ xs) h (take-append xs ys) in
    rw (long, cut) refl

slice_from-append :
    {E : Type 0} (n : ℕ) (xs ys : List ℕ) → length xs ≡ n → slice_from {E = E} n (xs ++ ys) ≡ ok ys
slice_from-append {E = E} n xs ys h =
    let long : ltb (length (xs ++ ys)) n ≡ false =
      le→ltb _ _ (omega (arith, length-append xs ys)) in
    let cut : drop n (xs ++ ys) ≡ ys = subst (λ k. drop k (xs ++ ys) ≡ ys) h (drop-append xs ys) in
    rw (long, cut) refl

-- The address and the namespace, which a range keeps to.
abbrev pub namespace_of : List ℕ → ℕ → List ℕ
namespace_of pubkey_hash namespace = pubkey_hash ++ (namespace ∷ [])

in_range_own :
    {E : Type 0} (own rest end_rest : List ℕ)
    → length own ≡ 21
    → in_range {E = E} own (some (own ++ end_rest)) (own ++ rest) ≡ ok (bytes_lt rest end_rest)
unfolding in_range in_namespace before_end_key
in_range_own {E = E} own rest end_rest h =
    rw
      (
        slice_to-append {E = E} 21 own rest h,
        bytes_eq_refl own,
        slice_from-append {E = E} 21 own rest h,
        slice_from-append {E = E} 21 own end_rest h,
      )
      refl

in_range_other :
    {E : Type 0} (own other rest : List ℕ) (end_prefix : Option (List ℕ))
    → length other ≡ 21
    → bytes_eq other own ≡ false
    → in_range {E = E} own end_prefix (other ++ rest) ≡ ok false
unfolding in_range in_namespace
in_range_other {E = E} own other rest end_prefix h differ =
    rw (slice_to-append {E = E} 21 other rest h, differ) refl

bytes_lt-nil : (xs : List ℕ) → bytes_lt xs [] ≡ false
bytes_lt-nil [] = refl
bytes_lt-nil (x ∷ xs) = refl

before-false : (v w : ℕ) → before v w false ≡ ltb v w
before-false v w = ground arith

time_lt :
    (time other : ℕ) (head : List ℕ)
    → time < 2 ^ 64
    → other < 2 ^ 64
    → bytes_lt (to_be_bytes 8 time ++ head) (to_be_bytes 8 other) ≡ ltb time other
time_lt time other head h k =
    ap (bytes_lt (to_be_bytes 8 time ++ head)) (sym (append-nil (to_be_bytes 8 other)))
    ∙ bytes_lt-to_be_bytes 8 time other head [] (omega arith) (omega arith)
    ∙ ap (before time other) (bytes_lt-nil head)
    ∙ before-false time other

-- For an address of 20 bytes and times of 64 bits, the key of a message stands before the key that a
-- range starts at exactly when its time is before the start, and it passes the test of the range
-- exactly when its time is before the end. A key of another address or another namespace does not pass.
pub in_range-time :
    {E : Type 0} (pubkey_hash head : List ℕ) (namespace time start end : ℕ)
    → length pubkey_hash ≡ 20
    → time < 2 ^ 64
    → start < 2 ^ 64
    → end < 2 ^ 64
    → (slice_to {E = E} 21 (msg_prefix pubkey_hash start namespace)
        ≡ ok (namespace_of pubkey_hash namespace))
      × (bytes_lt
            (key_of pubkey_hash namespace (to_be_bytes 8 time) head)
            (msg_prefix pubkey_hash start namespace)
          ≡ ltb time start)
      × (in_range {E = E}
            (namespace_of pubkey_hash namespace)
            (some (msg_prefix pubkey_hash end namespace))
            (key_of pubkey_hash namespace (to_be_bytes 8 time) head)
          ≡ ok (ltb time end))
      × ((other rest : List ℕ)
          → length other ≡ 21
          → bytes_eq other (namespace_of pubkey_hash namespace) ≡ false
          → in_range {E = E}
              (namespace_of pubkey_hash namespace)
              (some (msg_prefix pubkey_hash end namespace))
              (other ++ rest)
            ≡ ok false)
unfolding msg_prefix
in_range-time {E = E} pubkey_hash head namespace time start end h t s e =
    let own = namespace_of pubkey_hash namespace in
    let own_length : length own ≡ 21 = length-append pubkey_hash (namespace ∷ []) ∙ omega arith in
    let split : (xs : List ℕ) → own ++ xs ≡ pubkey_hash ++ (namespace ∷ xs) =
      append_assoc pubkey_hash (namespace ∷ []) in
    (
      subst (λ z. slice_to {E = E} 21 z ≡ ok own) (split _)
          (slice_to-append {E = E} 21 own (to_be_bytes 8 start) own_length),
      ap₂ bytes_lt (sym (split _)) (sym (split _))
          ∙ bytes_lt-prefix own (to_be_bytes 8 time ++ head) (to_be_bytes 8 start)
          ∙ time_lt time start head t s,
      ap₂ (λ x y. in_range {E = E} own (some x) y) (sym (split _)) (sym (split _))
          ∙ in_range_own {E = E} own (to_be_bytes 8 time ++ head) (to_be_bytes 8 end) own_length
          ∙ ap ok (time_lt time end head t e),
      λ other rest len differ. in_range_other {E = E} own other rest _ len differ,
    )
