-- ===== src/RelayServer/Ranges/Complete.antt =====
-- Which entries of the database a range has, and which messages a request between two times gets.
use mathlib.Core.List.{Memᴰ}
use cashweb_backends.Common.{
  ℕ, ◌≡◌, ◌≤◌, ◌↔◌, refl, sym, ◌∙◌, List, Option, none, some, Bool, true, false, if◌then◌else◌, ltb,
  le→ltb, length, take, drop, bytes_eq, bytes_eq→eq, bytes_eq_refl, subst,
}
use cashweb_backends.Common.Exec.{Outcome, ok, panic}
use cashweb_backends.Common.Exec.Rules.{and_then-eq-ok, value-eq-ok}
use cashweb_backends.Common.Slices.{slice_to, slice_from}
use cashweb_backends.Relay.Message.{Message}
use cashweb_backends.RelayServer.Rocks.{Rocks, IsRocks}
use cashweb_backends.RelayServer.Ranges.{
  bytes_lt, in_namespace, before_end_key, and_before, in_range, entries_in_range,
}
use cashweb_backends.RelayServer.Ranges.Order.{
  bytes_lt_trans, between, bytes_lt-drop, Sorted, take_while_iff,
}

abbrev pub Entry : Type 0
Entry = List ℕ × List ℕ

abbrev pub KeyBefore : Entry → Entry → Type 0
KeyBefore x y = bytes_lt x.0 y.0 ≡ true

-- What the iterator of the `rocksdb` crate gives from a key on: the entries of the database whose keys are
-- not before it, in the order of the keys.
pub record IsIteration {D : Type 0} (rocks : Rocks D) (laws : IsRocks rocks) (start : List ℕ)
    (d : D) : Type 0 where
  pub sorted : Sorted KeyBefore (rocks.iterator start d)
  pub entries_lem :
      (key value : List ℕ)
      → Memᴰ (key, value) (rocks.iterator start d)
        ↔ ((laws.contents d key ≡ some value) × (bytes_lt key start ≡ false))

pub slice_ok :
    {E : Type 0} (short : Bool) (xs ys : List ℕ)
    → ◌≡◌ {A = Outcome E (List ℕ)} (if short then panic else ok xs) (ok ys)
    → xs ≡ ys
slice_ok true xs ys h = cc h
slice_ok false xs ys h = cc h

long : (n : ℕ) (xs : List ℕ) → n ≤ length xs → ltb (length xs) n ≡ false
long n xs h = le→ltb _ _ h

inside_true :
    {E : Type 0} (inside : Bool) (rest : Outcome E Bool)
    → and_before inside rest ≡ ok true
    → (inside ≡ true) × (rest ≡ ok true)
inside_true true rest h = (refl, h)
inside_true false rest h = cc h

pub in_range-true :
    {E : Type 0} (namespace key : List ℕ) (end : Option (List ℕ))
    → in_range {E = E} namespace end key ≡ ok true
    → (take 21 key ≡ namespace) × (before_end_key {E = E} end key ≡ ok true)
unfolding in_range in_namespace
in_range-true {E = E} namespace key end h =
    let (inside, i, h1) = and_then-eq-ok (in_namespace {E = E} namespace key) _ h in
    let (own, s, i1) = and_then-eq-ok (slice_to {E = E} 21 key) _ i in
    let (is_own, rest) = inside_true {E = E} inside (before_end_key end key) h1 in
    let cut : take 21 key ≡ own = slice_ok {E = E} (ltb (length key) 21) (take 21 key) own s in
    let same : bytes_eq own namespace ≡ inside = value-eq-ok (ok (bytes_eq own namespace)) i1 in
    (cut ∙ bytes_eq→eq own namespace (same ∙ is_own), rest)

in_range-ok :
    {E : Type 0} (namespace key : List ℕ) (end : Option (List ℕ))
    → 21 ≤ length key
    → take 21 key ≡ namespace
    → before_end_key {E = E} end key ≡ ok true
    → in_range {E = E} namespace end key ≡ ok true
unfolding in_range in_namespace
in_range-ok {E = E} namespace key end l t b = rw (long 21 key l, t, bytes_eq_refl namespace, b) refl

before_end-closed :
    {E : Type 0} (end : Option (List ℕ)) (x y : List ℕ)
    → 21 ≤ length x
    → take 21 x ≡ take 21 y
    → bytes_lt x y ≡ true
    → before_end_key {E = E} end y ≡ ok true
    → before_end_key {E = E} end x ≡ ok true
unfolding before_end_key
before_end-closed none x y l t h k = refl
before_end-closed {E = E} (some e) x y l t h k =
    let (rest, r, k1) = and_then-eq-ok (slice_from {E = E} 21 y) _ k in
    let (end_rest, s, k2) = and_then-eq-ok (slice_from {E = E} 21 e) _ k1 in
    let cut : drop 21 y ≡ rest = slice_ok {E = E} (ltb (length y) 21) (drop 21 y) rest r in
    let below : bytes_lt rest end_rest ≡ true = value-eq-ok (ok (bytes_lt rest end_rest)) k2 in
    let under : bytes_lt (drop 21 x) (drop 21 y) ≡ true = bytes_lt-drop 21 x y l t h in
    let down : bytes_lt (drop 21 x) end_rest ≡ true =
      bytes_lt_trans (drop 21 x) rest end_rest
        (subst (λ z. bytes_lt (drop 21 x) z ≡ true) cut under) below in
    rw (long 21 x l, s, down) refl

module _ {DecodeError : Type 0} (decode : List ℕ → Outcome DecodeError Message)
    (sha256 : List ℕ → List ℕ) {D : Type 0} (rocks : Rocks D) (laws : IsRocks rocks) where
  open laws use {contents}

  -- The entries of a range are exactly those of the database whose keys are not before its start and
  -- pass its test. The iterator gives the entries from a key on in the order of the keys, and every key
  -- has room for an address and a namespace.
  pub entries_in_range_iff :
      (start : List ℕ) (end : Option (List ℕ)) (d : D) (entries : List Entry)
      → IsIteration rocks laws start d
      → ((key value : List ℕ) → contents d key ≡ some value → 21 ≤ length key)
      → entries_in_range decode sha256 rocks start end d ≡ ok entries
      → (key value : List ℕ)
      → Memᴰ (key, value) entries ↔ (
          (contents d key ≡ some value)
          × (bytes_lt key start ≡ false)
          × (in_range {E = rocks.RocksError} (take 21 start) end key ≡ ok true))
  unfolding entries_in_range
  entries_in_range_iff start end d entries iteration roomy h key value =
      let (own, s, h1) = and_then-eq-ok (slice_to {E = rocks.RocksError} 21 start) _ h in
      let cut : take 21 start ≡ own =
        slice_ok {E = rocks.RocksError} (ltb (length start) 21) (take 21 start) own s in
      let scan =
        take_while_iff KeyBefore
          (λ (entry : Entry). in_range {E = rocks.RocksError} own end entry.0)
          (rocks.iterator start d) entries iteration.sorted
          (λ x y m n b k.
            let (cx, sx) = (iteration.entries_lem x.0 x.1).0 m in
            let (t, rest) = in_range-true {E = rocks.RocksError} own y.0 end k in
            let l = roomy x.0 x.1 cx in
            let as_y : take 21 x.0 ≡ take 21 y.0 = between 21 start x.0 y.0 l sx b (cut ∙ sym t) in
            in_range-ok {E = rocks.RocksError} own x.0 end l (as_y ∙ t)
              (before_end-closed {E = rocks.RocksError} end x.0 y.0 l as_y b rest))
          h1 (key, value) in
      (
        λ m.
            let (n, k) = scan.0 m in
            let (c, b) = (iteration.entries_lem key value).0 n in
            (c, b, subst (λ z. in_range {E = rocks.RocksError} z end key ≡ ok true) (sym cut) k),
        λ (c, b, k). scan.1 (
          (iteration.entries_lem key value).1 (c, b),
          subst (λ z. in_range {E = rocks.RocksError} z end key ≡ ok true) cut k,
        ),
      )
