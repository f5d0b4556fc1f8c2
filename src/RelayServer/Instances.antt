-- ===== src/RelayServer/Instances.antt =====
-- A database in memory as an instance of the interface, on which the tests run: an association list, and
-- an iterator that sorts it.
use cashweb_backends.Common.{
  ℕ, ◌≡◌, ◌≢◌, inl, inr, refl, sym, ap, ◌∙◌, List, [], ◌∷◌, none, some, true, false, if◌then◌else◌,
  bytes_eq, bytes_eq→eq, bytes_eq_refl, Bool-cases, ◌==◌, subst,
}
use cashweb_backends.Common.Exec.{ok}
use cashweb_backends.Payments.Wallet.{Equal, lookup, remove, insert}
use cashweb_backends.Payments.Wallet.Invoices.{IsEqual, lookup-remove, lookup-remove_other}
use cashweb_backends.RelayServer.Rocks.{Rocks, IsRocks}
use cashweb_backends.RelayServer.Ranges.{bytes_lt}

abbrev pub byte_strings : Equal (List ℕ)
byte_strings = record { eq = bytes_eq }

abbrev pub bytes : Equal ℕ
bytes = record { eq = λ a b. a == b }

pub equal_bytes : (a b : List ℕ) → a ≡ b → bytes_eq a b ≡ true
equal_bytes a b e = ap (bytes_eq a) (sym e) ∙ bytes_eq_refl a

abbrev pub byte_strings_laws : IsEqual byte_strings
byte_strings_laws = record { eq_iff = λ a b. (bytes_eq→eq a b, equal_bytes a b) }

pub differ : (a b : List ℕ) → a ≢ b → bytes_eq a b ≡ false
differ a b n = elim (Bool-cases (bytes_eq a b)) [
  | inl same ↦ absurd (n (bytes_eq→eq a b same))
  | inr other ↦ other
]

abbrev pub Memory : Type 0
Memory = List (List ℕ × List ℕ)

abbrev pub insert_sorted : List ℕ × List ℕ → Memory → Memory
insert_sorted entry [] = entry ∷ []
insert_sorted entry (next ∷ entries) =
    let rest = insert_sorted entry entries in
    if bytes_lt entry.0 next.0 then entry ∷ next ∷ entries else next ∷ rest

abbrev pub sorted_from : List ℕ → Memory → Memory
sorted_from start [] = []
sorted_from start (entry ∷ entries) =
    let rest = sorted_from start entries in
    if bytes_lt entry.0 start then rest else insert_sorted entry rest

abbrev pub memory : Rocks Memory
memory = record {
  RocksError = Unit {0};
  get = λ key d. ok (lookup byte_strings bytes key d);
  put = λ key value d. (ok tt, insert byte_strings bytes key value d);
  delete = λ key d. (ok tt, remove byte_strings bytes key d);
  iterator = sorted_from;
}

pub lookup-insert :
    (key value : List ℕ) (d : Memory)
    → (lookup byte_strings bytes key (insert byte_strings bytes key value d) ≡ some value)
      × ((other : List ℕ)
          → other ≢ key
          → lookup byte_strings bytes other (insert byte_strings bytes key value d)
            ≡ lookup byte_strings bytes other d)
lookup-insert key value d = (
  rw (bytes_eq_refl key) refl,
  λ other n.
      rw (differ other key n)
        (lookup-remove_other byte_strings bytes byte_strings_laws key other d (differ other key n)),
)

pub put_law :
    (key value : List ℕ) (d d' : Memory)
    → insert byte_strings bytes key value d ≡ d'
    → (lookup byte_strings bytes key d' ≡ some value)
      × ((other : List ℕ)
          → other ≢ key
          → lookup byte_strings bytes other d' ≡ lookup byte_strings bytes other d)
put_law key value d d' e =
    subst
      (λ z.
        (lookup byte_strings bytes key z ≡ some value)
        × ((other : List ℕ)
            → other ≢ key
            → lookup byte_strings bytes other z ≡ lookup byte_strings bytes other d))
      e (lookup-insert key value d)

pub delete_law :
    (key : List ℕ) (d d' : Memory)
    → remove byte_strings bytes key d ≡ d'
    → (lookup byte_strings bytes key d' ≡ none)
      × ((other : List ℕ)
          → other ≢ key
          → lookup byte_strings bytes other d' ≡ lookup byte_strings bytes other d)
delete_law key d d' e =
    subst
      (λ z.
        (lookup byte_strings bytes key z ≡ none)
        × ((other : List ℕ)
            → other ≢ key
            → lookup byte_strings bytes other z ≡ lookup byte_strings bytes other d))
      e
      (
        lookup-remove byte_strings bytes byte_strings_laws key d,
        λ other n.
            lookup-remove_other byte_strings bytes byte_strings_laws key other d
              (differ other key n),
      )

abbrev pub memory_laws : IsRocks memory
memory_laws = record {
  contents = λ d key. lookup byte_strings bytes key d;
  get_lem = λ key d. inl refl;
  put_lem = λ key value d d' h. put_law key value d d' (ap (λ z. z.1) h);
  delete_lem = λ key d d' h. delete_law key d d' (ap (λ z. z.1) h);
}
