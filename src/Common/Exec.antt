-- ===== src/Common/Exec.antt =====
-- Code that reads and writes a state `S` and ends in `Ok`, `Err` or a panic. What was written before
-- an error stays written, so the state comes back beside every outcome.
pub mod Rules
use mathlib.Core.Bool.{Bool, true, false}
use mathlib.Core.Option.{Option, none, some}

-- A Rust `Result`, and the panic that ends a call without one.
pub data Outcome {ℓ κ} (E : Type ℓ) (A : Type κ) : Type (ℓ ⊔ κ) where
  ok : A → Outcome E A
  err : E → Outcome E A
  panic : Outcome E A

abbrev pub Exec {ℓ κ μ} : Type ℓ → Type κ → Type μ → Type (ℓ ⊔ κ ⊔ μ)
Exec S E A = S → Outcome E A × S

-- An `Option` as a `Result`: `ok_or`.
abbrev pub ok_or {ℓ κ} : {E : Type ℓ} {A : Type κ} → Option A → E → Outcome E A
ok_or none e = err e
ok_or (some a) e = ok a

-- `unwrap` and `expect` of an `Option`.
abbrev pub unwrap {ℓ κ} : {E : Type ℓ} {A : Type κ} → Option A → Outcome E A
unwrap none = panic
unwrap (some a) = ok a

-- `unwrap` of a `Result`.
abbrev pub unwrap_ok {ℓ κ μ} : {D : Type μ} {E : Type ℓ} {A : Type κ} → Outcome D A → Outcome E A
unwrap_ok (ok a) = ok a
unwrap_ok (err d) = panic
unwrap_ok panic = panic

abbrev pub map_err {ℓ κ μ} :
    {D : Type μ} {E : Type ℓ} {A : Type κ} → (D → E) → Outcome D A → Outcome E A
map_err f (ok a) = ok a
map_err f (err d) = err (f d)
map_err f panic = panic

abbrev pub and_then {ℓ κ μ} :
    {E : Type ℓ} {A : Type κ} {B : Type μ} → Outcome E A → (A → Outcome E B) → Outcome E B
and_then (ok a) f = f a
and_then (err e) f = err e
and_then panic f = panic

module _ {ℓ κ μ} {S : Type ℓ} {E : Type κ} {A : Type μ} where
  abbrev pub pure : A → Exec S E A
  pure a s = (ok a, s)

  abbrev pub raise : E → Exec S E A
  raise e s = (err e, s)

  abbrev pub lift : Outcome E A → Exec S E A
  lift r s = (r, s)

  -- A call that gives a value and the state after it; `none` is a panic.
  abbrev pub from_option : Option (A × S) → S → Outcome E A × S
  from_option none s = (panic, s)
  from_option (some (a, s')) s = (ok a, s')

module _ {ℓ κ μ ν} {S : Type ℓ} {E : Type κ} {A : Type μ} {B : Type ν} where
  abbrev pub continue : (A → Exec S E B) → Outcome E A × S → Outcome E B × S
  continue f (ok a, s) = f a s
  continue f (err e, s) = (err e, s)
  continue f (panic, s) = (panic, s)

  infixl 5 ◌>>=◌ ◌>>◌
  unfoldable pub ◌>>=◌ : Exec S E A → (A → Exec S E B) → Exec S E B
  ◌>>=◌ m f s = continue f (m s)

  abbrev pub ◌>>◌ : Exec S E A → Exec S E B → Exec S E B
  m >> n = m >>= λ _. n

module _ {ℓ κ μ ν} {S : Type ℓ} {D : Type κ} {E : Type μ} {A : Type ν} where
  abbrev pub with_err : (D → E) → Outcome D A × S → Outcome E A × S
  with_err f (r, s) = (map_err f r, s)

  -- `.map_err(f)?` on a call.
  unfoldable pub mapping_err : (D → E) → Exec S D A → Exec S E A
  mapping_err f m s = with_err f (m s)
