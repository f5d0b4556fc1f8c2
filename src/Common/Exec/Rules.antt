-- ===== src/Common/Exec/Rules.antt =====
-- Postconditions of outcomes: what holds when a call returns, and that it does not panic; and what the
-- parts of a call returned that returned as a whole.
use cashweb_backends.Common.Tests.{if◌then◌else◌}
use cashweb_backends.Common.Exec.{
  Outcome, ok, err, panic, and_then, unwrap_ok, map_err, ok_or, continue, with_err,
}
use mathlib.Core.Bool.{Bool, true, false}
use mathlib.Core.Option.{Option, none, some}
use mathlib.Core.Path.{◌≡◌, refl, ap}

-- The call does not panic, and what it returns satisfies `Q`.
abbrev pub Returns {ℓ κ μ} :
    {S : Type ℓ} {E : Type κ} {A : Type μ} → (A → S → Type 0) → Outcome E A × S → Type 0
Returns Q (ok a, s) = Q a s
Returns Q (err e, s) = Unit
Returns Q (panic, s) = ⊥

pub and_then-eq-ok {ℓ κ μ} :
    {E : Type ℓ} {A : Type κ} {B : Type μ} (r : Outcome E A) (f : A → Outcome E B) {b : B}
    → and_then r f ≡ ok b
    → (a : A) × (r ≡ ok a) × (f a ≡ ok b)
and_then-eq-ok (ok a) f h = (a, refl, h)
and_then-eq-ok (err e) f h = cc
and_then-eq-ok panic f h = cc

pub unwrap_ok-eq-ok {ℓ κ μ} :
    {D : Type μ} {E : Type ℓ} {A : Type κ} (r : Outcome D A) {a : A}
    → unwrap_ok {E = E} r ≡ ok a
    → r ≡ ok a
unwrap_ok-eq-ok (ok a) h = cc
unwrap_ok-eq-ok (err d) h = cc
unwrap_ok-eq-ok panic h = cc

pub map_err-eq-ok {ℓ κ μ} :
    {D : Type μ} {E : Type ℓ} {A : Type κ} (f : D → E) (r : Outcome D A) {a : A}
    → map_err f r ≡ ok a
    → r ≡ ok a
map_err-eq-ok f (ok a) h = cc
map_err-eq-ok f (err d) h = cc
map_err-eq-ok f panic h = cc

pub ok_or-eq-ok {ℓ κ} :
    {E : Type ℓ} {A : Type κ} (o : Option A) (e : E) {a : A} → ok_or o e ≡ ok a → o ≡ some a
ok_or-eq-ok none e h = cc
ok_or-eq-ok (some a) e h = cc

pub if-eq-ok {ℓ κ} :
    {E : Type ℓ} {A : Type κ} (b : Bool) (e : E) (r : Outcome E A) {a : A}
    → (if b then err e else r) ≡ ok a
    → (b ≡ false) × (r ≡ ok a)
if-eq-ok true e r h = cc
if-eq-ok false e r h = (refl, h)

pub if-ok-eq-ok {ℓ κ} :
    {E : Type ℓ} {A : Type κ} (b : Bool) (e : E) (r : Outcome E A) {a : A}
    → (if b then r else err e) ≡ ok a
    → (b ≡ true) × (r ≡ ok a)
if-ok-eq-ok true e r h = (refl, h)
if-ok-eq-ok false e r h = cc

-- The value of a call that returned.
abbrev pub value_or {ℓ κ} : {E : Type ℓ} {A : Type κ} → A → Outcome E A → A
value_or d (ok a) = a
value_or d (err e) = d
value_or d panic = d

pub value-eq-ok {ℓ κ} :
    {E : Type ℓ} {A : Type κ} (r : Outcome E A) {b : A} → r ≡ ok b → value_or b r ≡ b
value-eq-ok r {b = b} h = ap (value_or b) h

pub continue-eq-ok {ℓ κ μ ν} :
    {S : Type ℓ} {E : Type κ} {A : Type μ} {B : Type ν} (f : A → S → Outcome E B × S)
    (r : Outcome E A × S) {b : B} {s' : S}
    → continue f r ≡ (ok b, s')
    → (a : A) × (s : S) × (r ≡ (ok a, s)) × (f a s ≡ (ok b, s'))
continue-eq-ok f (ok a, s) h = (a, s, refl, h)
continue-eq-ok f (err e, s) h = cc
continue-eq-ok f (panic, s) h = cc

pub with_err-eq-ok {ℓ κ μ ν} :
    {S : Type ℓ} {D : Type κ} {E : Type μ} {A : Type ν} (f : D → E) (p : Outcome D A × S) {a : A}
    {s : S}
    → with_err f p ≡ (ok a, s)
    → p ≡ (ok a, s)
with_err-eq-ok f (ok a, s) h = cc h
with_err-eq-ok f (err d, s) h = cc h
with_err-eq-ok f (panic, s) h = cc h
