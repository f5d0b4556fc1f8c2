-- ===== src/Payments/Wallet.antt =====
-- lib/cashweb-payments/src/wallet.rs. The `DashMap` of pending outputs is an association list; the future
-- that `add_outputs` returns is the step `expire`, taken when its sleep ends.
pub mod Invoices
use cashweb_backends.Common.{
  ℕ, List, [], ◌∷◌, Option, none, some, Bool, true, false, ◌&&◌, ◌||◌, if◌then◌else◌,
}
use cashweb_backends.Common.Exec.{Outcome, ok, err}

pub data UnexpectedOutputs : Type 0 where
  unexpected_outputs : UnexpectedOutputs

-- Equality of keys and of outputs, as `Eq` and `PartialEq` give it.
pub record Equal (A : Type 0) : Type 0 where
  pub eq : A → A → Bool

module _ {K O : Type 0} (keys : Equal K) (outs : Equal O) where
  abbrev pub Pending : Type 0
  Pending = List (K × List O)

  abbrev pub lookup : K → Pending → Option (List O)
  lookup key [] = none
  lookup key (entry ∷ pending) = if keys.eq key entry.0 then some entry.1 else lookup key pending

  -- `DashMap::remove`
  abbrev pub remove : K → Pending → Pending
  remove key [] = []
  remove key (entry ∷ pending) =
      let rest = remove key pending in if keys.eq key entry.0 then rest else entry ∷ rest

  -- `DashMap::insert`, which replaces what stood under the key.
  abbrev pub insert : K → List O → Pending → Pending
  insert key outputs pending = (key, outputs) ∷ remove key pending

  abbrev pub contains : List O → O → Bool
  contains [] output = false
  contains (x ∷ xs) output = outs.eq x output || contains xs output

  abbrev pub all_contained : List O → List O → Bool
  all_contained outputs [] = true
  all_contained outputs (x ∷ expected) = contains outputs x && all_contained outputs expected

  unfoldable pub add_outputs : K → List O → Pending → Pending
  add_outputs key outputs pending = insert key outputs pending

  unfoldable pub expire : K → Pending → Pending
  expire key pending = remove key pending

  -- The closure `check_subset` on what stands under the key.
  unfoldable pub receive_expected :
      K → List O → Pending → Option (List O) → Outcome UnexpectedOutputs (Unit {0}) × Pending
  receive_expected key outputs pending none = (err unexpected_outputs, pending)
  receive_expected key outputs pending (some expected) =
      if all_contained outputs expected
      then (ok tt, remove key pending)
      else (err unexpected_outputs, pending)

  unfoldable pub recv_outputs :
      K → List O → Pending → Outcome UnexpectedOutputs (Unit {0}) × Pending
  recv_outputs key outputs pending = receive_expected key outputs pending (lookup key pending)
