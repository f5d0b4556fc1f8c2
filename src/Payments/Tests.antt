-- ===== src/Payments/Tests.antt =====
-- The theorems on payments and invoices at concrete inputs.
use cashweb_backends.Common.{ℕ, ◌≡◌, ◌≢◌, ◌↔◌, refl, List, [], ◌∷◌, none, some, false, ◌==◌, ==_iff}
use cashweb_backends.Common.Exec.{ok, err}
use cashweb_backends.Payments.Wallet.{
  Equal, unexpected_outputs, lookup, add_outputs, expire, receive_expected, recv_outputs,
}
use cashweb_backends.Payments.Wallet.Invoices.{
  IsEqual, Covers, recv_outputs_lem, add_outputs-expire,
}

abbrev numbers : Equal ℕ
numbers = record { eq = λ a b. a == b }

abbrev numbers_laws : IsEqual numbers
numbers_laws = record { eq_iff = ==_iff }

abbrev pending : List (ℕ × List ℕ)
pending = (1, 10 ∷ 20 ∷ []) ∷ (2, 30 ∷ []) ∷ []

recv_outputs_lem_example :
    let r = recv_outputs numbers numbers 1 (20 ∷ 10 ∷ []) pending in
    ((r.0 ≡ ok tt) ↔ (
      (expected : List ℕ) × (lookup numbers numbers 1 pending ≡ some expected)
      × Covers numbers numbers numbers_laws numbers_laws (20 ∷ 10 ∷ []) expected))
    × ((r.0 ≡ ok tt)
        → (lookup numbers numbers 1 r.1 ≡ none)
          × ((again : List ℕ)
              → recv_outputs numbers numbers 1 again r.1 ≡ (err unexpected_outputs, r.1)))
    × ((r.0 ≢ ok tt) → r ≡ (err unexpected_outputs, pending))
    × ((other : ℕ)
        → numbers.eq other 1 ≡ false
        → lookup numbers numbers other r.1 ≡ lookup numbers numbers other pending)
recv_outputs_lem_example =
    recv_outputs_lem numbers numbers numbers_laws numbers_laws 1 (20 ∷ 10 ∷ []) pending

paid : recv_outputs numbers numbers 1 (20 ∷ 10 ∷ []) pending ≡ (ok tt, (2, 30 ∷ []) ∷ [])
unfolding recv_outputs receive_expected
paid = refl

add_outputs-expire_example :
    let added =
      add_outputs numbers numbers 1 (7 ∷ []) (add_outputs numbers numbers 1 (5 ∷ []) []) in
    ((recv_outputs numbers numbers 1 (7 ∷ []) added).0 ≡ ok tt)
    × (recv_outputs numbers numbers 1 (7 ∷ []) (expire numbers numbers 1 added)
        ≡ (err unexpected_outputs, expire numbers numbers 1 added))
add_outputs-expire_example =
    add_outputs-expire numbers numbers numbers_laws 1 (5 ∷ []) (7 ∷ []) (7 ∷ []) [] refl
