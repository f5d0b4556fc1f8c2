-- ===== src/Payments/Wallet/Invoices.antt =====
-- An invoice is paid once, by outputs that cover it, and while it is pending.
use cashweb_backends.Common.{
  ◌≡◌, ◌≢◌, ◌↔◌, ◌⊎◌, refl, sym, ap, List, [], ◌∷◌, Option, Option-cases, none, some, Bool, true,
  false, ◌&&◌, ◌||◌, if◌then◌else◌, Bool-cases, inl, inr, subst,
}
use mathlib.Core.List.{Memᴰ}
use mathlib.Core.List.Memᴰ.{head, tail, not-nil, cases_cons, cast}
use cashweb_backends.Common.Exec.{Outcome, ok, err}
use cashweb_backends.Payments.Wallet.{
  Equal, UnexpectedOutputs, unexpected_outputs, Pending, lookup, remove, insert, all_contained,
  add_outputs, expire, contains, receive_expected, recv_outputs,
}

and_split : (a b : Bool) → (a && b) ≡ true → (a ≡ true) × (b ≡ true)
and_split true b h = (refl, h)
and_split false b h = cc h

pub record IsEqual {A : Type 0} (equal : Equal A) : Type 0 where
  pub eq_iff : (a b : A) → (equal.eq a b ≡ true) ↔ (a ≡ b)

module _ {K O : Type 0} (keys : Equal K) (outs : Equal O) (keys_laws : IsEqual keys) where
  pub lookup-remove :
      (key : K) (pending : Pending keys outs)
      → lookup keys outs key (remove keys outs key pending) ≡ none
  lookup-remove key [] = refl
  lookup-remove key (entry ∷ pending) = elim (Bool-cases (keys.eq key entry.0)) [
    | inl same ↦ rw same (lookup-remove key pending)
    | inr other ↦ rw (other, other) (lookup-remove key pending)
  ]

  pub lookup-remove_other :
      (key other : K) (pending : Pending keys outs)
      → keys.eq other key ≡ false
      → lookup keys outs other (remove keys outs key pending) ≡ lookup keys outs other pending
  lookup-remove_other key other [] h = refl
  lookup-remove_other key other (entry ∷ pending) h = elim (Bool-cases (keys.eq key entry.0)) [
    | inl same ↦
        let apart : keys.eq other entry.0 ≡ false =
          subst (λ k. keys.eq other k ≡ false) ((keys_laws.eq_iff key entry.0).0 same) h in
        rw (same, apart) (lookup-remove_other key other pending h)
    | inr new ↦ rw new (
        ap (λ r. if keys.eq other entry.0 then some entry.1 else r)
          (lookup-remove_other key other pending h))
  ]

  received_other :
      (key other : K) (outputs : List O) (pending : Pending keys outs) (found : Option (List O))
      → keys.eq other key ≡ false
      → lookup keys outs other (receive_expected keys outs key outputs pending found).1
        ≡ lookup keys outs other pending
  unfolding receive_expected
  received_other key other outputs pending none apart = refl
  received_other key other outputs pending (some expected) apart =
      elim (Bool-cases (all_contained keys outs outputs expected)) [
        | inl covered ↦ rw covered (lookup-remove_other key other pending apart)
        | inr missing ↦ rw missing refl
      ]

  receive_some :
      (key : K) (outputs expected : List O) (pending : Pending keys outs)
      → lookup keys outs key pending ≡ some expected
      → all_contained keys outs outputs expected ≡ false
      → recv_outputs keys outs key outputs pending ≡ (err unexpected_outputs, pending)
  unfolding recv_outputs receive_expected
  receive_some key outputs expected pending e c = rw (e, c) refl

  -- Outputs that have everything that is pending under a key.
  pub receive_covered :
      (key : K) (outputs expected : List O) (pending : Pending keys outs)
      → lookup keys outs key pending ≡ some expected
      → all_contained keys outs outputs expected ≡ true
      → recv_outputs keys outs key outputs pending ≡ (ok tt, remove keys outs key pending)
  unfolding recv_outputs receive_expected
  receive_covered key outputs expected pending e c = rw (e, c) refl

  receive_none :
      (key : K) (outputs : List O) (pending : Pending keys outs)
      → lookup keys outs key pending ≡ none
      → recv_outputs keys outs key outputs pending ≡ (err unexpected_outputs, pending)
  unfolding recv_outputs receive_expected
  receive_none key outputs pending e = rw e refl

  recv_cases :
      (key : K) (outputs : List O) (pending : Pending keys outs)
      → ((expected : List O) × (lookup keys outs key pending ≡ some expected)
          × (all_contained keys outs outputs expected ≡ true)
          × (recv_outputs keys outs key outputs pending ≡ (ok tt, remove keys outs key pending)))
        ⊎ (((expected : List O)
              → lookup keys outs key pending ≡ some expected
              → all_contained keys outs outputs expected ≡ false)
            × (recv_outputs keys outs key outputs pending ≡ (err unexpected_outputs, pending)))
  recv_cases key outputs pending = elim (Option-cases (lookup keys outs key pending)) [
    | inl missing ↦
        inr (λ expected found. cc (missing, found), receive_none key outputs pending missing)
    | inr (expected, found) ↦ elim (Bool-cases (all_contained keys outs outputs expected)) [
      | inl covered ↦
          inl (expected, found, covered, receive_covered key outputs expected pending found covered)
      | inr short ↦ inr (
        λ other found'. cc (found, found', short),
        receive_some key outputs expected pending found short,
      )
    ]
  ]

  -- After a payment nothing is pending under the key.
  paid :
      (key : K) (pending : Pending keys outs)
      (r : Outcome UnexpectedOutputs (Unit {0}) × Pending keys outs)
      → r ≡ (ok tt, remove keys outs key pending)
      → (lookup keys outs key r.1 ≡ none)
        × ((again : List O) → recv_outputs keys outs key again r.1 ≡ (err unexpected_outputs, r.1))
  paid key pending r e =
      subst
        (λ (p : Pending keys outs).
          (lookup keys outs key p ≡ none)
          × ((again : List O) → recv_outputs keys outs key again p ≡ (err unexpected_outputs, p)))
        (sym (ap (λ z. z.1) e))
        (
          lookup-remove key pending,
          λ again.
              receive_none key again (remove keys outs key pending) (lookup-remove key pending),
        )

  module _ (outs_laws : IsEqual outs) where
    contains→Memᴰ :
        (outputs : List O) (x : O) → contains keys outs outputs x ≡ true → Memᴰ x outputs
    contains→Memᴰ [] x h = cc h
    contains→Memᴰ (y ∷ outputs) x h = elim (Bool-cases (outs.eq y x)) [
      | inl same ↦ head (sym ((outs_laws.eq_iff y x).0 same))
      | inr other ↦ tail (
          contains→Memᴰ outputs x (subst (λ b. (b || contains keys outs outputs x) ≡ true) other h))
    ]

    Memᴰ→contains :
        (outputs : List O) (x : O) → Memᴰ x outputs → contains keys outs outputs x ≡ true
    Memᴰ→contains [] x m = elim m [ ]
    Memᴰ→contains (y ∷ outputs) x (head e) = rw ((outs_laws.eq_iff y x).1 (sym e)) refl
    Memᴰ→contains (y ∷ outputs) x (tail m) = elim (Bool-cases (outs.eq y x)) [
      | inl same ↦ rw same refl
      | inr other ↦ rw (other, Memᴰ→contains outputs x m) refl
    ]

    -- Every output of an invoice is among those received.
    abbrev pub Covers : List O → List O → Type 0
    Covers outputs expected = (x : O) → Memᴰ x expected → Memᴰ x outputs

    covered_if :
        (outputs expected : List O)
        → all_contained keys outs outputs expected ≡ true
        → Covers outputs expected
    covered_if outputs [] h x m = absurd (not-nil m)
    covered_if outputs (y ∷ expected) h x m =
        let (first, others) = and_split (contains keys outs outputs y) _ h in
        elim (cases_cons m) [
          | inl e ↦ cast e (contains→Memᴰ outputs y first)
          | inr m' ↦ covered_if outputs expected others x m'
        ]

    all_contained_lem :
        (outputs expected : List O)
        → Covers outputs expected
        → all_contained keys outs outputs expected ≡ true
    all_contained_lem outputs [] c = refl
    all_contained_lem outputs (y ∷ expected) c =
        rw
          (
            Memᴰ→contains outputs y (c y (head refl)),
            all_contained_lem outputs expected (λ x m. c x (tail m)),
          )
          refl

    -- Outputs are received under a key exactly when something is pending under it and each output of it
    -- is among them. Then nothing is pending under the key any more, and a second payment under it is
    -- an error that changes nothing. Outputs that are not received give the error and change nothing.
    -- Other keys keep what they have. The equality of keys and that of outputs are exact.
    pub recv_outputs_lem :
        (key : K) (outputs : List O) (pending : Pending keys outs)
        → let r = recv_outputs keys outs key outputs pending in
          ((r.0 ≡ ok tt) ↔ (
            (expected : List O) × (lookup keys outs key pending ≡ some expected)
            × Covers outputs expected))
          × ((r.0 ≡ ok tt)
              → (lookup keys outs key r.1 ≡ none)
                × ((again : List O)
                    → recv_outputs keys outs key again r.1 ≡ (err unexpected_outputs, r.1)))
          × ((r.0 ≢ ok tt) → r ≡ (err unexpected_outputs, pending))
          × ((other : K)
              → keys.eq other key ≡ false
              → lookup keys outs other r.1 ≡ lookup keys outs other pending)
    unfolding recv_outputs
    recv_outputs_lem key outputs pending = elim (recv_cases key outputs pending) [
      | inl (expected, found, covered, r) ↦ (
        (λ h. (expected, found, covered_if outputs expected covered), λ received. ap (λ z. z.0) r),
        λ h. paid key pending _ r,
        λ n. absurd (n (ap (λ z. z.0) r)),
        λ other. received_other key other outputs pending (lookup keys outs key pending),
      )
      | inr (short, r) ↦ (
        (
          λ h. cc (h, ap (λ z. z.0) r),
          λ (expected, found, c). cc (all_contained_lem outputs expected c, short expected found),
        ),
        λ h. cc (h, ap (λ z. z.0) r),
        λ n. r,
        λ other. received_other key other outputs pending (lookup keys outs key pending),
      )
    ]

  -- An invoice that was added can be paid by any outputs that cover it until its timer expires. Adding
  -- again under the key replaces it, and the timer of the invoice that was replaced removes the new
  -- one as well, which then can not be paid.
  pub add_outputs-expire :
      (key : K) (first second outputs : List O) (pending : Pending keys outs)
      → all_contained keys outs outputs second ≡ true
      → let added = add_outputs keys outs key second (add_outputs keys outs key first pending) in
        ((recv_outputs keys outs key outputs added).0 ≡ ok tt)
        × (recv_outputs keys outs key outputs (expire keys outs key added)
            ≡ (err unexpected_outputs, expire keys outs key added))
  unfolding add_outputs expire recv_outputs receive_expected
  add_outputs-expire key first second outputs pending c =
      let added = insert keys outs key second (insert keys outs key first pending) in
      (
        rw ((keys_laws.eq_iff key key).1 refl, c) refl,
        receive_none key outputs (remove keys outs key added) (lookup-remove key added),
      )
