-- ===== src/KeyServer/PubSub/Counted.antt =====
-- The map of burns that `handle_put` builds, and what it counts.
use cashweb_backends.Common.{
  ℕ, ◌≡◌, ◌≢◌, ◌⊎◌, inl, inr, refl, sym, ◌∙◌, List, [], ◌∷◌, map, true, All, subst, Bool-cases,
  bytes_eq, bytes_eq→eq, bytes_eq_refl,
}
use mathlib.Core.List.{Memᴰ}
use mathlib.Core.List.Memᴰ.{head, tail, cases_cons}
use cashweb_backends.Common.Exec.{Outcome, ok}
use cashweb_backends.Common.Exec.Rules.{and_then-eq-ok, value-eq-ok}
use cashweb_backends.Bitcoin.Buf.{BufMut}
use cashweb_backends.Bitcoin.Buf.ByteVec.{ByteVec}
use cashweb_backends.Bitcoin.Transaction.Slices.{Slices}
use cashweb_backends.BitcoinClient.{BitcoinClient}
use cashweb_backends.AuthWrapper.{BurnOutputs}
use cashweb_backends.RelayServer.Rocks.{Rocks}
use cashweb_backends.KeyServer.PubSub.{Text}
use cashweb_backends.KeyServer.PubSub.Handlers.{Burn, Burns, remove, add_burn, add_burns}
use cashweb_backends.KeyServer.PubSub.Burns.{IsBurn, add_burn-ok}

abbrev keys : Burns → List (List ℕ)
keys burns = map (λ (entry : List ℕ × Burn). entry.0) burns

abbrev IsDistinct : List (List ℕ) → Type 0
IsDistinct [] = Unit {0}
IsDistinct (key ∷ others) = (Memᴰ key others → ⊥) × IsDistinct others

remove-All :
    (P : List ℕ × Burn → Type 0) (key : List ℕ) (burns : Burns)
    → All P burns
    → All P (remove key burns)
remove-All P key [] h = tt
remove-All P key (entry ∷ burns) h = elim (Bool-cases (bytes_eq key entry.0)) [
  | inl same ↦ rw same (remove-All P key burns h.1)
  | inr other ↦ rw other (h.0, remove-All P key burns h.1)
]

-- The keys that a removal leaves.
remove-keys :
    (key k : List ℕ) (burns : Burns)
    → Memᴰ k (keys (remove key burns))
    → Memᴰ k (keys burns) × (k ≢ key)
remove-keys key k [] m = elim m [ ]
remove-keys key k (entry ∷ burns) m = elim (Bool-cases (bytes_eq key entry.0)) [
  | inl same ↦
      let gone : remove key (entry ∷ burns) ≡ remove key burns = rw same refl in
      let (m', n) = remove-keys key k burns (subst (λ (b : Burns). Memᴰ k (keys b)) gone m) in
      (tail m', n)
  | inr other ↦
      let stays : remove key (entry ∷ burns) ≡ entry ∷ remove key burns = rw other refl in
      let m0 : Memᴰ k (entry.0 ∷ keys (remove key burns)) =
        subst (λ (b : Burns). Memᴰ k (keys b)) stays m in
      elim (cases_cons m0) [
        | inl e ↦ (
          head e,
          λ e'. cc (other, subst (λ z. bytes_eq key z ≡ true) (sym e' ∙ e) (bytes_eq_refl key)),
        )
        | inr m' ↦ let (m'', n) = remove-keys key k burns m' in (tail m'', n)
      ]
]

remove-kept :
    (key k : List ℕ) (burns : Burns)
    → Memᴰ k (keys burns)
    → (k ≡ key) ⊎ Memᴰ k (keys (remove key burns))
remove-kept key k [] m = elim m [ ]
remove-kept key k (entry ∷ burns) m = elim (cases_cons m) [
  | inl e ↦ elim (Bool-cases (bytes_eq key entry.0)) [
    | inl same ↦ inl (e ∙ sym (bytes_eq→eq key entry.0 same))
    | inr other ↦ inr (rw other (head e))
  ]
  | inr m' ↦ elim (remove-kept key k burns m') [
    | inl e ↦ inl e
    | inr kept ↦ elim (Bool-cases (bytes_eq key entry.0)) [
      | inl same ↦ inr (rw same kept)
      | inr other ↦ inr (rw other (tail kept))
    ]
  ]
]

remove-IsDistinct :
    (key : List ℕ) (burns : Burns) → IsDistinct (keys burns) → IsDistinct (keys (remove key burns))
remove-IsDistinct key [] d = tt
remove-IsDistinct key (entry ∷ burns) d = elim (Bool-cases (bytes_eq key entry.0)) [
  | inl same ↦ rw same (remove-IsDistinct key burns d.1)
  | inr other ↦
      rw other (λ m. d.0 (remove-keys key entry.0 burns m).0, remove-IsDistinct key burns d.1)
]

module _ (slices : Slices) (client : BitcoinClient) (text : Text) {D : Type 0} (rocks : Rocks D)
    {DecodeError : Type 0} (decode_topic : List ℕ → Outcome DecodeError (List ℕ)) {W : Type 0}
    ⦃buf : BufMut W⦄ (vec : ByteVec W) where
  -- The first transaction is added, and the others to what it gives.
  add_burns-next :
      (digest : List ℕ) (burn : BurnOutputs) (transactions : List BurnOutputs) (burns more : Burns)
      → add_burns slices client text rocks decode_topic vec digest (burn ∷ transactions) burns
        ≡ ok more
      → (key : List ℕ) × (amount : ℕ) × IsBurn slices client text rocks decode_topic vec digest burn
          key amount
        × (add_burns slices client text rocks decode_topic vec digest transactions
              ((key, record { outputs = burn; amount = amount }) ∷ remove key burns)
            ≡ ok more)
  unfolding add_burns
  add_burns-next digest burn transactions burns more h =
      let (next, b, h1) =
        and_then-eq-ok (add_burn slices client text rocks decode_topic vec digest burn burns) _ h in
      let (key, amount, is_burn, e) =
        add_burn-ok slices client text rocks decode_topic vec digest burn burns next b in
      (
        key,
        amount,
        is_burn,
        subst
            (λ z.
              add_burns slices client text rocks decode_topic vec digest transactions z ≡ ok more)
            e h1,
      )

  add_burns-keep :
      (digest : List ℕ) (transactions : List BurnOutputs) (burns more : Burns)
      → add_burns slices client text rocks decode_topic vec digest transactions burns ≡ ok more
      → (k : List ℕ) → Memᴰ k (keys burns)
      → Memᴰ k (keys more)
  unfolding add_burns
  add_burns-keep digest [] burns more h k m =
      subst (λ (z : Burns). Memᴰ k (keys z)) (value-eq-ok (ok burns) h) m
  add_burns-keep digest (burn ∷ transactions) burns more h k m =
      let (key, amount, is_burn, h1) = add_burns-next digest burn transactions burns more h in
      add_burns-keep digest transactions _ more h1 k
        (elim (remove-kept key k burns m) [ inl e ↦ head e | inr kept ↦ tail kept ])

  add_burns-IsDistinct :
      (digest : List ℕ) (transactions : List BurnOutputs) (burns more : Burns)
      → add_burns slices client text rocks decode_topic vec digest transactions burns ≡ ok more
      → IsDistinct (keys burns)
      → IsDistinct (keys more)
  unfolding add_burns
  add_burns-IsDistinct digest [] burns more h d =
      subst (λ (z : Burns). IsDistinct (keys z)) (value-eq-ok (ok burns) h) d
  add_burns-IsDistinct digest (burn ∷ transactions) burns more h d =
      let (key, amount, is_burn, h1) = add_burns-next digest burn transactions burns more h in
      add_burns-IsDistinct digest transactions _ more h1
        (λ m. (remove-keys key key burns m).1 refl, remove-IsDistinct key burns d)

  -- What holds of the entries that are there and of those that the transactions add holds of all.
  add_burns-All :
      (P : List ℕ × Burn → Type 0) (digest : List ℕ) (transactions : List BurnOutputs)
      (burns more : Burns)
      → add_burns slices client text rocks decode_topic vec digest transactions burns ≡ ok more
      → All P burns
      → ((burn : BurnOutputs) (key : List ℕ) (amount : ℕ)
          → Memᴰ burn transactions
          → IsBurn slices client text rocks decode_topic vec digest burn key amount
          → P (key, record { outputs = burn; amount = amount }))
      → All P more
  unfolding add_burns
  add_burns-All P digest [] burns more h p new = subst (λ z. All P z) (value-eq-ok (ok burns) h) p
  add_burns-All P digest (burn ∷ transactions) burns more h p new =
      let (key, amount, is_burn, h1) = add_burns-next digest burn transactions burns more h in
      add_burns-All P digest transactions _ more h1
        (new burn key amount (head refl) is_burn, remove-All P key burns p)
        (λ b k a m. new b k a (tail m))

  add_burns-found :
      (digest : List ℕ) (transactions : List BurnOutputs) (burns more : Burns)
      → add_burns slices client text rocks decode_topic vec digest transactions burns ≡ ok more
      → All
          (λ burn.
            (key : List ℕ) × (amount : ℕ) × IsBurn slices client text rocks decode_topic vec digest
              burn key amount
            × Memᴰ key (keys more))
          transactions
  unfolding add_burns
  add_burns-found digest [] burns more h = tt
  add_burns-found digest (burn ∷ transactions) burns more h =
      let (key, amount, is_burn, h1) = add_burns-next digest burn transactions burns more h in
      (
        (key, amount, is_burn, add_burns-keep digest transactions _ more h1 key (head refl)),
        add_burns-found digest transactions _ more h1,
      )

  -- The burns are those of the transactions: each of the transactions burns, under a key that is among the
  -- keys of the burns; each key stands once, with a transaction and the amount that it burns.
  abbrev pub IsCounted : List ℕ → List BurnOutputs → Burns → Type 0
  IsCounted digest transactions burns =
      All
        (λ burn.
          (key : List ℕ) × (amount : ℕ) × IsBurn slices client text rocks decode_topic vec digest
            burn key amount
          × Memᴰ key (keys burns))
        transactions
      × All
          (λ (entry : List ℕ × Burn).
            Memᴰ entry.1.outputs transactions
            × IsBurn slices client text rocks decode_topic vec digest entry.1.outputs entry.0
                entry.1.amount)
          burns
      × IsDistinct (keys burns)

  pub add_burns-IsCounted :
      (digest : List ℕ) (transactions : List BurnOutputs) (burns : Burns)
      → add_burns slices client text rocks decode_topic vec digest transactions [] ≡ ok burns
      → IsCounted digest transactions burns
  add_burns-IsCounted digest transactions burns h = (
    add_burns-found digest transactions [] burns h,
    add_burns-All
        (λ (entry : List ℕ × Burn).
          Memᴰ entry.1.outputs transactions
          × IsBurn slices client text rocks decode_topic vec digest entry.1.outputs entry.0
              entry.1.amount)
        digest transactions [] burns h tt (λ burn key amount m is_burn. (m, is_burn)),
    add_burns-IsDistinct digest transactions [] burns h tt,
  )
