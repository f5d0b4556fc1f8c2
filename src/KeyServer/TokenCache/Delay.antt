-- ===== src/KeyServer/TokenCache/Delay.antt =====
-- A token is sent with the block that leaves the cache as many broadcasts later as the delay.
use mathlib.Core.Logic.{inl, inr}
use cashweb_backends.Common.{
  ℕ, zero, suc, ◌+◌, ◌<◌, ◌≡◌, refl, ap, ◌⊎◌, List, [], ◌∷◌, some, length, get_elem?, arith, subst,
}
use cashweb_backends.Common.Exec.{ok, panic}
use cashweb_backends.Common.Exec.Rules.{and_then-eq-ok, value-eq-ok}
use cashweb_backends.KeyServer.TokenCache.{
  Cache, add_token, pop_back, broadcast_block, Event, added, cycled, run,
}

module _ {Address : Type 0} where
  -- The address is in the block.
  abbrev pub In : Address → List Address → Type 0
  In addr [] = ⊥
  In addr (x ∷ xs) = (addr ≡ x) ⊎ In addr xs

  -- The block at a place holds the address; past the end none does.
  abbrev pub At : Address → ℕ → Cache Address → Type 0
  At addr k [] = ⊥
  At addr zero (block ∷ blocks) = In addr block
  At addr (suc k) (block ∷ blocks) = At addr k blocks

  next_place :
      (addr : Address) (k : ℕ) (block : List Address) (popped : List Address × Cache Address)
      (n : ℕ)
      → ((k ≡ n) × In addr popped.0) ⊎ At addr k popped.1
      → ((suc k ≡ suc n) × In addr popped.0) ⊎ At addr (suc k) (block ∷ popped.1)
  next_place addr k block popped n (inl (e, h)) = inl (ap suc e, h)
  next_place addr k block popped n (inr h) = inr h

  -- Taking the last block: the address is in it, or in the same place of what is left.
  pop_back-At :
      (addr : Address) (k : ℕ) (block : List Address) (blocks : Cache Address)
      → At addr k (block ∷ blocks)
      → ((k ≡ length blocks) × In addr (pop_back block blocks).0)
        ⊎ At addr k (pop_back block blocks).1
  pop_back-At addr zero block [] h = inl (refl, h)
  pop_back-At addr (suc k) block [] h = absurd h
  pop_back-At addr zero block (next ∷ blocks) h = inr h
  pop_back-At addr (suc k) block (next ∷ blocks) h =
      next_place addr k block (pop_back next blocks) (length blocks)
        (pop_back-At addr k next blocks h)

  length-pop_back :
      (block : List Address) (blocks : Cache Address)
      → length (pop_back block blocks).1 ≡ length blocks
  length-pop_back block [] = refl
  length-pop_back block (next ∷ blocks) = ap suc (length-pop_back next blocks)

  At-lt : (addr : Address) (k : ℕ) (cache : Cache Address) → At addr k cache → k < length cache
  At-lt addr k [] h = absurd h
  At-lt addr zero (block ∷ blocks) h = omega arith
  At-lt addr (suc k) (block ∷ blocks) h = omega (arith, At-lt addr k blocks h)

  abbrev pub cycles : List (Event Address) → ℕ
  cycles [] = 0
  cycles (added addr ∷ events) = cycles events
  cycles (cycled ∷ events) = suc (cycles events)

  -- The block that was sent at a place holds the address.
  abbrev pub SentAt : Address → ℕ → List (List Address) → Type 0
  SentAt addr j sent = (block : List Address) × (get_elem? sent j ≡ some block) × In addr block

  add_token-At :
      (addr other : Address) (k : ℕ) (block : List Address) (blocks : Cache Address)
      → At addr k (block ∷ blocks)
      → At addr k ((other ∷ block) ∷ blocks)
  add_token-At addr other zero block blocks h = inr h
  add_token-At addr other (suc k) block blocks h = h

  -- The block that leaves is the one that holds the address, or a later one will be.
  cycled_place :
      (addr : Address) (k j : ℕ) (popped : List Address × Cache Address)
      (sent : List (List Address)) (n : ℕ)
      → ((suc k ≡ n) × In addr popped.0) ⊎ At addr (suc k) popped.1
      → length popped.1 ≡ n
      → k + suc j ≡ n
      → ((i : ℕ) → suc i ≡ j → At addr (suc k) popped.1 → SentAt addr i sent)
      → SentAt addr j (popped.0 ∷ sent)
  cycled_place addr k zero popped sent n (inl (e, h)) size len later = (popped.0, refl, h)
  cycled_place addr k (suc j) popped sent n (inl (e, h)) size len later = absurd (omega arith)
  cycled_place addr k zero popped sent n (inr h) size len later =
      absurd (omega (arith, At-lt addr (suc k) popped.1 h))
  cycled_place addr k (suc j) popped sent n (inr h) size len later = later j refl h

  run-SentAt :
      (addr : Address) (events : List (Event Address)) (cache cache' : Cache Address)
      (sent : List (List Address)) (k j : ℕ)
      → At addr k cache
      → k + suc j ≡ length cache
      → j < cycles events
      → run events cache ≡ ok (sent, cache')
      → SentAt addr j sent
  unfolding run add_token broadcast_block
  run-SentAt addr [] cache cache' sent k j at len more h = absurd (omega arith)
  run-SentAt addr (added other ∷ events) [] cache' sent k j at len more h = absurd at
  run-SentAt addr (added other ∷ events) (block ∷ blocks) cache' sent k j at len more h =
      run-SentAt addr events ((other ∷ block) ∷ blocks) cache' sent k j
        (add_token-At addr other k block blocks at) len more h
  run-SentAt addr (cycled ∷ events) cache cache' sent k j at len more h =
      let popped = pop_back [] cache in
      let (r, e, h1) = and_then-eq-ok (run events popped.1) (λ r. ok (popped.0 ∷ r.0, r.1)) h in
      let same : popped.0 ∷ r.0 ≡ sent =
        ap (λ z. z.0) (value-eq-ok (ok (popped.0 ∷ r.0, r.1)) h1) in
      subst (SentAt addr j) same (
        cycled_place addr k j popped r.0 (length cache) (pop_back-At addr (suc k) [] cache at)
          (length-pop_back [] cache) len
          (λ i next at'.
            let size : suc k + suc i ≡ length popped.1 = omega (arith, length-pop_back [] cache) in
            let fewer : i < cycles events = omega arith in
            run-SentAt addr events popped.1 r.1 r.0 (suc k) i at' size fewer e))

  -- In every sequence of additions and broadcasts on a cache of `suc j` blocks that begins with the
  -- addition of an address and has more than `j` broadcasts, the block that the broadcast number `j`,
  -- counted from 0, sends holds the address. On a cache without blocks the addition panics.
  pub add_token-run :
      (addr : Address) (events : List (Event Address)) (cache cache' : Cache Address)
      (sent : List (List Address)) (j : ℕ)
      → length cache ≡ suc j
      → j < cycles events
      → run (added addr ∷ events) cache ≡ ok (sent, cache')
      → SentAt addr j sent × (run (added addr ∷ events) [] ≡ panic)
  unfolding run add_token
  add_token-run addr events [] cache' sent j len more h = absurd (omega arith)
  add_token-run addr events (block ∷ blocks) cache' sent j len more h = (
    run-SentAt addr events ((addr ∷ block) ∷ blocks) cache' sent 0 j (inl refl) (omega arith) more
        h,
    refl,
  )
