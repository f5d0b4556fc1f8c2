-- ===== src/KeyServer/TokenCache.antt =====
-- keyserver/src/peering/token_cache.rs: the queue of blocks of addresses. What `broadcast_block` does with the
-- block that it takes is in KeyServer/Peering.
pub mod Delay
use cashweb_backends.Common.{ℕ, zero, suc, List, [], ◌∷◌, ◌++◌, replicate}
use cashweb_backends.Common.Exec.{Outcome, ok, panic, and_then}

-- The blocks, the front first; a block is a set of addresses, kept as a list.
abbrev pub Cache : Type 0 → Type 0
Cache Address = List (List Address)

module _ {Address : Type 0} where
  -- `Default`: as many empty blocks as the delay.
  unfoldable pub default : ℕ → Cache Address
  default broadcast_delay = replicate broadcast_delay []

  -- `front().unwrap()`
  unfoldable pub add_token : {E : Type 0} → Address → Cache Address → Outcome E (Cache Address)
  add_token addr [] = panic
  add_token addr (block ∷ blocks) = ok ((addr ∷ block) ∷ blocks)

  -- `pop_back` of a queue that begins with `block`.
  abbrev pub pop_back : List Address → Cache Address → List Address × Cache Address
  pop_back block [] = (block, [])
  pop_back block (next ∷ blocks) = let rest = pop_back next blocks in (rest.0, block ∷ rest.1)

  -- A new block comes to the front, and the block at the back is taken to be sent.
  unfoldable pub broadcast_block : Cache Address → List Address × Cache Address
  broadcast_block token_blocks = pop_back [] token_blocks

-- What may happen to a cache.
pub data Event (Address : Type 0) : Type 0 where
  added : Address → Event Address
  cycled : Event Address

module _ {Address : Type 0} where
  -- The blocks that were sent, the first one first, and the cache after the events.
  abbrev pub after_cycle :
      List Address
      → Outcome (Unit {0}) (List (List Address) × Cache Address)
      → Outcome (Unit {0}) (List (List Address) × Cache Address)
  after_cycle block rest = and_then rest λ r. ok (block ∷ r.0, r.1)

  unfoldable pub run :
      List (Event Address)
      → Cache Address
      → Outcome (Unit {0}) (List (List Address) × Cache Address)
  run [] cache = ok ([], cache)
  run (added addr ∷ events) cache = and_then (add_token addr cache) λ next. run events next
  run (cycled ∷ events) cache =
      let step = broadcast_block cache in after_cycle step.0 (run events step.1)
