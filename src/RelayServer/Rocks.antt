-- ===== src/RelayServer/Rocks.antt =====
-- The `rocksdb` crate as an interface: what was put is found until it is deleted or put again, other keys
-- are not touched, and any call may fail.
use cashweb_backends.Common.{ℕ, ◌≡◌, ◌≢◌, ◌⊎◌, List, Option, none, some}
use cashweb_backends.Common.Exec.{Outcome, ok, err, Exec}

pub record Rocks (D : Type 0) : Type 1 where
  pub RocksError : Type 0
  pub get : List ℕ → D → Outcome RocksError (Option (List ℕ))
  pub put : List ℕ → List ℕ → Exec D RocksError (Unit {0})
  pub delete : List ℕ → Exec D RocksError (Unit {0})
  -- The entries from a key on, in the order of the keys.
  pub iterator : List ℕ → D → List (List ℕ × List ℕ)

pub record IsRocks {D : Type 0} (rocks : Rocks D) : Type 0 where
  pub contents : D → List ℕ → Option (List ℕ)
  pub get_lem :
      (key : List ℕ) (d : D)
      → (rocks.get key d ≡ ok (contents d key))
        ⊎ ((e : rocks.RocksError) × (rocks.get key d ≡ err e))
  pub put_lem :
      (key value : List ℕ) (d d' : D)
      → rocks.put key value d ≡ (ok tt, d')
      → (contents d' key ≡ some value)
        × ((other : List ℕ) → other ≢ key → contents d' other ≡ contents d other)
  pub delete_lem :
      (key : List ℕ) (d d' : D)
      → rocks.delete key d ≡ (ok tt, d')
      → (contents d' key ≡ none)
        × ((other : List ℕ) → other ≢ key → contents d' other ≡ contents d other)
