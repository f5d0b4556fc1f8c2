-- ===== src/Common/Slices.antt =====
-- Slices of byte strings, which panic out of range.
use Prim.Native.Nat.{ℕ}
use mathlib.Core.List.{List}
use cashweb_backends.Common.Tests.{ltb, if◌then◌else◌}
use cashweb_backends.Common.Lists.{length, take, drop}
use cashweb_backends.Common.Exec.{Outcome, ok, panic}

-- `&xs[..n]`
abbrev pub slice_to : {E : Type 0} → ℕ → List ℕ → Outcome E (List ℕ)
slice_to n xs = if ltb (length xs) n then panic else ok (take n xs)

-- `&xs[n..]`
abbrev pub slice_from : {E : Type 0} → ℕ → List ℕ → Outcome E (List ℕ)
slice_from n xs = if ltb (length xs) n then panic else ok (drop n xs)
