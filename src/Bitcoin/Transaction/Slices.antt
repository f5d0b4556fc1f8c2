-- ===== src/Bitcoin/Transaction/Slices.antt =====
-- Decoding a transaction from a byte slice, whose buffer is a parameter.
use cashweb_backends.Common.{ℕ, List, [], ◌∷◌}
use cashweb_backends.Common.Exec.{Outcome, ok, and_then}
use cashweb_backends.Bitcoin.Buf.{Buf}
use cashweb_backends.Bitcoin.Transaction
use cashweb_backends.Bitcoin.Transaction.{Transaction}

pub record Slices : Type 1 where
  pub Slice : Type 0
  pub slice_buf : Buf Slice
  pub as_slice : List ℕ → Slice

module _ (slices : Slices) where
  open slices use {slice_buf, as_slice}

  -- `Transaction::decode(&mut raw_tx.as_slice())`
  abbrev pub decode_tx : List ℕ → Outcome Transaction.DecodeError Transaction
  decode_tx raw_tx = (Transaction.decode ⦃buf = slice_buf⦄ (as_slice raw_tx)).0

  -- `.map(…).collect::<Result<Vec<_>, _>>()`
  unfoldable pub decode_txs : List (List ℕ) → Outcome Transaction.DecodeError (List Transaction)
  decode_txs [] = ok []
  decode_txs (raw_tx ∷ raw_txs) =
      and_then (decode_tx raw_tx) λ tx. and_then (decode_txs raw_txs) λ txs. ok (tx ∷ txs)
