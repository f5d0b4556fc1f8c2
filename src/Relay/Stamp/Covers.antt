-- ===== src/Relay/Stamp/Covers.antt =====
-- What a verified stamp means, and that the keys made for a stamp verify.
use cashweb_backends.Common.{
  ℕ, ◌+◌, ◌^◌, ◌%◌, ◌<◌, ◌≡◌, refl, List, [], ◌∷◌, some, not, true, take, drop, get_elem?, bytes_eq,
  bytes_eq_refl, bytes_eq→eq, ◌↔◌, arith, subst,
}
use cashweb_backends.Common.Exec.{ok, err}
use cashweb_backends.Common.Exec.Rules.{
  and_then-eq-ok, unwrap_ok-eq-ok, map_err-eq-ok, ok_or-eq-ok, if-eq-ok, if-ok-eq-ok, value-eq-ok,
}
use cashweb_backends.Bitcoin.Transaction.{Transaction}
use cashweb_backends.Bitcoin.Transaction.Output.{Output}
use cashweb_backends.Bitcoin.Transaction.Script.{is_p2pkh}
use cashweb_backends.Bitcoin.Bip32.{
  ChildNumber, normal, from_normal_index, ExtendedPublicKey, derive_public_child,
}
use cashweb_backends.Relay.Stamp.{
  Crypto, StampOutpoints, none_stamp_type, none_type, message_commitment, hash160, decode_slice,
  check_hash, verify_vout, verify_vouts, verify_outpoint, verify_outpoints, intermediate_public,
  verify_stamp,
}

-- The child number of an index of 32 bits.
pub from_index_iff :
    (n : ℕ) (num : ChildNumber)
    → n < 2 ^ 32
    → (from_normal_index n ≡ ok num) ↔ ((num ≡ normal n) × (n < 2 ^ 31))
unfolding from_normal_index
from_index_iff n num h = ground arith

pub low32 : (n : ℕ) → n % 2 ^ 32 < 2 ^ 32
low32 n = omega arith

module _ (crypto : Crypto) where
  open crypto use {secp}
  open secp use {PublicKey, serialize}

  -- The output at `vout` pays to the child of `tx_child` at `index`, and to nobody else.
  abbrev pub CoversOutput : ExtendedPublicKey PublicKey → List Output → ℕ → ℕ → Type 0
  CoversOutput tx_child outputs index vout =
      (output : Output) × (key : ExtendedPublicKey PublicKey) × (get_elem? outputs vout
        ≡ some output)
      × (is_p2pkh output.script ≡ true)
      × (index % 2 ^ 32 < 2 ^ 31)
      × (derive_public_child secp tx_child (normal (index % 2 ^ 32)) ≡ ok key)
      × (hash160 crypto (serialize key.public_key) ≡ take 20 (drop 3 output.script.raw))

  abbrev pub CoversOutputs : ExtendedPublicKey PublicKey → List Output → ℕ → List ℕ → Type 0
  CoversOutputs tx_child outputs index [] = Unit
  CoversOutputs tx_child outputs index (vout ∷ vouts) =
      CoversOutput tx_child outputs index vout × CoversOutputs tx_child outputs (index + 1) vouts

  abbrev pub CoversOutpoint :
      ExtendedPublicKey PublicKey → ℕ → StampOutpoints → Transaction → Type 0
  CoversOutpoint intermediate tx_num outpoint tx =
      (tx_child : ExtendedPublicKey PublicKey) × (decode_slice crypto outpoint.stamp_tx ≡ ok tx)
      × (tx_num % 2 ^ 32 < 2 ^ 31)
      × (derive_public_child secp intermediate (normal (tx_num % 2 ^ 32)) ≡ ok tx_child)
      × CoversOutputs tx_child tx.outputs 0 outpoint.vouts

  -- The transactions are those of the outpoints, in their order.
  abbrev pub Covers :
      ExtendedPublicKey PublicKey → ℕ → List StampOutpoints → List Transaction → Type 0
  Covers intermediate tx_num [] [] = Unit
  Covers intermediate tx_num (outpoint ∷ outpoints) (tx ∷ txs) =
      CoversOutpoint intermediate tx_num outpoint tx
      × Covers intermediate (tx_num + 1) outpoints txs
  Covers intermediate tx_num _ _ = ⊥

  check_hash_iff : (xs ys : List ℕ) → (check_hash crypto xs ys ≡ ok tt) ↔ (xs ≡ ys)
  unfolding check_hash
  check_hash_iff xs ys = (
    λ h. bytes_eq→eq xs ys (if-ok-eq-ok (bytes_eq xs ys) _ _ h).0,
    λ e. subst (λ zs. check_hash crypto xs zs ≡ ok tt) e (rw (bytes_eq_refl xs) refl),
  )

  verify_vout_iff :
      (tx_child : ExtendedPublicKey PublicKey) (outputs : List Output) (index vout : ℕ)
      → (verify_vout crypto tx_child outputs index vout ≡ ok tt)
        ↔ CoversOutput tx_child outputs index vout
  unfolding verify_vout
  verify_vout_iff tx_child outputs index vout = (
    λ h.
        let (output, e, h1) = and_then-eq-ok _ _ h in
        let (p, h2) = if-eq-ok (not (is_p2pkh output.script)) _ _ h1 in
        let (num, n, h3) = and_then-eq-ok _ _ h2 in
        let (key, k, h4) = and_then-eq-ok _ _ h3 in
        let (is_normal, low) =
          (from_index_iff (index % 2 ^ 32) num (low32 index)).0 (map_err-eq-ok _ _ n) in
        let derived =
          subst (λ c. derive_public_child secp tx_child c ≡ ok key) is_normal
            (unwrap_ok-eq-ok _ k) in
        (
          output,
          key,
          ok_or-eq-ok _ _ e,
          ground (arith, p),
          low,
          derived,
          (check_hash_iff _ _).0 h4,
        ),
    λ (output, key, e, p, low, derived, paid).
        let n : from_normal_index (index % 2 ^ 32) ≡ ok (normal (index % 2 ^ 32)) =
          (from_index_iff (index % 2 ^ 32) _ (low32 index)).1 (refl, low) in
        rw (e, p, n, derived) ((check_hash_iff _ _).1 paid),
  )

  verify_vouts_iff :
      (tx_child : ExtendedPublicKey PublicKey) (outputs : List Output) (index : ℕ) (vouts : List ℕ)
      → (verify_vouts crypto tx_child outputs index vouts ≡ ok tt)
        ↔ CoversOutputs tx_child outputs index vouts
  unfolding verify_vouts
  verify_vouts_iff tx_child outputs index [] = (λ h. tt, λ c. refl)
  verify_vouts_iff tx_child outputs index (vout ∷ vouts) =
      let (first, first') = verify_vout_iff tx_child outputs index vout in
      let (rest, rest') = verify_vouts_iff tx_child outputs (index + 1) vouts in
      (
        λ h. let (u, e, h1) = and_then-eq-ok _ _ h in (first e, rest h1),
        λ (c, cs). rw (first' c) (rest' cs),
      )

  verify_outpoint_iff :
      (intermediate : ExtendedPublicKey PublicKey) (tx_num : ℕ) (outpoint : StampOutpoints)
      (tx : Transaction)
      → (verify_outpoint crypto intermediate tx_num outpoint ≡ ok tx)
        ↔ CoversOutpoint intermediate tx_num outpoint tx
  unfolding verify_outpoint
  verify_outpoint_iff intermediate tx_num outpoint tx = (
    λ h.
        let (tx', d, h1) = and_then-eq-ok _ _ h in
        let (num, n, h2) = and_then-eq-ok _ _ h1 in
        let (tx_child, k, h3) = and_then-eq-ok _ _ h2 in
        let (u, v, h4) = and_then-eq-ok _ _ h3 in
        let same : tx' ≡ tx = value-eq-ok (ok tx') h4 in
        let (is_normal, low) =
          (from_index_iff (tx_num % 2 ^ 32) num (low32 tx_num)).0 (map_err-eq-ok _ _ n) in
        let derived =
          subst (λ c. derive_public_child secp intermediate c ≡ ok tx_child) is_normal
            (unwrap_ok-eq-ok _ k) in
        let decoded =
          subst (λ t. decode_slice crypto outpoint.stamp_tx ≡ ok t) same (map_err-eq-ok _ _ d) in
        let paid =
          subst (λ (t : Transaction). CoversOutputs tx_child t.outputs 0 outpoint.vouts) same
            ((verify_vouts_iff tx_child tx'.outputs 0 outpoint.vouts).0 v) in
        (tx_child, decoded, low, derived, paid),
    λ (tx_child, d, low, derived, paid).
        let n : from_normal_index (tx_num % 2 ^ 32) ≡ ok (normal (tx_num % 2 ^ 32)) =
          (from_index_iff (tx_num % 2 ^ 32) _ (low32 tx_num)).1 (refl, low) in
        rw (d, n, derived, (verify_vouts_iff tx_child tx.outputs 0 outpoint.vouts).1 paid) refl,
  )

  Covers-verify :
      (intermediate : ExtendedPublicKey PublicKey) (tx_num : ℕ) (outpoints : List StampOutpoints)
      (txs : List Transaction)
      → Covers intermediate tx_num outpoints txs
      → verify_outpoints crypto intermediate tx_num outpoints ≡ ok txs
  unfolding verify_outpoints
  Covers-verify intermediate tx_num [] [] c = refl
  Covers-verify intermediate tx_num [] (tx ∷ txs) c = absurd c
  Covers-verify intermediate tx_num (outpoint ∷ outpoints) [] c = absurd c
  Covers-verify intermediate tx_num (outpoint ∷ outpoints) (tx ∷ txs) (c, cs) =
      rw
        (
          (verify_outpoint_iff intermediate tx_num outpoint tx).1 c,
          Covers-verify intermediate (tx_num + 1) outpoints txs cs,
        )
        refl

  verify-Covers :
      (intermediate : ExtendedPublicKey PublicKey) (tx_num : ℕ) (outpoints : List StampOutpoints)
      (txs : List Transaction)
      → verify_outpoints crypto intermediate tx_num outpoints ≡ ok txs
      → Covers intermediate tx_num outpoints txs
  unfolding verify_outpoints
  verify-Covers intermediate tx_num [] txs h =
      let same : [] ≡ txs = value-eq-ok (ok []) h in subst (Covers intermediate tx_num []) same tt
  verify-Covers intermediate tx_num (outpoint ∷ outpoints) txs h =
      let (tx, first, h1) = and_then-eq-ok _ _ h in
      let (rest, others, h2) = and_then-eq-ok _ _ h1 in
      let same : tx ∷ rest ≡ txs = value-eq-ok (ok (tx ∷ rest)) h2 in
      subst (Covers intermediate tx_num (outpoint ∷ outpoints)) same (
        (verify_outpoint_iff intermediate tx_num outpoint tx).0 first,
        verify-Covers intermediate (tx_num + 1) outpoints rest others,
      )

  -- A stamp verifies with the transactions `txs` exactly when it is a commitment to the message, the
  -- digest is a secret key whose point can be added to the destination's, the path 44, 145 can be
  -- derived from their sum, every outpoint decodes to its transaction, and each output that it names
  -- exists, is a P2PKH output and pays to the child at its place. A stamp of no type never verifies.
  pub verify_stamp_iff :
      (outpoints : List StampOutpoints) (digest : List ℕ) (destination : PublicKey)
      (txs : List Transaction)
      → ((verify_stamp crypto outpoints digest destination message_commitment ≡ ok txs) ↔ (
          (intermediate : ExtendedPublicKey PublicKey) × (intermediate_public crypto digest
              destination
            ≡ ok intermediate)
          × Covers intermediate 0 outpoints txs))
        × (verify_stamp crypto outpoints digest destination none_type ≡ err none_stamp_type)
  unfolding verify_stamp
  verify_stamp_iff outpoints digest destination txs = (
    (
      λ h.
          let (intermediate, e, h1) = and_then-eq-ok _ _ h in
          (intermediate, e, verify-Covers intermediate 0 outpoints txs h1),
      λ (intermediate, e, c). rw e (Covers-verify intermediate 0 outpoints txs c),
    ),
    refl,
  )
