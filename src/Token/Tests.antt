-- ===== src/Token/Tests.antt =====
-- The theorems on tokens at concrete inputs.
use cashweb_backends.Common.{
  ℕ, ◌<◌, ◌≡◌, ◌≢◌, ◌↔◌, refl, List, [], ◌∷◌, ◌++◌, some, true, length, take, drop, get_elem?,
  get_or, replicate, from_le_bytes,
}
use cashweb_backends.Common.Exec.{ok, err, panic}
use cashweb_backends.Bitcoin.Buf.Slice.{Slice, slice_buf}
use cashweb_backends.Bitcoin.Instances.{sum_digest}
use cashweb_backends.Bitcoin.Transaction.{Transaction}
use cashweb_backends.Bitcoin.Transaction.Output.{Output}
use cashweb_backends.Relay.Instances.{to_bytes, to_bytes-IsBytes}
use cashweb_backends.Token.{pop_prefix, is_continuation, split_pop_token}
use cashweb_backends.Token.Instances.{plain, plain_laws, prefix_mac, prefix_mac-laws}
use cashweb_backends.Token.Prefix.{IsToken, split_pop_token_lem}
use cashweb_backends.Token.HmacBearer.{
  construct_token, validate_token, validate_token-construct_token,
}
use cashweb_backends.Token.ChainCommitment as ChainCommitment
use cashweb_backends.Token.ChainCommitment.{Chain, decode_slice, construct_commitment}
use cashweb_backends.Token.ChainCommitment.Commits.{commitment_script, validate_token_iff}

split_pop_token_lem_example :
    let s = pop_prefix ++ (97 ∷ 98 ∷ []) in
    ((token : List ℕ)
      → (split_pop_token {E = Unit {0}} s ≡ ok (some token))
        ↔ ((s ≡ pop_prefix ++ token) × IsToken token))
    × ((split_pop_token {E = Unit {0}} s ≡ panic)
        ↔ ((4 < length s) × (is_continuation (get_or s 4 0) ≡ true)))
    × ((e : Unit {0}) → split_pop_token {E = Unit {0}} s ≢ err e)
split_pop_token_lem_example = split_pop_token_lem {E = Unit {0}} (pop_prefix ++ (97 ∷ 98 ∷ []))

-- The token "abcé" has its fifth byte inside the last character.
inside_character : split_pop_token {E = Unit {0}} (97 ∷ 98 ∷ 99 ∷ 195 ∷ 169 ∷ []) ≡ panic
unfolding split_pop_token
inside_character = refl

validate_token-construct_token_example :
    ((validate_token plain prefix_mac (1 ∷ []) (2 ∷ []) (1 ∷ 2 ∷ []) ≡ ok tt)
      ↔ (plain.decode (1 ∷ 2 ∷ []) ≡ ok (1 ∷ 2 ∷ [])))
    × (validate_token plain prefix_mac
          (1 ∷ [])
          (2 ∷ [])
          (construct_token plain prefix_mac (1 ∷ []) (2 ∷ []))
        ≡ ok tt)
    × (validate_token plain prefix_mac
            (1 ∷ [])
            (2 ∷ [])
            (construct_token plain prefix_mac (1 ∷ []) (3 ∷ []))
          ≡ ok tt
        → prefix_mac.sign (1 ∷ []) (3 ∷ []) ≡ prefix_mac.sign (1 ∷ []) (2 ∷ []))
validate_token-construct_token_example =
    validate_token-construct_token plain_laws prefix_mac-laws (1 ∷ []) (2 ∷ []) (3 ∷ [])
      (1 ∷ 2 ∷ [])

abbrev chain : Chain
chain = record {
  NodeError = Unit {0};
  get_raw_transaction = λ tx_id. ok tx_id;
  sha256 = sum_digest;
  Slice = Slice;
  slice_buf = slice_buf;
  as_slice = λ xs. record { contents = to_bytes xs; valid = to_bytes-IsBytes xs };
}

abbrev outpoint_raw : List ℕ
outpoint_raw = replicate 36 0

validate_token_iff_example :
    (ChainCommitment.validate_token plain chain (1 ∷ []) (2 ∷ []) outpoint_raw ≡ ok outpoint_raw)
    ↔ ((plain.decode outpoint_raw ≡ ok outpoint_raw)
        × (length outpoint_raw ≡ 36)
        × (raw_transaction : List ℕ) × (transaction : Transaction) × (output : Output)
        × (chain.get_raw_transaction (take 32 outpoint_raw) ≡ ok raw_transaction)
        × (decode_slice plain chain raw_transaction ≡ ok transaction)
        × (get_elem? transaction.outputs (from_le_bytes (take 4 (drop 32 outpoint_raw)))
            ≡ some output)
        × (output.script ≡ commitment_script (construct_commitment plain chain (1 ∷ []) (2 ∷ []))))
validate_token_iff_example =
    validate_token_iff plain chain (λ xs. refl) (1 ∷ []) (2 ∷ []) outpoint_raw outpoint_raw
