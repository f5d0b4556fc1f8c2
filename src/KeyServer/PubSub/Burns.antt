-- ===== src/KeyServer/PubSub/Burns.antt =====
-- What a message that was put has burnt, and what is stored of it.
use cashweb_backends.Common.{
  ℕ, ◌-◌, ◌%◌, ◌++◌, sym, ap₂, take_all, to_be_bytes, ◌^◌, ◌<◌, ◌≡◌, ◌⊎◌, inl, inr, refl, ap, ◌∙◌,
  List, [], ◌∷◌, Option, none, some, Bool, true, false, not, ◌&&◌, ◌||◌, length, take, drop, get_or,
  get_elem?, ltb, ltb→lt, ◌==◌, ==_iff, bytes_eq, bytes_eq→eq, All, subst, Bool-cases, arith,
}
use cashweb_backends.Common.Exec.{Outcome, ok, map_err, unwrap, unwrap_ok}
use cashweb_backends.Common.Exec.Rules.{
  and_then-eq-ok, map_err-eq-ok, unwrap_ok-eq-ok, if-eq-ok, if-ok-eq-ok, value-eq-ok,
}
use cashweb_backends.Bitcoin.Transaction.{Transaction}
use cashweb_backends.Bitcoin.Transaction.Output.{Output}
use cashweb_backends.Bitcoin.Transaction.Script.{is_op_return, is_empty, op_return}
use cashweb_backends.Bitcoin.Buf.{BufMut}
use cashweb_backends.Bitcoin.Buf.ByteVec.{ByteVec}
use cashweb_backends.Bitcoin.Transaction.SignatureHash.{transaction_id}
use cashweb_backends.Bitcoin.Transaction.Slices.{Slices, decode_tx}
use cashweb_backends.BitcoinClient.{BitcoinClient}
use cashweb_backends.AuthWrapper.{BurnOutputs}
use cashweb_backends.RelayServer.Rocks.{Rocks}
use cashweb_backends.KeyServer.PubSub.{Text}
use cashweb_backends.KeyServer.PubSub.Handlers.{
  commitment_length, Burns, remove, insert, signed, map_key, is_burn_script, value_of, check_output,
  add_burn, send_burns, rpc_error,
}

-- The script of a burn for or against a payload.
abbrev pub burn_script : ℕ → List ℕ → List ℕ
burn_script vote digest = op_return ∷ 4 ∷ 80 ∷ 79 ∷ 78 ∷ 68 ∷ vote ∷ 32 ∷ digest

vote_lem : (v : ℕ) → ((v == 81) || (v == 0)) ≡ true → (v ≡ 81) ⊎ (v ≡ 0)
vote_lem v h = elim (Bool-cases (v == 81)) [
  | inl up ↦ inl ((==_iff v 81).0 up)
  | inr not_up ↦ inr ((==_iff v 0).0 (subst (λ b. (b || (v == 0)) ≡ true) not_up h))
]

script_lem :
    (raw digest : List ℕ)
    → (get_or raw 0 0 == op_return) ≡ true
    → (length raw == commitment_length) ≡ true
    → is_burn_script raw ≡ true
    → bytes_eq digest (take 32 (drop 8 raw)) ≡ true
    → (raw ≡ burn_script (get_or raw 6 0) digest) × ((get_or raw 6 0 ≡ 81) ⊎ (get_or raw 6 0 ≡ 0))
unfolding is_burn_script
script_lem (a ∷ b ∷ c ∷ d ∷ e ∷ f ∷ v ∷ g ∷ raw) digest o l s t =
    let len : length raw ≡ 32 = ground (arith, l) in
    let same : digest ≡ raw = bytes_eq→eq digest (take 32 raw) t ∙ take_all 32 raw len in
    let e0 : a ≡ op_return = ground (arith, o) in
    let e1 : b ≡ 4 = ground (arith, s) in
    let e2 : c ≡ 80 = ground (arith, s) in
    let e3 : d ≡ 79 = ground (arith, s) in
    let e4 : e ≡ 78 = ground (arith, s) in
    let e5 : f ≡ 68 = ground (arith, s) in
    let e6 : g ≡ 32 = ground (arith, s) in
    let votes : ((v == 81) || (v == 0)) ≡ true = ground (arith, s) in
    (rw (e0, e1, e2, e3, e4, e5, e6, same) refl, vote_lem v votes)
script_lem raw digest o l s t = cc l

unwrap-ok : {E A : Type 0} (o : Option A) {a : A} → unwrap {E = E} o ≡ ok a → o ≡ some a
unwrap-ok none h = cc h
unwrap-ok (some a) h = cc h

not-false : (b : Bool) → not b ≡ false → b ≡ true
not-false true h = refl
not-false false h = cc h

and-right : (a b : Bool) → (a && b) ≡ true → b ≡ true
and-right true b h = h
and-right false b h = cc h

module _ (slices : Slices) (client : BitcoinClient) (text : Text) {D : Type 0} (rocks : Rocks D)
    {DecodeError : Type 0} (decode_topic : List ℕ → Outcome DecodeError (List ℕ)) {W : Type 0}
    ⦃buf : BufMut W⦄ (vec : ByteVec W) where
  -- An output that burns its value for or against a payload, the key under which it counts, which is the
  -- ID of its transaction and its index, and the amount that it counts, a signed number of 64 bits.
  abbrev pub IsBurn : List ℕ → BurnOutputs → List ℕ → ℕ → Type 0
  IsBurn digest burn key amount =
      (tx : Transaction) × (output : Output) × (vote : ℕ) × (txid : List ℕ) × (decode_tx slices
          burn.tx
        ≡ ok tx)
      × (get_elem? tx.outputs burn.index ≡ some output)
      × (output.script.raw ≡ burn_script vote digest)
      × (output.value < 2 ^ 63)
      × (transaction_id text.sha256 vec tx ≡ ok txid)
      × (key ≡ txid ++ to_be_bytes 4 burn.index)
      × (((vote ≡ 81) × (amount ≡ output.value))
          ⊎ ((vote ≡ 0) × (amount ≡ (2 ^ 64 - output.value) % 2 ^ 64)))

  abbrev pub IsSent : BurnOutputs → Type 0
  IsSent burn = (id : List ℕ) × (client.send_tx burn.tx ≡ ok id)

  check_output-ok :
      (digest : List ℕ) (output : Output) (upvote : Bool)
      → check_output slices client text rocks decode_topic vec digest output ≡ ok upvote
      → (output.script.raw ≡ burn_script (get_or output.script.raw 6 0) digest)
        × ((get_or output.script.raw 6 0 ≡ 81) ⊎ (get_or output.script.raw 6 0 ≡ 0))
        × (upvote ≡ (get_or output.script.raw 6 0 == 81))
  unfolding check_output is_op_return
  check_output-ok digest output upvote h =
      let (o, h1) = if-eq-ok (not (is_op_return output.script)) _ _ h in
      let (l, h2) = if-eq-ok (not (length output.script.raw == commitment_length)) _ _ h1 in
      let (s, h3) = if-eq-ok (not (is_burn_script output.script.raw)) _ _ h2 in
      let (t, h4) = if-eq-ok (not (bytes_eq digest (take 32 (drop 8 output.script.raw)))) _ _ h3 in
      let (script, votes) =
        script_lem output.script.raw digest
          (and-right (not (is_empty output.script.raw)) (get_or output.script.raw 0 0 == op_return)
            (not-false
              (not (is_empty output.script.raw) && (get_or output.script.raw 0 0 == op_return)) o))
          (not-false (length output.script.raw == commitment_length) l)
          (not-false (is_burn_script output.script.raw) s)
          (not-false (bytes_eq digest (take 32 (drop 8 output.script.raw))) t) in
      (script, votes, sym (value-eq-ok (ok (get_or output.script.raw 6 0 == 81)) h4))

  amount_lem :
      (vote value counted amount : ℕ) (upvote : Bool)
      → (vote ≡ 81) ⊎ (vote ≡ 0)
      → upvote ≡ (vote == 81)
      → counted ≡ value
      → amount ≡ signed upvote counted
      → ((vote ≡ 81) × (amount ≡ value)) ⊎ ((vote ≡ 0) × (amount ≡ (2 ^ 64 - value) % 2 ^ 64))
  amount_lem vote value counted amount upvote (inl up) u c a =
      let e : upvote ≡ true = u ∙ ap (λ v. v == 81) up in inl (up, a ∙ ap₂ signed e c)
  amount_lem vote value counted amount upvote (inr down) u c a =
      let e : upvote ≡ false = u ∙ ap (λ v. v == 81) down in inr (down, a ∙ ap₂ signed e c)

  -- A burn that is added stands under its key, whatever stood there.
  pub add_burn-ok :
      (digest : List ℕ) (burn : BurnOutputs) (burns more : Burns)
      → add_burn slices client text rocks decode_topic vec digest burn burns ≡ ok more
      → (key : List ℕ) × (amount : ℕ) × IsBurn digest burn key amount
        × (more ≡ (key, record { outputs = burn; amount = amount }) ∷ remove key burns)
  unfolding add_burn map_key insert
  add_burn-ok digest burn burns more h =
      let (tx, t, h1) = and_then-eq-ok (unwrap_ok (decode_tx slices burn.tx)) _ h in
      let (output, o, h2) = and_then-eq-ok (unwrap (get_elem? tx.outputs burn.index)) _ h1 in
      let (upvote, c, h3) =
        and_then-eq-ok (check_output slices client text rocks decode_topic vec digest output) _
          h2 in
      let (value, v, h4) =
        and_then-eq-ok (value_of slices client text rocks decode_topic vec output) _ h3 in
      let (key, k, h5) =
        and_then-eq-ok (map_key slices client text rocks decode_topic vec tx burn.index) _ h4 in
      let (txid, i, k1) = and_then-eq-ok (unwrap_ok (transaction_id text.sha256 vec tx)) _ k in
      let (script, votes, up) = check_output-ok digest output upvote c in
      let (small, w) = if-ok-eq-ok (ltb output.value (2 ^ 63)) _ _ v in
      (
        key,
        signed upvote value,
        (
          tx,
          output,
          get_or output.script.raw 6 0,
          txid,
          unwrap_ok-eq-ok _ t,
          unwrap-ok _ o,
          script,
          ltb→lt output.value (2 ^ 63) small,
          unwrap_ok-eq-ok _ i,
          sym (value-eq-ok (ok _) k1),
          amount_lem (get_or output.script.raw 6 0) output.value value (signed upvote value) upvote
              votes up (sym (value-eq-ok (ok output.value) w)) refl,
        ),
        sym (value-eq-ok (ok _) h5),
      )

  pub send_burns-ok :
      (transactions : List BurnOutputs)
      → send_burns slices client text rocks decode_topic vec transactions ≡ ok tt
      → All IsSent transactions
  unfolding send_burns
  send_burns-ok [] h = tt
  send_burns-ok (burn ∷ transactions) h =
      let (id, b, h1) = and_then-eq-ok (map_err rpc_error (client.send_tx burn.tx)) _ h in
      ((id, map_err-eq-ok _ _ b), send_burns-ok transactions h1)
