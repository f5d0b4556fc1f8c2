-- ===== src/KeyServer/Payments/Found.antt =====
-- The commitment that a payment is searched for, and what went to the node.
use cashweb_backends.Common.{
  ℕ, suc, ◌+◌, ◌<◌, ◌≡◌, ◌⊎◌, inl, inr, refl, sym, ap, ◌∙◌, List, [], ◌∷◌, Option, none, some, true,
  not, if◌then◌else◌, length, take, get_elem?, reverse, ◌==◌, bytes_eq, bytes_eq→eq, Bool-cases,
  subst, arith, take_all, length-reverse,
}
use mathlib.Core.List.{Memᴰ}
use mathlib.Core.List.Memᴰ.{head, tail}
use cashweb_backends.Common.Exec.{Outcome, ok, map_err, unwrap}
use cashweb_backends.Common.Exec.Rules.{and_then-eq-ok, map_err-eq-ok, value-eq-ok, if-eq-ok}
use cashweb_backends.Bitcoin.Buf.{BufMut, put_uint}
use cashweb_backends.Bitcoin.Buf.ByteVec.{ByteVec, write_to_vec}
use cashweb_backends.Bitcoin.Merkle.{sha256d, lotus_merkle_root}
use cashweb_backends.Bitcoin.Transaction.{Transaction}
use cashweb_backends.Bitcoin.Transaction.Output.{Output}
use cashweb_backends.Bitcoin.Transaction.Script.{op_return}
use cashweb_backends.Bitcoin.Transaction.SignatureHash.{
  leaves, input_leaf, output_leaf, transaction_id, transaction_id_rev,
}
use cashweb_backends.BitcoinClient.{BitcoinClient}
use cashweb_backends.Payments.Bip70.{Encoders, Settings}
use cashweb_backends.Token.HmacBearer.{Base64}
use cashweb_backends.Token.ChainCommitment.{Chain}
use cashweb_backends.Token.ChainCommitment.Commits.{commitment_script}
use cashweb_backends.KeyServer.Payments.{
  incorrect_length_preimage, node, is_commitment, find_output, or_next, find_commitment, decode_tx,
  decode_txs, send_txs, check_preimage,
}

is_commitment-ok :
    (commitment raw : List ℕ)
    → is_commitment commitment raw ≡ true
    → raw ≡ op_return ∷ 32 ∷ commitment
unfolding is_commitment
is_commitment-ok commitment [] h = cc h
is_commitment-ok commitment (a ∷ []) h = cc h
is_commitment-ok commitment (a ∷ b ∷ raw) h =
    let e0 : a ≡ op_return = ground (arith, h) in
    let e1 : b ≡ 32 = ground (arith, h) in
    let len : length raw ≡ 32 = ground (arith, h) in
    let found : bytes_eq (take 32 raw) commitment ≡ true = ground (arith, h) in
    let same : raw ≡ commitment =
      sym (take_all 32 raw len) ∙ bytes_eq→eq (take 32 raw) commitment found in
    rw (e0, e1, same) refl

pub find_output-some :
    (commitment : List ℕ) (first : ℕ) (outputs : List Output) (vout : ℕ)
    → find_output commitment first outputs ≡ some vout
    → (i : ℕ) × (vout ≡ first + i)
      × (i < length outputs)
      × (output : Output) × (get_elem? outputs i ≡ some output)
      × (output.script ≡ commitment_script commitment)
unfolding find_output
find_output-some commitment first [] vout h = cc h
find_output-some commitment first (output ∷ outputs) vout h =
    elim (Bool-cases (is_commitment commitment output.script.raw)) [
      | inl here ↦
          let e : some first ≡ some vout =
            subst
              (λ b.
                (if b then some first else find_output commitment (first + 1) outputs) ≡ some vout)
              here h in
          let same : first ≡ vout = cc e in
          (
            0,
            omega (arith, same),
            omega arith,
            output,
            refl,
            ap (λ xs. record { raw = xs }) (is_commitment-ok commitment output.script.raw here),
          )
      | inr not_here ↦
          let e : find_output commitment (first + 1) outputs ≡ some vout =
            subst
              (λ b.
                (if b then some first else find_output commitment (first + 1) outputs) ≡ some vout)
              not_here h in
          let (i, at, small, found, g, s) =
            find_output-some commitment (first + 1) outputs vout e in
          (suc i, omega (arith, at), omega (arith, small), found, g, s)
    ]

next_or :
    (tx_id : List ℕ) (found : Option ℕ) (rest : Option (List ℕ × ℕ)) (outpoint : List ℕ × ℕ)
    → or_next tx_id found rest ≡ some outpoint
    → ((tx_id ≡ outpoint.0) × (found ≡ some outpoint.1)) ⊎ (rest ≡ some outpoint)
next_or tx_id none rest outpoint h = inr h
next_or tx_id (some vout) rest outpoint h =
    let same : (tx_id, vout) ≡ outpoint = cc h in
    inl (ap (λ (z : List ℕ × ℕ). z.0) same, ap (λ (z : List ℕ × ℕ). some z.1) same)

pub find_commitment-some :
    (commitment : List ℕ) (entries : List (Transaction × List ℕ)) (outpoint : List ℕ × ℕ)
    → find_commitment commitment entries ≡ some outpoint
    → (entry : Transaction × List ℕ) × Memᴰ entry entries
      × (entry.1 ≡ outpoint.0)
      × (find_output commitment 0 entry.0.outputs ≡ some outpoint.1)
unfolding find_commitment
find_commitment-some commitment [] outpoint h = cc h
find_commitment-some commitment (entry ∷ entries) outpoint h =
    elim (next_or entry.1 (find_output commitment 0 entry.0.outputs)
      (find_commitment commitment entries) outpoint h) [
        | inl (same, found) ↦ (entry, head refl, same, found)
        | inr later ↦
            let (other, m, same, found) = find_commitment-some commitment entries outpoint later in
            (other, tail m, same, found)
      ]

not_in : {A : Type 0} {x : A} {B : Type 0} → Memᴰ x [] → B
not_in m = elim m [ ]

module _ (sha256 : List ℕ → List ℕ) {W : Type 0} ⦃buf : BufMut W⦄ (vec : ByteVec W) where
  pub length-transaction_id_rev :
      ((xs : List ℕ) → length (sha256 xs) ≡ 32)
      → (tx : Transaction) (id : List ℕ) → transaction_id_rev sha256 vec tx ≡ ok id
      → length id ≡ 32
  unfolding transaction_id_rev transaction_id sha256d
  length-transaction_id_rev sha256_len tx id h =
      let (txid, h0, e) = and_then-eq-ok (transaction_id sha256 vec tx) _ h in
      let (version, a, h1) = and_then-eq-ok (write_to_vec vec (put_uint tx.version 4)) _ h0 in
      let (inputleaves, b, h2) =
        and_then-eq-ok (leaves sha256 vec (input_leaf sha256 vec) tx.inputs) _ h1 in
      let (inputs, c, h3) = and_then-eq-ok (unwrap (lotus_merkle_root sha256 inputleaves)) _ h2 in
      let (outputleaves, d, h4) =
        and_then-eq-ok (leaves sha256 vec (output_leaf sha256 vec) tx.outputs) _ h3 in
      let (outputs, f, h5) = and_then-eq-ok (unwrap (lotus_merkle_root sha256 outputleaves)) _ h4 in
      let (lock_time, g, h6) = and_then-eq-ok (write_to_vec vec (put_uint tx.lock_time 4)) _ h5 in
      let same = value-eq-ok (ok _) h6 in
      sym (ap length (value-eq-ok (ok (reverse txid)) e))
      ∙ length-reverse txid
      ∙ sym (ap length same)
      ∙ sha256_len _

module _ (client : BitcoinClient) (base64 : Base64) (chain : Chain) (encoders : Encoders)
    (settings : Settings) {EncodingError : Type 0}
    (encode_address : List ℕ → Outcome EncodingError (List ℕ)) {W : Type 0} ⦃buf : BufMut W⦄
    (vec : ByteVec W) {D : Type 0} where
  pub decode_txs-Mem :
      (raws : List (List ℕ)) (entries : List (Transaction × List ℕ)) (entry : Transaction × List ℕ)
      → decode_txs client base64 chain encoders settings encode_address vec {D = D} raws
        ≡ ok entries
      → Memᴰ entry entries
      → (raw : List ℕ) × Memᴰ raw raws
        × (decode_tx client base64 chain encoders settings encode_address vec {D = D} raw
            ≡ ok entry)
  unfolding decode_txs
  decode_txs-Mem [] entries entry h m = not_in (subst (Memᴰ entry) (sym (value-eq-ok (ok []) h)) m)
  decode_txs-Mem (raw ∷ raws) entries entry h m =
      let (first, d, h1) =
        and_then-eq-ok
          (decode_tx client base64 chain encoders settings encode_address vec {D = D} raw) _ h in
      let (rest, r, h2) =
        and_then-eq-ok
          (decode_txs client base64 chain encoders settings encode_address vec {D = D} raws) _ h1 in
      let m' : Memᴰ entry (first ∷ rest) =
        subst (Memᴰ entry) (sym (value-eq-ok (ok (first ∷ rest)) h2)) m in
      elim m' [
        | head e ↦ (raw, head refl, d ∙ ap ok (sym e))
        | tail later ↦
            let (other, o, found) = decode_txs-Mem raws rest entry r later in (other, tail o, found)
      ]

  pub send_txs-Mem :
      (raws : List (List ℕ)) (raw : List ℕ)
      → send_txs client base64 chain encoders settings encode_address vec {D = D} raws ≡ ok tt
      → Memᴰ raw raws
      → (reply : List ℕ) × (client.send_tx raw ≡ ok reply)
  unfolding send_txs
  send_txs-Mem [] raw h m = not_in m
  send_txs-Mem (first ∷ raws) raw h m =
      let (reply, s, h1) = and_then-eq-ok (map_err node (client.send_tx first)) _ h in
      elim m [
        | head e ↦
            (reply, subst (λ x. client.send_tx x ≡ ok reply) (sym e) (map_err-eq-ok node _ s))
        | tail later ↦ send_txs-Mem raws raw h1 later
      ]

  pub check_preimage-ok :
      (merchant_data : Option (List ℕ)) (preimage : List ℕ)
      → check_preimage client base64 chain encoders settings encode_address vec {D = D}
          merchant_data
        ≡ ok preimage
      → (merchant_data ≡ some preimage) × (length preimage ≡ 64)
  unfolding check_preimage
  check_preimage-ok none preimage h = cc h
  check_preimage-ok (some given) preimage h =
      let (bad, g) = if-eq-ok (not (length given == 64)) incorrect_length_preimage _ h in
      let same : given ≡ preimage = value-eq-ok (ok given) g in
      let len : length given ≡ 64 = ground (arith, bad) in
      (ap some same, subst (λ xs. length xs ≡ 64) same len)
  -- The outpoint that was found is an output of a transaction of the payment that the node has.
