-- ===== src/KeyServer/PubSub/Stored.antt =====
-- What is stored of a message that was put, and what its PUT has shown.
use cashweb_backends.Common.{
  ℕ, zero, suc, ◌+◌, ◌%◌, ◌^◌, ◌≡◌, sum, map, inl, inr, refl, sym, ap, ◌∙◌, List, [], Bool, true,
  false, if◌then◌else◌, length, take, All, subst,
}
use cashweb_backends.Common.Exec.{
  Outcome, ok, err, panic, map_err, mapping_err, pure, with_err, ◌>>=◌, ◌>>◌,
}
use cashweb_backends.Common.Exec.Rules.{and_then-eq-ok, continue-eq-ok, value-eq-ok, with_err-eq-ok}
use cashweb_backends.Http.{Response, with_body}
use cashweb_backends.Bitcoin.Transaction.Script.{is_empty}
use cashweb_backends.Bitcoin.Buf.{BufMut}
use cashweb_backends.Bitcoin.Buf.ByteVec.{ByteVec}
use cashweb_backends.Bitcoin.Transaction.Slices.{Slices}
use cashweb_backends.BitcoinClient.{BitcoinClient}
use cashweb_backends.AuthWrapper.{AuthWrapper}
use cashweb_backends.RelayServer.Rocks.{Rocks, IsRocks}
use cashweb_backends.RelayServer.Database.Digests.{UnlessFails}
use cashweb_backends.KeyServer.PubSub.{
  rocks_db, check_topic, Text, Families, DbError, set_payloads, set_messages, put_payload,
  put_index, put_indices, put_message, get_message, split_topic, topical_key,
}
use cashweb_backends.KeyServer.PubSub.Handlers.{
  Burn, Burns, Error, total, add_burns, send_burns, check_payload, decode_error, no_burns,
  with_digest, accept, finish, put_new, put_accepted, put_digested, handle_put,
  invalid_output_format, database_error,
}
use cashweb_backends.KeyServer.PubSub.Burns.{IsSent, send_burns-ok}
use cashweb_backends.KeyServer.PubSub.Counted.{IsCounted, add_burns-IsCounted}

module _ (slices : Slices) (client : BitcoinClient) (text : Text) {D : Type 0} (rocks : Rocks D)
    {DecodeError : Type 0} (decode_topic : List ℕ → Outcome DecodeError (List ℕ)) {W : Type 0}
    ⦃buf : BufMut W⦄ (vec : ByteVec W) where
  module _ (laws : IsRocks rocks)
      (decode-encode : (w : AuthWrapper) → text.decode (text.encode w) ≡ ok w) where
    index_by :
        (p : Outcome rocks.RocksError (Unit {0}) × D) (s s' : Families D)
        → set_messages text rocks p s ≡ (ok tt, s')
        → s'.payloads ≡ s.payloads
    index_by (ok u, d) s s' h = ap (λ (z : Families D). z.payloads) (sym (ap (λ z. z.1) h))
    index_by (err e, d) s s' h = cc (ap (λ z. z.0) h)
    index_by (panic, d) s s' h = cc (ap (λ z. z.0) h)

    payload_by :
        (p : Outcome rocks.RocksError (Unit {0}) × D) (s s' : Families D)
        → set_payloads text rocks p s ≡ (ok tt, s')
        → p ≡ (ok tt, s'.payloads)
    payload_by (ok u, d) s s' h =
        ap (λ (z : Outcome (DbError text rocks) (Unit {0}) × Families D). (ok tt, z.1.payloads)) h
    payload_by (err e, d) s s' h = cc (ap (λ z. z.0) h)
    payload_by (panic, d) s s' h = cc (ap (λ z. z.0) h)

    put_indices-payloads :
        (parts : List (List ℕ)) (timestamp : ℕ) (digest : List ℕ) (idx count : ℕ)
        (s s' : Families D)
        → put_indices text rocks parts timestamp digest idx count s ≡ (ok tt, s')
        → s'.payloads ≡ s.payloads
    unfolding put_indices put_index ◌>>=◌
    put_indices-payloads parts timestamp digest idx zero s s' h =
        ap (λ (z : Families D). z.payloads) (sym (ap (λ z. z.1) h))
    put_indices-payloads parts timestamp digest idx (suc count) s s' h =
        let (u, s1, p, h1) =
          continue-eq-ok
            (λ (u : Unit {0}). put_indices text rocks parts timestamp digest (idx + 1) count)
            (put_index text rocks (topical_key text (take idx parts) timestamp digest) digest s)
            h in
        put_indices-payloads parts timestamp digest (idx + 1) count s1 s' h1
        ∙ index_by
            (rocks.put (topical_key text (take idx parts) timestamp digest) digest s.messages) s s1
            p

    put_message-get :
        (timestamp : ℕ) (topic : List ℕ) (message : AuthWrapper) (s s' : Families D)
        → put_message text rocks timestamp topic message s ≡ (ok tt, s')
        → UnlessFails rocks_db (get_message text rocks message.payload_digest s') message
    unfolding put_message put_payload get_message ◌>>=◌
    put_message-get timestamp topic message s s' h =
        let indices =
          put_indices text rocks (split_topic topic) timestamp message.payload_digest 0
            (length (split_topic topic) + 1) in
        let (u, s0, c, h1) =
          continue-eq-ok
            (λ (u : Unit {0}).
              put_payload text rocks message.payload_digest (text.encode message) >> indices)
            (check_topic text rocks (split_topic topic), s) h in
        let (u1, s1, p, h2) =
          continue-eq-ok (λ (u : Unit {0}). indices)
            (put_payload text rocks message.payload_digest (text.encode message) s0) h1 in
        let kept =
          put_indices-payloads (split_topic topic) timestamp message.payload_digest 0
            (length (split_topic topic) + 1) s1 s' h2 in
        let put0 =
          payload_by (rocks.put message.payload_digest (text.encode message) s0.payloads) s0 s1 p in
        let (c1, o1) =
          laws.put_lem message.payload_digest (text.encode message) s0.payloads s1.payloads put0 in
        elim (laws.get_lem message.payload_digest s'.payloads) [
          | inl found ↦ inl (rw (found, kept, c1, decode-encode message) refl)
          | inr (e, failed) ↦ inr (e, rw failed refl)
        ]

    put_new-get :
        (timestamp : ℕ) (topic : List ℕ) (message : AuthWrapper) (burns : Burns) (s s' : Families D)
        (response : Response)
        → put_new slices client text rocks decode_topic vec timestamp topic message burns s
          ≡ (ok response, s')
        → UnlessFails rocks_db
            (get_message text rocks message.payload_digest s')
            (record message { burn_amount = total burns })
    unfolding put_new mapping_err ◌>>=◌
    put_new-get timestamp topic message burns s s' response h =
        let m : AuthWrapper = record message { burn_amount = total burns } in
        let (u, s1, p, k) =
          continue-eq-ok
            (λ (u : Unit {0}).
              pure {E = Error slices client text rocks decode_topic vec} (with_body 200 []))
            (with_err database_error (put_message text rocks timestamp topic m s)) h in
        subst (λ z. UnlessFails rocks_db (get_message text rocks message.payload_digest z) m)
          (ap (λ z. z.1) k)
          (put_message-get timestamp topic m s s1 (with_err-eq-ok database_error _ p))

    finish-get :
        (timestamp : ℕ) (topic : List ℕ) (message : AuthWrapper) (burns : Burns)
        (existing : Outcome (DbError text rocks) AuthWrapper) (s s' : Families D)
        (response : Response)
        → finish slices client text rocks decode_topic vec timestamp topic message burns false
            existing s
          ≡ (ok response, s')
        → UnlessFails rocks_db
            (get_message text rocks message.payload_digest s')
            (record message { burn_amount = total burns })
    finish-get timestamp topic message burns (ok w) s s' response h =
        put_new-get timestamp topic message burns s s' response h
    finish-get timestamp topic message burns (err e) s s' response h =
        put_new-get timestamp topic message burns s s' response h
    finish-get timestamp topic message burns panic s s' response h = cc (ap (λ z. z.0) h)

    accept-ok :
        (message : AuthWrapper) (accepted : List ℕ × Burns)
        → accept slices client text rocks decode_topic vec message ≡ ok accepted
        → (add_burns slices client text rocks decode_topic vec message.payload_digest
              message.transactions []
            ≡ ok accepted.1)
          × (send_burns slices client text rocks decode_topic vec message.transactions ≡ ok tt)
    unfolding accept
    accept-ok message accepted h =
        let (topic, t, h1) =
          and_then-eq-ok (map_err decode_error (decode_topic message.payload)) _ h in
        let (u, c, h2) =
          and_then-eq-ok
            (check_payload slices client text rocks decode_topic vec message.payload topic) _ h1 in
        let (burns, b, h3) =
          and_then-eq-ok
            (add_burns slices client text rocks decode_topic vec message.payload_digest
              message.transactions [])
            _ h2 in
        let (v, sent, h4) =
          and_then-eq-ok (send_burns slices client text rocks decode_topic vec message.transactions)
            _ h3 in
        (b ∙ ap (λ (z : List ℕ × Burns). ok z.1) (value-eq-ok (ok (topic, burns)) h4), sent)

    has_burns :
        (none_given : Bool)
        (r : Outcome (Error slices client text rocks decode_topic vec) Response × Families D)
        (s s' : Families D) (response : Response)
        → ◌≡◌ {A = Outcome (Error slices client text rocks decode_topic vec) Response × Families D}
            (if none_given then (err invalid_output_format, s) else r)
            (ok response, s')
        → (none_given ≡ false) × (r ≡ (ok response, s'))
    has_burns true r s s' response h = cc (ap (λ z. z.0) h)
    has_burns false r s s' response h = (refl, h)

    -- A message whose PUT returns has burns, one at least. Each is an output in a transaction that decodes and
    -- that the node accepted, its script is that of a burn for or against the digest of the message and
    -- nothing else, and its value fits in 63 bits. A burn counts with its value if it is for the payload
    -- and with the negative of its value, modulo 2^64, if it is against it. Burns with the same ID of the
    -- transaction and the same index count once, and no burn is left out. If the message has a payload
    -- then the database gives it back under the digest, with the sum of what its burns count, modulo
    -- 2^64, as its amount, unless RocksDB fails.
    pub handle_put-ok :
        (timestamp : ℕ) (message : AuthWrapper) (s s' : Families D) (response : Response)
        → handle_put slices client text rocks decode_topic vec timestamp message s
          ≡ (ok response, s')
        → let m = with_digest slices client text rocks decode_topic vec message in
          (burns : Burns) × (no_burns slices client text rocks decode_topic vec message.transactions
            ≡ false)
          × (add_burns slices client text rocks decode_topic vec m.payload_digest m.transactions []
              ≡ ok burns)
          × IsCounted slices client text rocks decode_topic vec m.payload_digest m.transactions
              burns
          × All (IsSent slices client text rocks decode_topic vec) m.transactions
          × (is_empty m.payload ≡ false
              → UnlessFails rocks_db (get_message text rocks m.payload_digest s') (record m {
                burn_amount = sum (map (λ (entry : List ℕ × Burn). entry.1.amount) burns) % 2 ^ 64;
              }))
    unfolding total handle_put put_digested put_accepted ◌>>=◌
    handle_put-ok timestamp message s s' response h =
        let m = with_digest slices client text rocks decode_topic vec message in
        let (given, h0) =
          has_burns (no_burns slices client text rocks decode_topic vec message.transactions)
            (put_digested slices client text rocks decode_topic vec timestamp m s) s s' response
            h in
        let (accepted, s0, a, h1) =
          continue-eq-ok (put_accepted slices client text rocks decode_topic vec timestamp m)
            (accept slices client text rocks decode_topic vec m, s) h0 in
        let (b, sent) = accept-ok m accepted (ap (λ z. z.0) a) in
        (
          accepted.1,
          given,
          b,
          add_burns-IsCounted slices client text rocks decode_topic vec m.payload_digest
              m.transactions accepted.1 b,
          send_burns-ok slices client text rocks decode_topic vec m.transactions sent,
          λ f.
              finish-get timestamp accepted.0 m accepted.1
                (get_message text rocks m.payload_digest s0) s0 s' response
                (subst
                  (λ z.
                    finish slices client text rocks decode_topic vec timestamp accepted.0 m
                      accepted.1 z (get_message text rocks m.payload_digest s0) s0
                    ≡ (ok response, s'))
                  f h1),
        )
