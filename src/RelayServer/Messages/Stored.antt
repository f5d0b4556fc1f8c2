-- ===== src/RelayServer/Messages/Stored.antt =====
-- What a message that was put has passed, and who finds it.
use cashweb_backends.Common.{
  ℕ, ◌≡◌, ◌≢◌, ◌⊎◌, inl, inr, refl, sym, ap, ap₂, ◌∙◌, List, Bool, true, false, some, bytes_eq,
  subst, Bool-cases,
}
use cashweb_backends.Common.Exec.{Outcome, ok, err, map_err, ◌>>=◌}
use cashweb_backends.Common.Exec.Rules.{and_then-eq-ok, map_err-eq-ok, continue-eq-ok, value-eq-ok}
use cashweb_backends.Bitcoin.Transaction.{Transaction}
use cashweb_backends.Relay.Stamp.{Crypto}
use cashweb_backends.Relay.Message.{Message, ParsedMessage, parse, parsed_verify_stamp}
use cashweb_backends.RelayServer.Rocks.{Rocks, IsRocks}
use cashweb_backends.RelayServer.Database.{digest_namespace, push_message, get_message_by_digest}
use cashweb_backends.RelayServer.Database.Digests.{UnlessError, push_message-get}
use cashweb_backends.RelayServer.Messages.{
  Net, Error, Server, pubkey_hash_of, message_parsing, stamp_verify, stamp_broadcast, broadcast,
  check_stamp, accept, on_database, set_database, truncated, send, notify, store, received, put_one,
}

module _ (crypto : Crypto) (net : Net) {D : Type 0} (rocks : Rocks D) where
  open crypto use {secp}
  open secp use {PublicKey}

  check_stamp-verify :
      (is_self_send : Bool) (parsed : ParsedMessage PublicKey)
      → check_stamp crypto net rocks is_self_send parsed ≡ ok tt
      → (is_self_send ≡ true)
        ⊎ ((txs : List Transaction) × (parsed_verify_stamp crypto parsed ≡ ok txs))
  unfolding check_stamp
  check_stamp-verify true parsed h = inl refl
  check_stamp-verify false parsed h =
      let (txs, v, e) =
        and_then-eq-ok (map_err stamp_verify (parsed_verify_stamp crypto parsed)) _ h in
      inr (txs, map_err-eq-ok _ _ v)

  accepted :
      (is_self_send : Bool) (message : Message) (parsed : ParsedMessage PublicKey)
      → accept crypto net rocks is_self_send message ≡ ok parsed
      → (parse crypto message ≡ ok parsed)
        × ((is_self_send ≡ true)
            ⊎ ((txs : List Transaction) × (parsed_verify_stamp crypto parsed ≡ ok txs)))
        × (broadcast crypto net rocks parsed.stamp.stamp_outpoints ≡ ok tt)
  unfolding accept
  accepted is_self_send message parsed h =
      let (p, e, h1) = and_then-eq-ok (map_err message_parsing (parse crypto message)) _ h in
      let (u, c, h2) = and_then-eq-ok (check_stamp crypto net rocks is_self_send p) _ h1 in
      let (v, b, h3) =
        and_then-eq-ok
          (map_err stamp_broadcast (broadcast crypto net rocks p.stamp.stamp_outpoints)) _ h2 in
      let same : p ≡ parsed = value-eq-ok (ok p) h3 in
      subst
        (λ (q : ParsedMessage PublicKey).
          (parse crypto message ≡ ok q)
          × ((is_self_send ≡ true)
              ⊎ ((txs : List Transaction) × (parsed_verify_stamp crypto q ≡ ok txs)))
          × (broadcast crypto net rocks q.stamp.stamp_outpoints ≡ ok tt))
        same (map_err-eq-ok _ _ e, check_stamp-verify is_self_send p c, map_err-eq-ok _ _ b)

  set_database-ok :
      (r : Outcome rocks.RocksError (Unit {0}) × D) (s s' : Server D)
      → set_database crypto net rocks r s ≡ (ok tt, s')
      → r ≡ (ok tt, s'.database)
  set_database-ok (r, d) s s' h =
      ap₂ (λ x y. (x, y)) (map_err-eq-ok _ r (ap (λ z. z.0) h))
        (ap (λ (z : Outcome (Error crypto net rocks) (Unit {0}) × Server D). z.1.database) h)

  send-database :
      (address bytes : List ℕ) (s : Server D)
      → (send crypto net rocks address bytes s).1.database ≡ s.database
  unfolding send
  send-database address bytes s = elim (Bool-cases (net.subscribed address)) [
    | inl yes_sent ↦ rw yes_sent refl
    | inr not_sent ↦ rw not_sent refl
  ]

  notify-database :
      (is_self_send : Bool) (source destination bytes : List ℕ) (s : Server D)
      → (notify crypto net rocks is_self_send source destination bytes s).1.database ≡ s.database
  unfolding notify ◌>>=◌
  notify-database true source destination bytes s = send-database destination bytes s
  notify-database false source destination bytes s =
      unfold send in
      send-database destination bytes (send crypto net rocks source bytes s).1
      ∙ send-database source bytes s

  module _ (laws : IsRocks rocks) where
    -- A message is put only if it parses, its stamp verifies or it goes from an address to itself, and
    -- the node takes all transactions of its stamp. Then the destination finds it by its digest, with
    -- the time at which it was received, unless the database fails.
    pub put_one_lem :
        (timestamp namespace : ℕ) (given : Message) (s s' : Server D)
        → namespace ≢ digest_namespace
        → put_one crypto net rocks timestamp namespace given s ≡ (ok tt, s')
        → let message = received crypto net rocks timestamp given in
          let source = pubkey_hash_of crypto net rocks message.source_public_key in
          let destination = pubkey_hash_of crypto net rocks message.destination_public_key in
          (parsed : ParsedMessage PublicKey) × (parse crypto message ≡ ok parsed)
          × ((bytes_eq destination source ≡ true)
              ⊎ ((txs : List Transaction) × (parsed_verify_stamp crypto parsed ≡ ok txs)))
          × (broadcast crypto net rocks parsed.stamp.stamp_outpoints ≡ ok tt)
          × UnlessError
              (get_message_by_digest rocks destination parsed.payload_digest namespace s'.database)
              (some (net.encode message))
    unfolding put_one ◌>>=◌ on_database store
    put_one_lem timestamp namespace given s s' n h =
        let message = received crypto net rocks timestamp given in
        let source = pubkey_hash_of crypto net rocks message.source_public_key in
        let destination = pubkey_hash_of crypto net rocks message.destination_public_key in
        let self = bytes_eq destination source in
        let (parsed, s0, a, h1) = continue-eq-ok _ (accept crypto net rocks self message, s) h in
        let (u, s1, p, q) =
          continue-eq-ok
            (λ u.
              notify crypto net rocks self source destination
                (truncated crypto net rocks parsed (net.encode message)))
            (on_database crypto net rocks
              (store crypto net rocks source destination timestamp (net.encode message)
                parsed.payload_digest namespace)
              s0)
            h1 in
        let (parses, stamped, sent) = accepted self message parsed (ap (λ z. z.0) a) in
        let stored =
          set_database-ok
            (store crypto net rocks source destination timestamp (net.encode message)
              parsed.payload_digest namespace s0.database)
            s0 s1 p in
        let (v, d1, _, pushed) =
          continue-eq-ok
            (λ v.
              push_message rocks destination timestamp (net.encode message) parsed.payload_digest
                namespace)
            (push_message rocks source timestamp (net.encode message) parsed.payload_digest
              namespace s0.database)
            stored in
        let (found, _) =
          push_message-get rocks laws destination (net.encode message) parsed.payload_digest
            timestamp namespace d1 s1.database n pushed in
        let same : s1.database ≡ s'.database =
          sym (
            notify-database self source destination
              (truncated crypto net rocks parsed (net.encode message)) s1)
          ∙ ap (λ (z : Outcome (Error crypto net rocks) (Unit {0}) × Server D). z.1.database) q in
        (
          parsed,
          parses,
          stamped,
          sent,
          subst
              (λ d.
                UnlessError
                  (get_message_by_digest rocks destination parsed.payload_digest namespace d)
                  (some (net.encode message)))
              same found,
        )

  -- A message that is not accepted, be it that it does not parse, that its stamp does not verify or that
  -- the node refuses a transaction, changes nothing: neither the database nor what is sent.
  pub put_one-refused :
      (timestamp namespace : ℕ) (given : Message) (s : Server D) (e : Error crypto net rocks)
      → accept crypto net rocks
          (bytes_eq
            (pubkey_hash_of crypto net rocks given.destination_public_key)
            (pubkey_hash_of crypto net rocks given.source_public_key))
          (received crypto net rocks timestamp given)
        ≡ err e
      → put_one crypto net rocks timestamp namespace given s ≡ (err e, s)
  unfolding put_one ◌>>=◌
  put_one-refused timestamp namespace given s e a = rw a refl
