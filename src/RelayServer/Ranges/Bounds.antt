-- ===== src/RelayServer/Ranges/Bounds.antt =====
-- Pages and their bounds, and what a removal leaves.
use cashweb_backends.Common.{
  ℕ, ◌≡◌, ◌≢◌, refl, sym, ap, ◌∙◌, List, [], ◌∷◌, Option, none, some, subst, All, inl, inr,
  Bool-cases, bytes_eq, bytes_eq→eq, bytes_eq_refl,
}
use cashweb_backends.Common.Exec.{Outcome, ok, unwrap_ok, ◌>>=◌}
use cashweb_backends.Common.Exec.Rules.{
  and_then-eq-ok, continue-eq-ok, value-eq-ok, unwrap_ok-eq-ok,
}
use cashweb_backends.Relay.Message.{Message, digest}
use cashweb_backends.Relay.Opening.{MessagePage}
use cashweb_backends.RelayServer.Rocks.{Rocks, IsRocks}
use cashweb_backends.RelayServer.Ranges.{
  decode_all, default_page, set_start, first, last, page_of, entries_in_range, get_messages_range,
  delete_all, remove_messages_range,
}

-- What one of the two blocks leaves in the bounds of a page.
abbrev Starts : (List ℕ → List ℕ) → Option Message → MessagePage → Type 0
Starts sha256 none page = Unit
Starts sha256 (some m) page =
    (page.start_time ≡ m.received_time)
    × (digest sha256 m.payload_digest m.payload ≡ ok page.start_digest)

Starts-set :
    (sha256 : List ℕ → List ℕ) (messages : List Message) (message : Option Message)
    (page : MessagePage)
    → Starts sha256 message page
    → Starts sha256 message (record page { messages = messages })
Starts-set sha256 messages none page h = h
Starts-set sha256 messages (some m) page h = h

-- Either the key is the one that was deleted, or nothing happened to it.
deleted_or_same :
    {A : Type 0} (f : List ℕ → Option A) (key deleted : List ℕ)
    → f deleted ≡ none
    → (key ≢ deleted → f key ≡ none)
    → f key ≡ none
deleted_or_same f key deleted gone other = elim (Bool-cases (bytes_eq key deleted)) [
  | inl same ↦ ap f (bytes_eq→eq key deleted same) ∙ gone
  | inr differ ↦ other (λ e. cc (differ, ap (bytes_eq key) e, bytes_eq_refl key))
]

module _ {DecodeError : Type 0} (decode : List ℕ → Outcome DecodeError Message)
    (sha256 : List ℕ → List ℕ) where
  set_start-Starts :
      {E : Type 0} (page page' : MessagePage) (message : Option Message)
      → set_start decode sha256 {E = E} page message ≡ ok page'
      → (page'.end_time ≡ page.end_time)
        × (page'.end_digest ≡ page.end_digest)
        × Starts sha256 message page'
  unfolding set_start
  set_start-Starts page page' none h =
      let same : page ≡ page' = value-eq-ok (ok page) h in
      (
        ap (λ (p : MessagePage). p.end_time) (sym same),
        ap (λ (p : MessagePage). p.end_digest) (sym same),
        tt,
      )
  set_start-Starts page page' (some m) h =
      let (payload_digest, d, e) =
        and_then-eq-ok (unwrap_ok (digest sha256 m.payload_digest m.payload)) _ h in
      let set : MessagePage = record page {
        start_time = m.received_time;
        start_digest = payload_digest;
      } in
      let same : set ≡ page' = value-eq-ok (ok set) e in
      (
        ap (λ (p : MessagePage). p.end_time) (sym same),
        ap (λ (p : MessagePage). p.end_digest) (sym same),
        (
          ap (λ (p : MessagePage). p.start_time) (sym same),
          unwrap_ok-eq-ok _ d ∙ ap (λ (p : MessagePage). ok p.start_digest) same,
        ),
      )

  page_of_lem :
      {E : Type 0} (messages : List Message) (page : MessagePage)
      → page_of decode sha256 {E = E} messages ≡ ok page
      → (page.messages ≡ messages)
        × (page.end_time ≡ 0)
        × (page.end_digest ≡ [])
        × Starts sha256 (last messages) page
  unfolding page_of
  page_of_lem {E = E} messages page h =
      let (p, e, h1) = and_then-eq-ok (set_start decode sha256 default_page (first messages)) _ h in
      let (q, f, h2) = and_then-eq-ok (set_start decode sha256 p (last messages)) _ h1 in
      let (end_p, digest_p, _) = set_start-Starts default_page p (first messages) e in
      let (end_q, digest_q, starts) = set_start-Starts p q (last messages) f in
      let set : MessagePage = record q { messages = messages } in
      let same : set ≡ page = value-eq-ok (ok set) h2 in
      subst
        (λ (z : MessagePage).
          (z.messages ≡ messages)
          × (z.end_time ≡ 0)
          × (z.end_digest ≡ [])
          × Starts sha256 (last messages) z)
        same
        (
          refl,
          end_q ∙ end_p,
          digest_q ∙ digest_p,
          Starts-set sha256 messages (last messages) q starts,
        )

  module _ {D : Type 0} (rocks : Rocks D) where
    -- A page holds the decoded entries of the range, in the order of the keys. The time and the digest
    -- of its start are those of its last message, and those of its end are never set.
    pub get_messages_range_lem :
        (start_prefix : List ℕ) (opt_end_prefix : Option (List ℕ)) (d : D) (page : MessagePage)
        → get_messages_range decode sha256 rocks start_prefix opt_end_prefix d ≡ ok page
        → (entries : List (List ℕ × List ℕ)) × (entries_in_range decode sha256 rocks start_prefix
              opt_end_prefix d
            ≡ ok entries)
          × (decode_all decode sha256 {E = rocks.RocksError} entries ≡ ok page.messages)
          × (page.end_time ≡ 0)
          × (page.end_digest ≡ [])
          × ((m : Message)
              → last page.messages ≡ some m
              → (page.start_time ≡ m.received_time)
                × (digest sha256 m.payload_digest m.payload ≡ ok page.start_digest))
    unfolding get_messages_range
    get_messages_range_lem start_prefix opt_end_prefix d page h =
        let (entries, e, h1) =
          and_then-eq-ok (entries_in_range decode sha256 rocks start_prefix opt_end_prefix d) _ h in
        let (messages, f, h2) = and_then-eq-ok (decode_all decode sha256 entries) _ h1 in
        let (same, end_time, end_digest, starts) =
          page_of_lem {E = rocks.RocksError} messages page h2 in
        (
          entries,
          e,
          subst (λ z. decode_all decode sha256 {E = rocks.RocksError} entries ≡ ok z) (sym same) f,
          end_time,
          end_digest,
          λ m l. subst (λ z. Starts sha256 z page) (ap last (sym same) ∙ l) starts,
        )

    module _ (laws : IsRocks rocks) where
      open laws use {contents}

      delete_all-none :
          (entries : List (List ℕ × List ℕ)) (d d' : D) (key : List ℕ)
          → delete_all decode sha256 rocks entries d ≡ (ok tt, d')
          → contents d key ≡ none
          → contents d' key ≡ none
      unfolding delete_all ◌>>=◌
      delete_all-none [] d d' key h e = subst (λ z. contents z key ≡ none) (ap (λ z. z.1) h) e
      delete_all-none (entry ∷ entries) d d' key h e =
          let (u, d1, p, q) =
            continue-eq-ok (λ u. delete_all decode sha256 rocks entries) (rocks.delete entry.0 d)
              h in
          let (gone, other) = laws.delete_lem entry.0 d d1 p in
          delete_all-none entries d1 d' key q
            (deleted_or_same (contents d1) key entry.0 gone (λ n. other key n ∙ e))

      delete_all-All :
          (entries : List (List ℕ × List ℕ)) (d d' : D)
          → delete_all decode sha256 rocks entries d ≡ (ok tt, d')
          → All (λ entry. contents d' entry.0 ≡ none) entries
      unfolding delete_all ◌>>=◌
      delete_all-All [] d d' h = tt
      delete_all-All (entry ∷ entries) d d' h =
          let (u, d1, p, q) =
            continue-eq-ok (λ u. delete_all decode sha256 rocks entries) (rocks.delete entry.0 d)
              h in
          (
            delete_all-none entries d1 d' entry.0 q (laws.delete_lem entry.0 d d1 p).0,
            delete_all-All entries d1 d' q,
          )

      delete_all-other :
          (entries : List (List ℕ × List ℕ)) (d d' : D)
          → delete_all decode sha256 rocks entries d ≡ (ok tt, d')
          → (key : List ℕ) → All (λ entry. key ≢ entry.0) entries
          → contents d' key ≡ contents d key
      unfolding delete_all ◌>>=◌
      delete_all-other [] d d' h key n = ap (λ z. contents z.1 key) (sym h)
      delete_all-other (entry ∷ entries) d d' h key n =
          let (u, d1, p, q) =
            continue-eq-ok (λ u. delete_all decode sha256 rocks entries) (rocks.delete entry.0 d)
              h in
          delete_all-other entries d1 d' q key n.1 ∙ (laws.delete_lem entry.0 d d1 p).1 key n.0

      -- When a removal of a range returns, none of the keys of the range has an entry any more, and
      -- every other key has what it had.
      pub remove_messages_range_lem :
          (start_prefix : List ℕ) (opt_end_prefix : Option (List ℕ)) (d d' : D)
          → remove_messages_range decode sha256 rocks start_prefix opt_end_prefix d ≡ (ok tt, d')
          → (entries : List (List ℕ × List ℕ)) × (entries_in_range decode sha256 rocks start_prefix
                opt_end_prefix d
              ≡ ok entries)
            × All (λ entry. contents d' entry.0 ≡ none) entries
            × ((key : List ℕ)
                → All (λ entry. key ≢ entry.0) entries
                → contents d' key ≡ contents d key)
      unfolding remove_messages_range ◌>>=◌
      remove_messages_range_lem start_prefix opt_end_prefix d d' h =
          let (entries, d0, e, h1) =
            continue-eq-ok (delete_all decode sha256 rocks)
              (entries_in_range decode sha256 rocks start_prefix opt_end_prefix d, d) h in
          let here =
            subst (λ z. delete_all decode sha256 rocks entries z ≡ (ok tt, d'))
              (sym (ap (λ z. z.1) e)) h1 in
          (
            entries,
            ap (λ z. z.0) e,
            delete_all-All entries d d' here,
            delete_all-other entries d d' here,
          )
