-- ===== src/RelayServer/Queries/Between.antt =====
-- Which messages a request between two times is answered with.
use mathlib.Core.List.{Memᴰ}
use cashweb_backends.Common.{
  ℕ, ◌≡◌, ◌≤◌, ◌<◌, ◌^◌, ◌↔◌, sym, ap, ◌∙◌, List, none, some, true, false, ltb, length, take,
  to_be_bytes, subst,
}
use cashweb_backends.Common.Exec.{ok, map_err}
use cashweb_backends.Common.Exec.Rules.{and_then-eq-ok, map_err-eq-ok, value-eq-ok}
use cashweb_backends.Http.{Response, with_body}
use cashweb_backends.Relay.Opening.{MessagePage}
use cashweb_backends.RelayServer.Rocks.{Rocks, IsRocks}
use cashweb_backends.RelayServer.Database.{key_of, msg_prefix}
use cashweb_backends.RelayServer.Ranges.{in_range, decode_all, get_messages_range}
use cashweb_backends.RelayServer.Ranges.Bounds.{get_messages_range_lem}
use cashweb_backends.RelayServer.Ranges.Times.{namespace_of, in_range-time}
use cashweb_backends.RelayServer.Ranges.Complete.{
  Entry, IsIteration, slice_ok, in_range-true, entries_in_range_iff,
}
use cashweb_backends.RelayServer.Queries.{
  Query, Codec, get_db, start_prefix, end_prefix, construct_prefixes, get_page, get_messages,
}

-- The request for the messages from one time to before another.
abbrev pub between_times : ℕ → ℕ → Query
between_times start end = record {
  start_digest = none;
  end_digest = none;
  start_time = some start;
  end_time = some end;
  digest = none;
}

module _ (codec : Codec) (sha256 : List ℕ → List ℕ) {D : Type 0} (rocks : Rocks D)
    (laws : IsRocks rocks) where
  open laws use {contents}

  -- A request for the messages of an address from a time to before another is answered with the page of the
  -- messages that exactly these entries decode to: those under the keys of the address and the namespace
  -- whose time is not before the start and before the end. All other keys are of another address or
  -- another namespace. Addresses have 20 bytes and times 64 bits, the iterator gives the entries from a
  -- key on in the order of the keys, and every key has room for an address and a namespace.
  pub get_messages-between :
      (addr head value : List ℕ) (namespace start end time : ℕ) (d : D) (response : Response)
      → length addr ≡ 20
      → time < 2 ^ 64
      → start < 2 ^ 64
      → end < 2 ^ 64
      → IsIteration rocks laws (msg_prefix addr start namespace) d
      → ((key stored : List ℕ) → contents d key ≡ some stored → 21 ≤ length key)
      → get_messages codec sha256 rocks addr (between_times start end) namespace d ≡ ok response
      → let key = key_of addr namespace (to_be_bytes 8 time) head in
        (page : MessagePage) × (entries : List Entry) × (response
          ≡ with_body 200 (codec.encode_page page))
        × (decode_all codec.decode sha256 {E = rocks.RocksError} entries ≡ ok page.messages)
        × (Memᴰ (key, value) entries
            ↔ ((contents d key ≡ some value) × (ltb time start ≡ false) × (ltb time end ≡ true)))
        × ((other stored : List ℕ)
            → Memᴰ (other, stored) entries
            → (contents d other ≡ some stored) × (take 21 other ≡ namespace_of addr namespace))
  unfolding get_messages get_page construct_prefixes start_prefix end_prefix
  get_messages-between addr head value namespace start end time d response a t s e iteration roomy
        h =
      let start_key = msg_prefix addr start namespace in
      let end_key = some (msg_prefix addr end namespace) in
      let key = key_of addr namespace (to_be_bytes 8 time) head in
      let (page, g, h1) =
        and_then-eq-ok
          (map_err get_db (get_messages_range codec.decode sha256 rocks start_key end_key d)) _ h in
      let (entries, scanned, decoded, _, _, _) =
        get_messages_range_lem codec.decode sha256 rocks start_key end_key d page
          (map_err-eq-ok _ _ g) in
      let (own, not_before, before_end, _) =
        in_range-time {E = rocks.RocksError} addr head namespace time start end a t s e in
      let iff =
        entries_in_range_iff codec.decode sha256 rocks laws start_key end_key d entries iteration
          roomy scanned in
      let cut : take 21 start_key ≡ namespace_of addr namespace =
        slice_ok {E = rocks.RocksError} (ltb (length start_key) 21) (take 21 start_key)
          (namespace_of addr namespace) own in
      let same_test : in_range {E = rocks.RocksError} (take 21 start_key) end_key key
          ≡ ok (ltb time end) =
        subst (λ z. in_range {E = rocks.RocksError} z end_key key ≡ ok (ltb time end)) (sym cut)
          before_end in
      (
        page,
        entries,
        sym (value-eq-ok (ok (with_body 200 (codec.encode_page page))) h1),
        decoded,
        (
          λ m. let (c, b, k) = (iff key value).0 m in (c, sym not_before ∙ b, cc (same_test, k)),
          λ (c, b, k). (iff key value).1 (c, not_before ∙ b, same_test ∙ ap ok k),
        ),
        λ other stored m.
            let (c, _, k) = (iff other stored).0 m in
            (c, (in_range-true {E = rocks.RocksError} (take 21 start_key) other end_key k).0 ∙ cut),
      )
