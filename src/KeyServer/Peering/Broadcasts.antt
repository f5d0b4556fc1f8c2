-- ===== src/KeyServer/Peering/Broadcasts.antt =====
-- What a broadcast sends to the peers, and that it holds the metadata that were put.
use mathlib.Core.List.{Memᴰ}
use mathlib.Core.List.Memᴰ.{head, tail}
use cashweb_backends.Common.{
  ℕ, ◌≡◌, ◌≢◌, ◌⊎◌, ◌↔◌, inl, inr, refl, sym, ap, ap₂, ◌∙◌, List, [], ◌∷◌, ◌++◌, Option, some, none,
  subst,
}
use cashweb_backends.Common.Exec.{Outcome, ok, err, panic, unwrap_ok}
use cashweb_backends.Common.Exec.Rules.{and_then-eq-ok, value-eq-ok, unwrap_ok-eq-ok}
use cashweb_backends.Http.{Service}
use cashweb_backends.AuthWrapper.{Signing}
use cashweb_backends.Token.HmacBearer.{Base64}
use cashweb_backends.KeyserverClient.Services.{Wire}
use cashweb_backends.KeyserverClient.Manager.{Uris}
use cashweb_backends.RelayServer.Rocks.{Rocks}
use cashweb_backends.KeyServer.Database as Database
use cashweb_backends.KeyServer.Database.{DatabaseWrapper, Stored}
use cashweb_backends.KeyServer.TokenCache.Delay.{In}
use cashweb_backends.KeyServer.Peering.{Call, call_for, run_call, send_found, send_all}

module _ (lib : Uris) (service : Service lib.Uri) (signing : Signing) (wire : Wire)
    (base64 : Base64) (stored : Stored) {D : Type 0} (rocks : Rocks D) {EncodingError : Type 0}
    (encode_address : List ℕ → Outcome EncodingError (List ℕ)) (push_fan_size : ℕ) where
  -- The call for an address of a block: its text, and what the database has for it.
  abbrev pub IsCallFor : D → Call → List ℕ → Type 0
  IsCallFor db call addr =
      (db_wrapper : DatabaseWrapper) × (Database.get_metadata stored rocks addr db
        ≡ ok (some db_wrapper))
      × (encode_address addr ≡ ok call.addr_str)
      × (call
          ≡ call_for lib service signing wire base64 stored rocks encode_address push_fan_size
              call.addr_str db_wrapper)

  -- Either there is one call, or the database has nothing and there is none.
  abbrev Sends : List ℕ → Outcome rocks.RocksError (Option DatabaseWrapper) → List Call → Type 0
  Sends addr r calls =
      ((db_wrapper : DatabaseWrapper) × (addr_str : List ℕ) × (r ≡ ok (some db_wrapper))
        × (encode_address addr ≡ ok addr_str)
        × (calls
            ≡ call_for lib service signing wire base64 stored rocks encode_address push_fan_size
                addr_str db_wrapper
              ∷ []))
      ⊎ (((db_wrapper : DatabaseWrapper) → r ≢ ok (some db_wrapper)) × (calls ≡ []))

  send_found-Sends :
      (uris : List lib.Uri) (addr : List ℕ) (r : Outcome rocks.RocksError (Option DatabaseWrapper))
      (calls : List Call)
      → send_found lib service signing wire base64 stored rocks encode_address push_fan_size uris
          addr r
        ≡ ok calls
      → Sends addr r calls
  send_found-Sends uris addr (ok (some db_wrapper)) calls h =
      let (addr_str, a, h1) = and_then-eq-ok (unwrap_ok (encode_address addr)) _ h in
      let (u, c, h2) =
        and_then-eq-ok
          (run_call lib service signing wire base64 stored rocks encode_address push_fan_size uris (
            call_for lib service signing wire base64 stored rocks encode_address push_fan_size
              addr_str db_wrapper))
          _ h1 in
      inl (db_wrapper, addr_str, refl, unwrap_ok-eq-ok _ a, sym (value-eq-ok (ok _) h2))
  send_found-Sends uris addr (ok none) calls h = inr (λ w e. cc e, sym (value-eq-ok (ok []) h))
  send_found-Sends uris addr (err e) calls h = inr (λ w e'. cc e', sym (value-eq-ok (ok []) h))
  send_found-Sends uris addr panic calls h = cc h

  -- The calls of an address and those of the rest of the block.
  split_calls :
      (db : D) (addr : List ℕ) (calls rest : List Call) (call : Call)
      → Sends addr (Database.get_metadata stored rocks addr db) calls
      → Memᴰ call (calls ++ rest) ↔ (IsCallFor db call addr ⊎ Memᴰ call rest)
  split_calls db addr calls rest call (inl (w, text, g, a, same)) =
      let made =
        call_for lib service signing wire base64 stored rocks encode_address push_fan_size text w in
      subst (λ cs. Memᴰ call (cs ++ rest) ↔ (IsCallFor db call addr ⊎ Memᴰ call rest)) (sym same)
        (
          λ m. elim m [
            | head e ↦
                let text_is : text ≡ call.addr_str = sym (ap (λ (c : Call). c.addr_str) e) in
                inl (
                  w,
                  g,
                  a ∙ ap ok text_is,
                  e
                      ∙ ap
                          (λ t.
                            call_for lib service signing wire base64 stored rocks encode_address
                              push_fan_size t w)
                          text_is,
                )
            | tail m' ↦ inr m'
          ],
          λ here. elim here [
            | inl (w', g', a', e) ↦
                let same_w : w' ≡ w = cc (g, g') in
                let same_text : call.addr_str ≡ text = cc (a, a') in
                head (
                  e
                  ∙ ap₂
                      (call_for lib service signing wire base64 stored rocks encode_address
                        push_fan_size)
                      same_text same_w)
            | inr m' ↦ tail m'
          ],
        )
  split_calls db addr calls rest call (inr (none_there, same)) =
      subst (λ cs. Memᴰ call (cs ++ rest) ↔ (IsCallFor db call addr ⊎ Memᴰ call rest)) (sym same)
        (
          λ m. inr m,
          λ here. elim here [ inl (w', g', _, _) ↦ absurd (none_there w' g') | inr m' ↦ m' ],
        )

  -- A broadcast of a block that returns has called the manager for exactly those addresses of the block
  -- for which the database has an entry, each with the text of the address, the wrapper as it was put and
  -- the stored token, encoded again behind its prefix. Addresses without an entry, and those for which
  -- the database failed, are passed over.
  pub send_all_iff :
      (uris : List lib.Uri) (db : D) (block : List (List ℕ)) (calls : List Call) (call : Call)
      → send_all lib service signing wire base64 stored rocks encode_address push_fan_size uris db
          block
        ≡ ok calls
      → Memᴰ call calls ↔ ((addr : List ℕ) × In addr block × IsCallFor db call addr)
  unfolding send_all
  send_all_iff uris db [] calls call h = (
    λ m. elim (subst (Memᴰ call) (sym (value-eq-ok (ok []) h)) m) [ ],
    λ (addr, here, is_call). absurd here,
  )
  send_all_iff uris db (first ∷ block) calls call h =
      let (own, s, h1) =
        and_then-eq-ok
          (send_found lib service signing wire base64 stored rocks encode_address push_fan_size uris
            first (Database.get_metadata stored rocks first db))
          _ h in
      let (rest, t, h2) =
        and_then-eq-ok
          (send_all lib service signing wire base64 stored rocks encode_address push_fan_size uris
            db block)
          _ h1 in
      let same : own ++ rest ≡ calls = value-eq-ok (ok (own ++ rest)) h2 in
      let split = split_calls db first own rest call (send_found-Sends uris first _ own s) in
      let later = send_all_iff uris db block rest call t in
      (
        λ m. elim (split.0 (subst (Memᴰ call) (sym same) m)) [
          | inl is_call ↦ (first, inl refl, is_call)
          | inr m' ↦ let (addr, here, is_call) = later.0 m' in (addr, inr here, is_call)
        ],
        λ (addr, here, is_call). subst (Memᴰ call) same (
            split.1 (elim here [
              | inl e ↦ inl (subst (IsCallFor db call) e is_call)
              | inr h' ↦ inr (later.1 (addr, h', is_call))
            ])),
      )
