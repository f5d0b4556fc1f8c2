-- ===== src/RelayServer/Database/Digests.antt =====
-- Messages by their digest: pushed, found, removed.
use cashweb_backends.Common.{
  ℕ, ◌≡◌, ◌≢◌, ◌⊎◌, inl, inr, refl, sym, ap, ◌∙◌, List, [], ◌∷◌, ◌++◌, Option, none, some, Bool,
  true, false, if◌then◌else◌, length, take, ltb, to_be_bytes, subst,
}
use cashweb_backends.Common.Exec.{Outcome, ok, err, panic, and_then, ◌>>=◌, ◌>>◌}
use cashweb_backends.Common.Exec.Rules.{and_then-eq-ok, continue-eq-ok, value-eq-ok}
use cashweb_backends.RelayServer.Rocks.{Rocks, IsRocks}
use cashweb_backends.Common.Slices.{slice_to}
use cashweb_backends.RelayServer.Database.{
  digest_namespace, key_of, msg_key, digest_key, key_at, get_msg_key_by_digest, push_message,
  get_message_by_key, get_at, get_message_by_digest, delete_at, remove_message_by_digest,
}

-- Keys of one address in different namespaces differ.
apart :
    (pubkey_hash : List ℕ) (a b : ℕ) (xs ys : List ℕ)
    → a ≢ b
    → pubkey_hash ++ (a ∷ xs) ≢ pubkey_hash ++ (b ∷ ys)
apart [] a b xs ys n e = n (cc e)
apart (x ∷ pubkey_hash) a b xs ys n e = apart pubkey_hash a b xs ys n (cc e)

-- The result, unless the database fails.
abbrev pub UnlessError : {E A : Type 0} → Outcome E A → A → Type 0
UnlessError {E = E} r a = (r ≡ ok a) ⊎ ((e : E) × (r ≡ err e))

-- The result, unless the database fails, whose error `f` wraps.
abbrev pub UnlessFails : {F E A : Type 0} → (F → E) → Outcome E A → A → Type 0
UnlessFails {F = F} f r a = (r ≡ ok a) ⊎ ((e : F) × (r ≡ err (f e)))

unless-then :
    {E A B : Type 0} {r : Outcome E A} {a : A} {b : B} (f : A → Outcome E B)
    → UnlessError r a
    → UnlessError (f a) b
    → UnlessError (and_then r f) b
unless-then f (inl h) (inl k) = inl (rw h k)
unless-then f (inl h) (inr (e, k)) = inr (e, rw h k)
unless-then f (inr (e, h)) k = inr (e, rw h refl)

pub same_value : {E A : Type 0} {r : Outcome E A} {a b : A} → UnlessError r a → r ≡ ok b → a ≡ b
same_value (inl h) k = cc (h, k)
same_value (inr (e, h)) k = cc (h, k)

take_or_panic :
    {E : Type 0} (short : Bool) (xs head : List ℕ)
    → ◌≡◌ {A = Outcome E (List ℕ)} (if short then panic else ok xs) (ok head)
    → head ≡ xs
take_or_panic true xs head h = cc h
take_or_panic false xs head h = cc h

slice_to-take :
    {E : Type 0} (n : ℕ) (xs head : List ℕ) → slice_to {E = E} n xs ≡ ok head → head ≡ take n xs
slice_to-take {E = E} n xs head h = take_or_panic {E = E} (ltb (length xs) n) (take n xs) head h

module _ {D : Type 0} (rocks : Rocks D) (laws : IsRocks rocks) where
  open laws use {contents}

  get_contents :
      (key : List ℕ) (d : D) (v : Option (List ℕ))
      → contents d key ≡ v
      → UnlessError (rocks.get key d) v
  get_contents key d v e = subst (UnlessError (rocks.get key d)) e (laws.get_lem key d)

  key_at-some :
      (pubkey_hash digest : List ℕ) (namespace : ℕ) (key : List ℕ) (stamp : Option (List ℕ))
      → key_at rocks pubkey_hash digest namespace stamp ≡ ok (some key)
      → (timestamp : List ℕ) × (head : List ℕ) × (stamp ≡ some timestamp)
        × (slice_to {E = rocks.RocksError} 4 digest ≡ ok head)
        × (key ≡ key_of pubkey_hash namespace timestamp head)
  unfolding key_at
  key_at-some pubkey_hash digest namespace key none h = cc h
  key_at-some pubkey_hash digest namespace key (some timestamp) h =
      let (head, s, e) =
        and_then-eq-ok (slice_to 4 digest)
          (λ head. ok (some (key_of pubkey_hash namespace timestamp head))) h in
      (timestamp, head, refl, s, cc e)

  -- The index leads to a key, and the key to what stands there.
  found_by_digest :
      (pubkey_hash digest timestamp head : List ℕ) (namespace : ℕ) (d : D) (v : Option (List ℕ))
      → slice_to {E = rocks.RocksError} 4 digest ≡ ok head
      → contents d (digest_key pubkey_hash digest) ≡ some timestamp
      → contents d (key_of pubkey_hash namespace timestamp head) ≡ v
      → UnlessError (get_message_by_digest rocks pubkey_hash digest namespace d) v
  unfolding get_message_by_digest get_msg_key_by_digest key_at get_at get_message_by_key
  found_by_digest pubkey_hash digest timestamp head namespace d v h t e =
      let at_key : UnlessError (key_at rocks pubkey_hash digest namespace (some timestamp))
          (some (key_of pubkey_hash namespace timestamp head)) =
        inl (rw h refl) in
      unless-then (get_at rocks d)
        (unless-then (key_at rocks pubkey_hash digest namespace)
          (get_contents (digest_key pubkey_hash digest) d (some timestamp) t) at_key)
        (get_contents (key_of pubkey_hash namespace timestamp head) d v e)

  indexed :
      (key : List ℕ) (d : D) (v : Option (List ℕ)) → rocks.get key d ≡ ok v → contents d key ≡ v
  indexed key d v h = same_value (laws.get_lem key d) h

  -- The key that a removal found, and its deletion.
  found_key :
      (pubkey_hash digest : List ℕ) (namespace : ℕ) (d d' : D) (key : Option (List ℕ))
      → get_msg_key_by_digest rocks pubkey_hash digest namespace d ≡ ok key
      → delete_at rocks key d ≡ (ok (some tt), d')
      → (timestamp : List ℕ) × (head : List ℕ) × (slice_to {E = rocks.RocksError} 4 digest
          ≡ ok head)
        × (contents d (digest_key pubkey_hash digest) ≡ some timestamp)
        × (rocks.delete (key_of pubkey_hash namespace timestamp head) d ≡ (ok tt, d'))
  unfolding get_msg_key_by_digest delete_at ◌>>=◌
  found_key pubkey_hash digest namespace d d' none k h = cc (ap (λ z. z.0) h)
  found_key pubkey_hash digest namespace d d' (some key) k h =
      let (stamp, g, k1) =
        and_then-eq-ok (rocks.get (digest_key pubkey_hash digest) d)
          (key_at rocks pubkey_hash digest namespace) k in
      let (timestamp, head, t, s, e) = key_at-some pubkey_hash digest namespace key stamp k1 in
      let (u, d1, p, q) = continue-eq-ok (λ u z. (ok (some tt), z)) (rocks.delete key d) h in
      (
        timestamp,
        head,
        s,
        indexed (digest_key pubkey_hash digest) d (some timestamp)
            (subst (λ z. rocks.get (digest_key pubkey_hash digest) d ≡ ok z) t g),
        subst (λ z. rocks.delete z d ≡ (ok tt, d')) e
            (subst (λ z. rocks.delete key d ≡ (ok tt, z)) (ap (λ z. z.1) q) p),
      )

  -- A message that was pushed is found by its digest, whatever stood there before, unless the database
  -- fails; and the push changes nothing but the message and its entry in the index. The namespace must
  -- not be that of the index.
  pub push_message-get :
      (pubkey_hash raw_message digest : List ℕ) (timestamp namespace : ℕ) (d d' : D)
      → namespace ≢ digest_namespace
      → push_message rocks pubkey_hash timestamp raw_message digest namespace d ≡ (ok tt, d')
      → UnlessError (get_message_by_digest rocks pubkey_hash digest namespace d') (some raw_message)
        × ((key : List ℕ)
            → key ≢ digest_key pubkey_hash digest
            → key ≢ key_of pubkey_hash namespace (to_be_bytes 8 timestamp) (take 4 digest)
            → contents d' key ≡ contents d key)
  unfolding push_message ◌>>=◌ msg_key
  push_message-get pubkey_hash raw_message digest timestamp namespace d d' n h =
      let raw_timestamp = to_be_bytes 8 timestamp in
      let (key, d0, k, h1) =
        continue-eq-ok
          (λ key.
            rocks.put key raw_message >> rocks.put (digest_key pubkey_hash digest) raw_timestamp)
          (msg_key pubkey_hash timestamp digest namespace, d) h in
      let (u, d1, p, q) =
        continue-eq-ok (λ u. rocks.put (digest_key pubkey_hash digest) raw_timestamp)
          (rocks.put key raw_message d0) h1 in
      let (head, s, k1) =
        and_then-eq-ok (slice_to 4 digest)
          (λ head. ok (key_of pubkey_hash namespace raw_timestamp head)) (ap (λ z. z.0) k) in
      let same_key : key_of pubkey_hash namespace raw_timestamp head ≡ key =
        value-eq-ok (ok _) k1 in
      let p' : rocks.put (key_of pubkey_hash namespace raw_timestamp head) raw_message d
          ≡ (ok tt, d1) =
        subst (λ z. rocks.put z raw_message d ≡ (ok tt, d1)) (sym same_key)
          (subst (λ z. rocks.put key raw_message z ≡ (ok tt, d1)) (sym (ap (λ z. z.1) k)) p) in
      let (c1, o1) =
        laws.put_lem (key_of pubkey_hash namespace raw_timestamp head) raw_message d d1 p' in
      let (c2, o2) = laws.put_lem (digest_key pubkey_hash digest) raw_timestamp d1 d' q in
      let differ = apart pubkey_hash namespace digest_namespace (raw_timestamp ++ head) digest n in
      (
        found_by_digest pubkey_hash digest raw_timestamp head namespace d' (some raw_message) s c2
            (o2 (key_of pubkey_hash namespace raw_timestamp head) differ ∙ c1),
        λ other a b.
            o2 other a
            ∙ o1 other (λ e. b (
                e
                ∙ ap (key_of pubkey_hash namespace raw_timestamp) (slice_to-take 4 digest head s))),
      )

  -- A message that was removed by its digest is not found by it any more, unless the database fails.
  -- Its entry in the index stays, and so does everything else.
  pub remove_message_by_digest-get :
      (pubkey_hash digest : List ℕ) (namespace : ℕ) (d d' : D)
      → namespace ≢ digest_namespace
      → remove_message_by_digest rocks pubkey_hash digest namespace d ≡ (ok (some tt), d')
      → UnlessError (get_message_by_digest rocks pubkey_hash digest namespace d') none
        × (timestamp : List ℕ) × (contents d' (digest_key pubkey_hash digest) ≡ some timestamp)
        × ((key : List ℕ)
            → key ≢ key_of pubkey_hash namespace timestamp (take 4 digest)
            → contents d' key ≡ contents d key)
  unfolding remove_message_by_digest ◌>>=◌ delete_at
  remove_message_by_digest-get pubkey_hash digest namespace d d' n h =
      let (key, d0, k, h1) =
        continue-eq-ok (delete_at rocks)
          (get_msg_key_by_digest rocks pubkey_hash digest namespace d, d) h in
      let here : delete_at rocks key d ≡ (ok (some tt), d') =
        subst (λ z. delete_at rocks key z ≡ (ok (some tt), d')) (sym (ap (λ z. z.1) k)) h1 in
      let (timestamp, head, s, t, deleted) =
        found_key pubkey_hash digest namespace d d' key (ap (λ z. z.0) k) here in
      let (c, o) = laws.delete_lem (key_of pubkey_hash namespace timestamp head) d d' deleted in
      let differ =
        apart pubkey_hash digest_namespace namespace digest (timestamp ++ head) (λ e. n (sym e)) in
      let still = o (digest_key pubkey_hash digest) differ ∙ t in
      (
        found_by_digest pubkey_hash digest timestamp head namespace d' none s still c,
        timestamp,
        still,
        λ other b. o other (λ e.
            b (e ∙ ap (key_of pubkey_hash namespace timestamp) (slice_to-take 4 digest head s))),
      )
