-- ===== src/KeyserverClient/Manager/Newest.antt =====
-- What a sample of metadata selects.
use cashweb_backends.Common.{
  ℕ, ◌≤◌, ◌≡◌, ◌≢◌, ◌⊎◌, inl, inr, refl, sym, ◌∙◌, ap, List, [], ◌∷◌, some, Bool, true, false,
  if◌then◌else◌, leb, All, Bool-cases, arith,
}
use mathlib.Core.List.{Memᴰ}
use mathlib.Core.List.Memᴰ.{head, tail}
use cashweb_backends.Common.Exec.{ok}
use cashweb_backends.Common.Exec.Rules.{and_then-eq-ok, if-eq-ok, value-eq-ok}
use cashweb_backends.Http.{Service}
use cashweb_backends.AuthWrapper.{Signing}
use cashweb_backends.KeyserverClient.Services.{
  Wire, SampleError, MetadataError, get_metadata, errors_of, all_err, join_all, sample,
}
use cashweb_backends.KeyserverClient.Manager.{
  Uris, keys_path, append_all, uniform_random_sampler, oks_of, SampleResponse, select, max_from,
  max_by_key, Package, time_key, select_auth_wrapper, uniform_sample_metadata,
}
use cashweb_backends.Common.{◌++◌}

module _ {A : Type 0} (key : A → ℕ) where
  later :
      (x y : A)
      → (key x ≤ key (if leb (key x) (key y) then y else x))
        × (key y ≤ key (if leb (key x) (key y) then y else x))
  later x y = elim (Bool-cases (leb (key x) (key y))) [
    | inl h ↦ rw h (ground arith, ground arith)
    | inr h ↦ rw h (ground arith, ground arith)
  ]

  max_from-le :
      (x : A) (xs : List A)
      → (key x ≤ key (max_from key x xs)) × All (λ y. key y ≤ key (max_from key x xs)) xs
  unfolding max_from
  max_from-le x [] = (omega arith, tt)
  max_from-le x (y ∷ ys) =
      let best = if leb (key x) (key y) then y else x in
      let (h, hs) = max_from-le best ys in
      let (a, b) = later x y in (omega (arith, a, h), (omega (arith, b, h), hs))

  one_of :
      (x y : A) (t : Bool) (ys : List A) {z : A}
      → Memᴰ z ((if t then y else x) ∷ ys)
      → Memᴰ z (x ∷ y ∷ ys)
  one_of x y true ys h = tail h
  one_of x y false ys (head e) = head e
  one_of x y false ys (tail h) = tail (tail h)

  max_from-Mem : (x : A) (xs : List A) → Memᴰ (max_from key x xs) (x ∷ xs)
  unfolding max_from
  max_from-Mem x [] = head refl
  max_from-Mem x (y ∷ ys) =
      one_of x y (leb (key x) (key y)) ys (max_from-Mem (if leb (key x) (key y) then y else x) ys)

  -- The greatest of a list that is not empty.
  pub max_by_key-some :
      (xs : List A)
      → xs ≢ []
      → (best : A) × (max_by_key key xs ≡ some best) × Memᴰ best xs × All (λ x. key x ≤ key best) xs
  unfolding max_by_key
  max_by_key-some [] n = absurd (n refl)
  max_by_key-some (x ∷ xs) n = (max_from key x xs, refl, max_from-Mem x xs, max_from-le x xs)

some_ok :
    {Uri E R : Type 0} (responses : List (Uri × (E ⊎ R)))
    → all_err responses ≡ false
    → oks_of responses ≢ []
unfolding oks_of
some_ok [] h = cc h
some_ok ((uri, inl e) ∷ responses) h = some_ok responses h
some_ok ((uri, inr r) ∷ responses) h = λ e. cc e

module _ (lib : Uris) (service : Service lib.Uri) (signing : Signing) (wire : Wire) where
  -- When a sample of metadata returns, it asked the keyservers that the random choice took among all
  -- of them, each at its path for the address. It selects one of the answers that it got, none has a
  -- later timestamp, and the errors are those of exactly the requests that failed, in order.
  pub uniform_sample_metadata-ok :
      (uris : List lib.Uri) (address : List ℕ) (sample_size : ℕ)
      (answer : SampleResponse lib.Uri
        (Package lib service signing wire)
        (MetadataError service signing wire))
      → uniform_sample_metadata lib service signing wire uris address sample_size ≡ ok answer
      → (targets : List lib.Uri) × (responses : List
          (lib.Uri × (MetadataError service signing wire ⊎ Package lib service signing wire)))
        × (best : lib.Uri × Package lib service signing wire) × (append_all lib
              {E = SampleError lib.Uri (MetadataError service signing wire)}
              (keys_path ++ address)
              uris
            ≡ ok targets)
        × (join_all {D = SampleError lib.Uri (MetadataError service signing wire)}
              (get_metadata service signing wire)
              (uniform_random_sampler lib targets sample_size)
            ≡ ok responses)
        × (answer.response ≡ some best)
        × Memᴰ best (oks_of responses)
        × All
            (λ other.
              time_key lib service signing wire other ≤ time_key lib service signing wire best)
            (oks_of responses)
        × (answer.errors ≡ errors_of responses)
  unfolding uniform_sample_metadata sample select select_auth_wrapper
  uniform_sample_metadata-ok uris address sample_size answer h =
      let (targets, t, h1) = and_then-eq-ok (append_all lib (keys_path ++ address) uris) _ h in
      let (responses, s, h2) =
        and_then-eq-ok
          (sample (get_metadata service signing wire)
            (uniform_random_sampler lib targets sample_size))
          _ h1 in
      let (joined, j, k) =
        and_then-eq-ok
          (join_all (get_metadata service signing wire)
            (uniform_random_sampler lib targets sample_size))
          _ s in
      let (some_are, same) = if-eq-ok (all_err joined) _ _ k in
      let here : joined ≡ responses = value-eq-ok (ok joined) same in
      let (best, found, isin, newest) =
        max_by_key-some (time_key lib service signing wire) (oks_of joined)
          (some_ok joined some_are) in
      let result : record {
        response = max_by_key (time_key lib service signing wire) (oks_of responses);
        errors = errors_of responses;
      }
          ≡ answer =
        value-eq-ok (ok _) h2 in
      (
        targets,
        joined,
        best,
        t,
        j,
        sym (
              ap
                (λ (z : SampleResponse lib.Uri (Package lib service signing wire)
                    (MetadataError service signing wire)).
                  z.response)
                result)
            ∙ ap (λ z. max_by_key (time_key lib service signing wire) (oks_of z)) (sym here)
            ∙ found,
        isin,
        newest,
        sym (
              ap
                (λ (z : SampleResponse lib.Uri (Package lib service signing wire)
                    (MetadataError service signing wire)).
                  z.errors)
                result)
            ∙ ap errors_of (sym here),
      )
