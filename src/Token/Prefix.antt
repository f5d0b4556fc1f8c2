-- ===== src/Token/Prefix.antt =====
-- Which strings carry a POP token.
use cashweb_backends.Common.{
  ℕ, ◌<◌, ◌≡◌, ◌≢◌, ◌↔◌, refl, sym, ap₂, lt→ltb, ltb→lt, ◌∙◌, List, [], ◌∷◌, ◌++◌, Option, none,
  some, Bool, true, false, length, take, drop, get_or, ltb, bytes_eq, bytes_eq→eq, if◌then◌else◌,
  arith, take-append-drop, subst,
}
use cashweb_backends.Common.Exec.{Outcome, ok, err, panic}
use cashweb_backends.Token.{pop_prefix, is_continuation, split_pop_token}

split_found :
    {E : Type 0} (long inside same : Bool) (rest token : List ℕ)
    → ◌≡◌ {A = Outcome E (Option (List ℕ))}
        (if long
          then (if inside then panic else if same then ok (some rest) else ok none)
          else ok none)
        (ok (some token))
    → (long ≡ true) × (inside ≡ false) × (same ≡ true) × (rest ≡ token)
split_found true true same rest token h = cc
split_found true false true rest token h = (refl, refl, refl, cc h)
split_found true false false rest token h = cc
split_found false inside same rest token h = cc

split_panic :
    {E : Type 0} (long inside same : Bool) (rest : List ℕ)
    → ◌≡◌ {A = Outcome E (Option (List ℕ))}
        (if long
          then (if inside then panic else if same then ok (some rest) else ok none)
          else ok none)
        panic
    → (long ≡ true) × (inside ≡ true)
split_panic true true same rest h = (refl, refl)
split_panic true false true rest h = cc
split_panic true false false rest h = cc
split_panic false inside same rest h = cc

split_err :
    {E : Type 0} (long inside same : Bool) (rest : List ℕ) (e : E)
    → ◌≢◌ {A = Outcome E (Option (List ℕ))}
        (if long
          then (if inside then panic else if same then ok (some rest) else ok none)
          else ok none)
        (err e)
split_err true true same rest e h = cc
split_err true false true rest e h = cc
split_err true false false rest e h = cc
split_err false inside same rest e h = cc

-- A token is not empty and begins with a character.
abbrev pub IsToken : List ℕ → Type 0
IsToken token = (b : ℕ) × (rest : List ℕ) × (token ≡ b ∷ rest) × (is_continuation b ≡ false)

behind_prefix :
    (token : List ℕ)
    → 4 < length (pop_prefix ++ token)
    → is_continuation (get_or (pop_prefix ++ token) 4 0) ≡ false
    → IsToken token
behind_prefix [] long outside = absurd (omega arith)
behind_prefix (b ∷ rest) long outside = (b, rest, refl, outside)

-- A string has a token exactly when it is the prefix and the token behind it, and the token is not
-- empty and begins with a character. A string panics exactly when it is longer than the prefix and its
-- fifth byte is inside a character. No string gives an error.
pub split_pop_token_lem :
    {E : Type 0} (s : List ℕ)
    → ((token : List ℕ)
        → (split_pop_token {E = E} s ≡ ok (some token))
          ↔ ((s ≡ pop_prefix ++ token) × IsToken token))
      × ((split_pop_token {E = E} s ≡ panic)
          ↔ ((4 < length s) × (is_continuation (get_or s 4 0) ≡ true)))
      × ((e : E) → split_pop_token {E = E} s ≢ err e)
unfolding split_pop_token
split_pop_token_lem {E = E} s =
    let long = ltb 4 (length s) in
    let inside = is_continuation (get_or s 4 0) in
    let same = bytes_eq (take 4 s) pop_prefix in
    (
      λ token. (
        λ h.
            let (l, outside, prefixed, rest) =
              split_found {E = E} long inside same (drop 4 s) token h in
            let parts : s ≡ pop_prefix ++ token =
              sym (take-append-drop 4 s)
              ∙ ap₂ (λ a c. a ++ c) (bytes_eq→eq (take 4 s) pop_prefix prefixed) rest in
            (
              parts,
              behind_prefix token (subst (λ z. 4 < length z) parts (ltb→lt 4 (length s) l))
                  (subst (λ z. is_continuation (get_or z 4 0) ≡ false) parts outside),
            ),
        λ (parts, (b, rest, e, plain)).
            subst (λ z. split_pop_token {E = E} z ≡ ok (some token)) (sym parts)
              (subst (λ t. split_pop_token {E = E} (pop_prefix ++ t) ≡ ok (some t)) (sym e)
                (rw (lt→ltb 4 (length (pop_prefix ++ (b ∷ rest))) (omega arith), plain) refl)),
      ),
      (
        λ h.
            let (l, i) = split_panic {E = E} long inside same (drop 4 s) h in
            (ltb→lt 4 (length s) l, i),
        λ (l, i). rw (lt→ltb 4 (length s) l, i) refl,
      ),
      split_err {E = E} long inside same (drop 4 s),
    )
