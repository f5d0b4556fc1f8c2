-- ===== src/Token.antt =====
-- lib/cashweb-token/src/lib.rs: the prefix of POP tokens. A string is the list of its UTF-8 bytes, and
-- `to_str` of the `http` crate is a parameter.
pub mod ChainCommitment
pub mod HmacBearer
pub mod Prefix
pub mod Instances
mod Tests
use cashweb_backends.Common.{
  ℕ, List, [], ◌∷◌, Option, none, some, Bool, true, false, if◌then◌else◌, ◌&&◌, length, take, drop,
  get_or, ltb, leb, bytes_eq,
}
use cashweb_backends.Common.Exec.{Outcome, ok, err, panic, and_then}

abbrev pub pop_prefix : List ℕ
pop_prefix = 80 ∷ 79 ∷ 80 ∷ 32 ∷ []

-- A slice of a string ends between two characters: the byte behind it does not continue one.
abbrev pub is_continuation : ℕ → Bool
is_continuation b = leb 128 b && ltb b 192

-- `full_token[..4]` panics inside a character.
unfoldable pub split_pop_token : {E : Type 0} → List ℕ → Outcome E (Option (List ℕ))
split_pop_token full_token =
    if ltb 4 (length full_token)
    then (if is_continuation (get_or full_token 4 0)
        then panic
        else if bytes_eq (take 4 full_token) pop_prefix
        then ok (some (drop 4 full_token))
        else ok none)
    else ok none

abbrev pub split_option : {E : Type 0} → Option (List ℕ) → Outcome E (Option (List ℕ))
split_option none = ok none
split_option (some token) = split_pop_token token

unfoldable pub extract_pop_header :
    {E HeaderValue : Type 0}
    → (HeaderValue → Option (List ℕ))
    → HeaderValue
    → Outcome E (Option (List ℕ))
extract_pop_header to_str value = split_option (to_str value)

-- `or_else` on what was found so far.
abbrev pub found_or :
    {E : Type 0} → Option (List ℕ) → Outcome E (Option (List ℕ)) → Outcome E (Option (List ℕ))
found_or none rest = rest
found_or (some token) rest = ok (some token)

-- The values of the `Authorization` headers, in order, until one is found.
unfoldable pub extract_pop :
    {E HeaderValue : Type 0}
    → (HeaderValue → Option (List ℕ))
    → List HeaderValue
    → Outcome E (Option (List ℕ))
extract_pop to_str [] = ok none
extract_pop to_str (value ∷ values) =
    and_then (extract_pop_header to_str value) λ found. found_or found (extract_pop to_str values)
