-- ===== src/Bitcoin/Transaction/Script/P2pkh.antt =====
-- Scripts that pay to the hash of a public key, and the test for them.
use cashweb_backends.Common.{
  ℕ, suc, ◌+◌, ◌≡◌, refl, ap, ◌∙◌, List, [], ◌∷◌, ◌++◌, true, take, drop, arith, subst, length,
  take-append, length-append, get_or,
}
use cashweb_backends.Bitcoin.Transaction.Script.{
  Script, is_p2pkh, op_dup, op_hash160, op_pushbytes_20, op_equalverify, op_checksig,
}

-- The script that pays to a hash of 20 bytes.
abbrev pub p2pkh_script : List ℕ → Script
p2pkh_script hash = record {
  raw = op_dup ∷ op_hash160 ∷ op_pushbytes_20 ∷ (hash ++ (op_equalverify ∷ op_checksig ∷ []));
}

get_or-append : (xs ys : List ℕ) (i : ℕ) → get_or (xs ++ ys) (length xs + i) 0 ≡ get_or ys i 0
get_or-append [] ys i = ap (λ n. get_or ys n 0) (omega arith)
get_or-append (x ∷ xs) ys i =
    let next : suc (length xs) + i ≡ suc (length xs + i) = omega arith in
    rw next (get_or-append xs ys i)

pub p2pkh_script-is_p2pkh : (hash : List ℕ) → length hash ≡ 20 → is_p2pkh (p2pkh_script hash) ≡ true
unfolding is_p2pkh
p2pkh_script-is_p2pkh hash h =
    let tail = op_equalverify ∷ op_checksig ∷ [] in
    let e23 : get_or (hash ++ tail) 20 0 ≡ op_equalverify =
      subst (λ n. get_or (hash ++ tail) n 0 ≡ op_equalverify) (omega arith)
        (get_or-append hash tail 0) in
    let e24 : get_or (hash ++ tail) 21 0 ≡ op_checksig =
      subst (λ n. get_or (hash ++ tail) n 0 ≡ op_checksig) (omega arith)
        (get_or-append hash tail 1) in
    let len : length (hash ++ tail) ≡ 22 = length-append hash tail ∙ omega arith in
    rw (len, e23, e24) refl

pub p2pkh_script-hash :
    (hash : List ℕ) → length hash ≡ 20 → take 20 (drop 3 (p2pkh_script hash).raw) ≡ hash
p2pkh_script-hash hash h =
    subst (λ n. take n (hash ++ (op_equalverify ∷ op_checksig ∷ [])) ≡ hash) h (take-append hash _)
