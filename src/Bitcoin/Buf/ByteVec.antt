-- ===== src/Bitcoin/Buf/ByteVec.antt =====
-- A growing byte vector, `Vec<u8>`, as a `BufMut`.
use cashweb_backends.Common.{ℕ, ◌-◌, ◌^◌, ◌≤◌, ◌<◌, ◌≡◌, ap, ◌∙◌, List, [], ◌++◌, length, arith}
use cashweb_backends.Common.Exec.{Outcome, ok, err, panic, Exec}
use cashweb_backends.Bitcoin.Buf.{BufMut, IsBufMut}
use cashweb_backends.Bitcoin.Buf.Writes.{Writes}

pub record ByteVec (W : Type 0) : Type 0 where
  pub empty : W
  pub as_slice : W → List ℕ

-- An empty vector has nothing written and room for `isize::MAX` bytes.
pub record IsByteVec {W : Type 0} {buf : BufMut W} (laws : IsBufMut buf) (vec : ByteVec W)
    : Type 0 where
  pub as_slice_lem : (w : W) → vec.as_slice w ≡ laws.written w
  pub empty_lem : laws.written vec.empty ≡ []
  pub empty_room : 2 ^ 63 - 1 ≤ buf.remaining_mut vec.empty

abbrev pub slice_of : {W E : Type 0} → ByteVec W → Outcome E (Unit {0}) × W → Outcome E (List ℕ)
slice_of vec (ok u, w) = ok (vec.as_slice w)
slice_of vec (err e, w) = err e
slice_of vec (panic, w) = panic

-- `let mut buf = Vec::new(); …write to buf…` and the bytes written.
unfoldable pub write_to_vec : {W E : Type 0} → ByteVec W → Exec W E (Unit {0}) → Outcome E (List ℕ)
write_to_vec vec m = slice_of vec (m vec.empty)

pub write_to_vec_lem :
    {W E : Type 0} {buf : BufMut W} {laws : IsBufMut buf} {vec : ByteVec W}
    (is_vec : IsByteVec laws vec) {m : Exec W E (Unit {0})} {xs : List ℕ}
    → Writes ⦃buf = buf⦄ laws m xs
    → length xs < 2 ^ 63
    → write_to_vec vec m ≡ ok xs
unfolding write_to_vec
write_to_vec_lem {laws = laws} {vec = vec} is_vec {m = m} {xs = xs} writes h =
    let room = is_vec.empty_room in
    let (w, e, p, _) = writes.at vec.empty (omega arith) in
    ap (slice_of vec) e ∙ ap ok (is_vec.as_slice_lem w ∙ p ∙ ap (λ t. t ++ xs) is_vec.empty_lem)
