-- ===== src/Bitcoin/Buf/Slice.antt =====
-- A byte slice as a `Buf` and a slice with room left as a `BufMut`: one way to meet the two interfaces.
use cashweb_backends.Common.{
  ℕ, ◌+◌, ◌-◌, ◌≤◌, ◌≡◌, refl, List, ◌++◌, some, none, length, take, drop, take-append-drop, arith,
  IsByte, IsBytes, All-append_right, leb, le→leb, if◌then◌else◌, to_le_bytes, from_le_bytes,
  length-to_le_bytes,
}
use cashweb_backends.Bitcoin.Buf.{Buf, IsBuf, BufMut, IsBufMut}

pub record Slice : Type 0 where
  pub contents : List ℕ
  pub valid : IsBytes contents

pub drop-IsBytes : (n : ℕ) (xs : List ℕ) → IsBytes xs → IsBytes (drop n xs)
drop-IsBytes n xs h = All-append_right IsByte (take n xs) (drop n xs) (rw (take-append-drop n xs) h)

abbrev pub advance : ℕ → Slice → Slice
advance n s = record { contents = drop n s.contents; valid = drop-IsBytes n s.contents s.valid }

instance abbrev pub slice_buf : Buf Slice
slice_buf = record {
  remaining = λ s. length s.contents;
  get_uint_le = λ n s.
      if leb n (length s.contents)
      then some (from_le_bytes (take n s.contents), advance n s)
      else none;
  copy_to_slice =
      λ n s. if leb n (length s.contents) then some (take n s.contents, advance n s) else none;
}

abbrev pub slice_laws : IsBuf slice_buf
slice_laws = record {
  bytes = λ s. s.contents;
  bytes-IsBytes = λ s. s.valid;
  remaining_lem = λ s. refl;
  get_uint_le_lem = λ n s h. (advance n s, rw (le→leb _ _ h), refl);
  copy_to_slice_lem = λ n s h. (advance n s, rw (le→leb _ _ h), refl);
}

pub record Room : Type 0 where
  pub contents : List ℕ
  pub room : ℕ

abbrev pub append : List ℕ → Room → Room
append xs w = record { contents = w.contents ++ xs; room = w.room - length xs }

instance abbrev pub room_buf : BufMut Room
room_buf = record {
  remaining_mut = λ w. w.room;
  put_uint_le = λ v n w. if leb n w.room then some (append (to_le_bytes n v) w) else none;
  put_slice = λ xs w. if leb (length xs) w.room then some (append xs w) else none;
}

pub room_left : (r n : ℕ) (xs : List ℕ) → length xs ≡ n → n ≤ r → r - length xs + n ≡ r
room_left r n xs e h = omega arith

abbrev pub room_laws : IsBufMut room_buf
room_laws = record {
  written = λ w. w.contents;
  put_uint_le_lem = λ v n w h. (
    append (to_le_bytes n v) w,
    rw (le→leb _ _ h),
    refl,
    room_left w.room n (to_le_bytes n v) (length-to_le_bytes n v) h,
  );
  put_slice_lem =
      λ xs w h. (append xs w, rw (le→leb _ _ h), refl, room_left w.room (length xs) xs refl h);
}
