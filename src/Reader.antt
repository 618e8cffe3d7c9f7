-- ===== src/Reader.antt =====
-- wincode/src/io: the `Reader` trait (mod.rs) and the readers over memory (slice.rs, cursor.rs,
-- limit_reader.rs). A destination slice is modelled by the bytes that are copied into it.
pub mod View
pub mod Reads
pub mod Safe
pub mod Parses
pub mod Limit
pub mod Borrow
pub mod StdCursor
use wincode.Prelude.{
  ℕ, ◌+◌, ◌-◌, ◌*◌, ◌^◌, min, Bool, true, false, Option, none, some, List, [], ◌∷◌, length, take,
  drop, leb, if◌then◌else◌, Outcome, ok, err, fault, checked_mul,
}
use wincode.Error.{
  BorrowKind, call_site, backing, backing_mut, ReadError, unsupported_borrow, usize_max,
  size_limit_read,
}

-- The readers. `slice` is `&[u8]`, `slice_mut` is `&mut [u8]`; the unchecked ones are the trusted
-- windows; `cursor` is `Cursor<T>` at a position; `limit` is `LimitReader` with what remains.
pub data Reader : Type 0 where
  slice slice_mut slice_unchecked slice_mut_unchecked slice_scoped_unchecked : List ℕ → Reader
  cursor : List ℕ → ℕ → Reader
  limit : Reader → ℕ → Reader

-- A method on `&mut self` that may fail: the reader comes back beside the error too.
abbrev pub Read {ℓ} : Type ℓ → Type ℓ
Read A = Reader → Outcome ReadError A × Reader

module _ {ℓ} {A : Type ℓ} where
  abbrev pub pure : A → Read A
  pure a r = (ok a, r)

  abbrev pub raise : ReadError → Read A
  raise e r = (err e, r)

module _ {ℓ κ} {A : Type ℓ} {B : Type κ} where
  abbrev pub continue : Outcome ReadError A → (A → Read B) → Read B
  continue (ok a) f r = f a r
  continue (err e) f r = (err e, r)
  continue fault f r = (fault, r)

  infixl 5 ◌>>=◌ ◌>>◌
  abbrev pub ◌>>=◌ : Read A → (A → Read B) → Read B
  ◌>>=◌ m f r = let (o, r') = m r in continue o f r'

  abbrev pub ◌>>◌ : Read A → Read B → Read B
  m >> n = m >>= λ _. n

-- Split off `len` bytes and advance past them.
pub advance_slice_checked : List ℕ → ℕ → Option (List ℕ × List ℕ)
advance_slice_checked input len =
    if leb len (length input) then some (take len input, drop len input) else none

-- Out of bounds the call is undefined behaviour.
pub advance_slice_unchecked : List ℕ → ℕ → Outcome ReadError (List ℕ) × List ℕ
advance_slice_unchecked input len =
    if leb len (length input) then (ok (take len input), drop len input) else (fault, input)

-- The same on a cursor, whose position may lie past the end.
pub advance_cursor_checked : List ℕ → ℕ → ℕ → Option (List ℕ × ℕ)
advance_cursor_checked buf pos len =
    let rest = drop (min pos (length buf)) buf in
    if leb len (length rest) then some (take len rest, pos + len) else none

-- The byte-copying methods of `&[u8]`.
pub copy_slice : ℕ → List ℕ → Outcome ReadError (List ℕ) × Reader
copy_slice len buf = elim (advance_slice_checked buf len) [
  | none ↦ (err (size_limit_read len), slice buf)
  | some (src, rest) ↦ (ok src, slice rest)
]

-- Those of `&mut [u8]`: `mem::take` has emptied the reader when the split fails.
pub copy_slice_mut : ℕ → List ℕ → Outcome ReadError (List ℕ) × Reader
copy_slice_mut len buf = elim (advance_slice_checked buf len) [
  | none ↦ (err (size_limit_read len), slice_mut [])
  | some (src, rest) ↦ (ok src, slice_mut rest)
]

-- Those of the trusted windows, over the constructor of the window.
pub copy_unchecked : (List ℕ → Reader) → ℕ → List ℕ → Outcome ReadError (List ℕ) × Reader
copy_unchecked window len buf =
    let (src, rest) = advance_slice_unchecked buf len in (src, window rest)

-- Those of `Cursor<T>`.
pub copy_cursor : ℕ → List ℕ → ℕ → Outcome ReadError (List ℕ) × Reader
copy_cursor len buf pos = elim (advance_cursor_checked buf pos len) [
  | none ↦ (err (size_limit_read len), cursor buf pos)
  | some (src, pos') ↦ (ok src, cursor buf pos')
]

-- `LimitReader::reserve_limit`: what is left, or none when the request exceeds it.
pub reserve_limit : ℕ → ℕ → Option ℕ
reserve_limit remaining needed = if leb needed remaining then some (remaining - needed) else none

-- A method of `LimitReader`: reserve first, then delegate to `inner`, whose answer is `inner_op`.
-- The reservation stays on an error.
pub limited {ℓ} :
    {A : Type ℓ} → ℕ → Outcome ReadError A × Reader → Reader → ℕ → Outcome ReadError A × Reader
limited needed inner_op inner remaining = elim (reserve_limit remaining needed) [
  | none ↦ (err (size_limit_read needed), limit inner remaining)
  | some left ↦ (inner_op.0, limit inner_op.1 left)
]

-- `copy_into_slice` of every reader; `copy_into_uninit_slice` copies the same bytes.
pub copy_into_slice : ℕ → Read (List ℕ)
copy_into_slice len (slice buf) = copy_slice len buf
copy_into_slice len (slice_mut buf) = copy_slice_mut len buf
copy_into_slice len (slice_unchecked buf) = copy_unchecked slice_unchecked len buf
copy_into_slice len (slice_mut_unchecked buf) = copy_unchecked slice_mut_unchecked len buf
copy_into_slice len (slice_scoped_unchecked buf) = copy_unchecked slice_scoped_unchecked len buf
copy_into_slice len (cursor buf pos) = copy_cursor len buf pos
copy_into_slice len (limit inner remaining) =
    limited len (copy_into_slice len inner) inner remaining

-- `take_array::<N>`: each override moves as `copy_into_slice` does.
abbrev pub take_array : ℕ → Read (List ℕ)
take_array n = copy_into_slice n

abbrev pub head_or_zero : List ℕ → ℕ
head_or_zero [] = 0
head_or_zero (b ∷ bs) = b

-- `take_array::<1>()?[0]`; an array of one byte has a head.
pub take_byte : Read ℕ
take_byte = do bytes ← take_array 1; pure (head_or_zero bytes)

-- `copy_into_t::<T>` and `copy_into_slice_t::<T>`, by the bytes of the destination.
abbrev pub copy_into_t : ℕ → Read (List ℕ)
copy_into_t size = copy_into_slice size

abbrev pub copy_into_slice_t : ℕ → ℕ → Read (List ℕ)
copy_into_slice_t len size = copy_into_slice (len * size)

-- `take_scoped`: every reader over memory lends its bytes for the call.
abbrev pub take_scoped : ℕ → Read (List ℕ)
take_scoped len = copy_into_slice len

-- `supports_borrow`: the test of `BORROW_KINDS` against the mask of the kind.
pub supports_borrow : BorrowKind → Reader → Bool
supports_borrow call_site r = true
supports_borrow backing (slice_scoped_unchecked buf) = false
supports_borrow backing (cursor buf pos) = false
supports_borrow backing_mut (slice_mut buf) = true
supports_borrow backing_mut (slice_mut_unchecked buf) = true
supports_borrow backing_mut (limit inner remaining) = supports_borrow backing_mut inner
supports_borrow backing_mut r = false
supports_borrow backing (limit inner remaining) = supports_borrow backing inner
supports_borrow backing r = true

-- `take_borrowed` and `take_borrowed_mut`: the trait's default refuses.
pub take_borrowed : ℕ → Read (List ℕ)
take_borrowed len (slice_scoped_unchecked buf) =
    (err (ReadError.io (unsupported_borrow backing)), slice_scoped_unchecked buf)
take_borrowed len (cursor buf pos) =
    (err (ReadError.io (unsupported_borrow backing)), cursor buf pos)
take_borrowed len (limit inner remaining) = limited len (take_borrowed len inner) inner remaining
take_borrowed len r = copy_into_slice len r

pub take_borrowed_mut : ℕ → Read (List ℕ)
take_borrowed_mut len (slice_mut buf) = copy_into_slice len (slice_mut buf)
take_borrowed_mut len (slice_mut_unchecked buf) = copy_into_slice len (slice_mut_unchecked buf)
take_borrowed_mut len (limit inner remaining) =
    limited len (take_borrowed_mut len inner) inner remaining
take_borrowed_mut len r = (err (ReadError.io (unsupported_borrow backing_mut)), r)

-- `as_trusted_for(n_bytes)?` and the code that reads through the returned window. A checked reader
-- has advanced past the window at once; a window that is trusted again passes itself on.
pub as_trusted_for {ℓ} : {A : Type ℓ} → ℕ → Read A → Read A
as_trusted_for n_bytes body (slice buf) = elim (advance_slice_checked buf n_bytes) [
  | none ↦ (err (size_limit_read n_bytes), slice buf)
  | some (window, rest) ↦ ((body (slice_unchecked window)).0, slice rest)
]
as_trusted_for n_bytes body (slice_mut buf) = elim (advance_slice_checked buf n_bytes) [
  | none ↦ (err (size_limit_read n_bytes), slice_mut [])
  | some (window, rest) ↦ ((body (slice_mut_unchecked window)).0, slice_mut rest)
]
as_trusted_for n_bytes body (cursor buf pos) = elim (advance_cursor_checked buf pos n_bytes) [
  | none ↦ (err (size_limit_read n_bytes), cursor buf pos)
  | some (window, pos') ↦ ((body (slice_scoped_unchecked window)).0, cursor buf pos')
]
as_trusted_for n_bytes body (limit inner remaining) =
    limited n_bytes (as_trusted_for n_bytes body inner) inner remaining
as_trusted_for n_bytes body r = body r

-- `as_trusted_for_seq`; `LimitReader` overrides it with the same steps.
pub as_trusted_for_seq {ℓ} : {A : Type ℓ} → ℕ → ℕ → Read A → Read A
as_trusted_for_seq len size body r = elim (checked_mul len size) [
  | none ↦ (err (ReadError.length_encoding_overflow usize_max), r)
  | some window ↦ as_trusted_for window body r
]
