-- ===== src/Writer.antt =====
-- wincode/src/io: the `Writer` trait (mod.rs) and the writers over memory (slice.rs, vec.rs,
-- cursor.rs).
pub mod Room
pub mod Writes
pub mod Fails
pub mod StdCursor
use wincode.Prelude.{
  ℕ, zero, suc, ◌+◌, ◌-◌, Bool, true, false, Option, none, some, List, [], ◌∷◌, ◌++◌, length, take,
  drop, leb, if◌then◌else◌, Outcome, ok, err, fault, bind, checked_add,
}
use wincode.Error.{WriteError, size_limit_write}

-- The writers. `slice` is `&mut [MaybeUninit<u8>]` or `&mut [u8]`, by the bytes written before it
-- and the room left; `slice_unchecked` is `SliceMutUnchecked`, by what the window has been given and
-- what it still lacks; `vec` is `Vec<u8>`, `vec_unchecked` is `VecUnchecked` with the reserved bytes
-- left; `cursor_slice` and `cursor_vec` are `Cursor` over a slice and over a vector, at a position;
-- `vec_pos_unchecked` is `VecPosUnchecked` with the reserved bytes left.
pub data Writer : Type 0 where
  slice slice_unchecked : List ℕ → ℕ → Writer
  vec : List ℕ → Writer
  vec_unchecked : List ℕ → ℕ → Writer
  cursor_slice : List ℕ → ℕ → Writer
  cursor_vec : List ℕ → ℕ → Writer
  vec_pos_unchecked : List ℕ → ℕ → ℕ → Writer

-- A method that writes. Nothing uses a writer again after an error.
abbrev pub Write : Type 0
Write = Writer → Outcome WriteError Writer

-- Two writes in order; `?` stops at the first error.
infixl 20 ◌▸◌
abbrev pub ◌▸◌ : Write → Write → Write
◌▸◌ m n w = bind (m w) n

abbrev pub done : Write
done w = ok w

abbrev pub refuse : WriteError → Write
refuse e w = err e

-- The unchecked writers: a write past the window is undefined behaviour.
pub write_slice_unchecked : List ℕ → ℕ → List ℕ → Outcome WriteError Writer
write_slice_unchecked out room src =
    if leb (length src) room then ok (slice_unchecked (out ++ src) (room - length src)) else fault

pub write_vec_unchecked : List ℕ → ℕ → List ℕ → Outcome WriteError Writer
write_vec_unchecked buf room src =
    if leb (length src) room then ok (vec_unchecked (buf ++ src) (room - length src)) else fault

-- `&mut [u8]`: split off the destination and copy.
pub write_slice : List ℕ → ℕ → List ℕ → Outcome WriteError Writer
write_slice out room src =
    if leb (length src) room
    then ok (slice (out ++ src) (room - length src))
    else err (size_limit_write (length src))

-- Copy `src` over the bytes from `pos` on.
abbrev pub copy_at : List ℕ → ℕ → List ℕ → List ℕ
copy_at buf pos src = take pos buf ++ (src ++ drop (pos + length src) buf)

-- `Cursor<&mut [u8]>`; the position may lie past the end, where only an empty write fits.
pub write_cursor_slice : List ℕ → ℕ → List ℕ → Outcome WriteError Writer
write_cursor_slice buf pos src =
    if leb (length src) (length buf - pos)
    then ok (cursor_slice (copy_at buf pos src) (pos + length src))
    else err (size_limit_write (length src))

abbrev pub zeros : ℕ → List ℕ
zeros zero = []
zeros (suc n) = 0 ∷ zeros n

-- `vec::prepare_write`: grow the capacity, and zero-fill the gap below `pos`.
pub prepare_write : List ℕ → ℕ → ℕ → Outcome WriteError (List ℕ)
prepare_write buf pos needed = elim (checked_add pos needed) [
  | none ↦ err (size_limit_write needed)
  | some required ↦ ok (buf ++ zeros (pos - length buf))
]

-- `Cursor<Vec<u8>>`: `vec::write`, with `add_len` for the new length and position.
pub write_cursor_vec : List ℕ → ℕ → List ℕ → Outcome WriteError Writer
write_cursor_vec buf pos src =
    bind (prepare_write buf pos (length src))
      (λ filled. ok (cursor_vec (copy_at filled pos src) (pos + length src)))

-- `VecPosUnchecked`: the gap below `pos` holds the zeros that `prepare_write` put there.
pub write_vec_pos_unchecked : List ℕ → ℕ → ℕ → List ℕ → Outcome WriteError Writer
write_vec_pos_unchecked buf pos room src =
    let filled = buf ++ zeros (pos - length buf) in
    if leb (length src) room
    then ok (vec_pos_unchecked (copy_at filled pos src) (pos + length src) (room - length src))
    else fault

-- `Writer::write`.
pub write : List ℕ → Write
write src (slice out room) = write_slice out room src
write src (slice_unchecked out room) = write_slice_unchecked out room src
write src (vec buf) = ok (vec (buf ++ src))
write src (vec_unchecked buf room) = write_vec_unchecked buf room src
write src (cursor_slice buf pos) = write_cursor_slice buf pos src
write src (cursor_vec buf pos) = write_cursor_vec buf pos src
write src (vec_pos_unchecked buf pos room) = write_vec_pos_unchecked buf pos room src

-- `Writer::finish`: none of these writers overrides it.
abbrev pub finish : Write
finish = done

-- The end of a trusted window over a slice. The contract asks that all of it has been written;
-- otherwise the parent would hold memory that is not initialised.
pub close_slice : (List ℕ → Writer) → Write
close_slice parent (slice_unchecked bytes zero) = ok (parent bytes)
close_slice parent w = fault

pub close_vec : Write
close_vec (vec_unchecked buf room) = ok (vec buf)
close_vec w = fault

pub close_cursor_vec : Write
close_cursor_vec (vec_pos_unchecked buf pos room) = ok (cursor_vec buf pos)
close_cursor_vec w = fault

-- `as_trusted_for(n_bytes)?`, the code that writes through the returned window, and its `finish`.
pub as_trusted_for : ℕ → Write → Write
as_trusted_for n_bytes body (slice out room) =
    if leb n_bytes room
    then bind (body (slice_unchecked [] n_bytes))
        (close_slice (λ bytes. slice (out ++ bytes) (room - n_bytes)))
    else err (size_limit_write n_bytes)
as_trusted_for n_bytes body (vec buf) = bind (body (vec_unchecked buf n_bytes)) close_vec
as_trusted_for n_bytes body (cursor_slice buf pos) =
    if leb n_bytes (length buf - pos)
    then bind (body (slice_unchecked [] n_bytes))
        (close_slice (λ bytes. cursor_slice (copy_at buf pos bytes) (pos + n_bytes)))
    else err (size_limit_write n_bytes)
as_trusted_for n_bytes body (cursor_vec buf pos) =
    bind (prepare_write buf pos n_bytes)
      (λ _. bind (body (vec_pos_unchecked buf pos n_bytes)) close_cursor_vec)
as_trusted_for n_bytes body w = body w
