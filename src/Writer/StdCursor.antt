-- ===== src/Writer/StdCursor.antt =====
-- The cursors of `std::io` over slices as writers, of wincode/src/io/std_write.rs.
use wincode.Prelude.{
  ℕ, ◌+◌, ◌-◌, ◌≤◌, ◌<◌, ◌≡◌, refl, true, false, min, inl, inr, List, [], length, Outcome, bind,
  err, ltb, if◌then◌else◌, max_usize, leb-cases, arith,
}
use wincode.Error.{WriteError, size_limit_write}
use wincode.Writer.{
  Writer, slice_unchecked, cursor_slice, Write, copy_at, close_slice, as_trusted_for,
}

-- `cursor_slice_as_trusted_for`, the code that writes through the window, and its `finish`. A
-- position is a `u64`, which is a `usize` too.
pub cursor_slice_as_trusted_for : ℕ → Write → List ℕ → ℕ → Outcome WriteError Writer
cursor_slice_as_trusted_for n_bytes body inner pos =
    let next_pos = min (pos + n_bytes) max_usize in
    if ltb (length inner) next_pos
    then err (size_limit_write n_bytes)
    else bind (body (slice_unchecked [] (next_pos - pos)))
        (close_slice (λ bytes. cursor_slice (copy_at inner pos bytes) next_pos))

-- On a buffer shorter than `usize::MAX` and at a position within it, the cursor of the standard
-- library and the crate's own give code the same trusted window and end in the same way.
pub cursor_slice_as_trusted_for-as_trusted_for :
    (n_bytes : ℕ) (body : Write) (inner : List ℕ) (pos : ℕ)
    → pos ≤ length inner
    → length inner < max_usize
    → cursor_slice_as_trusted_for n_bytes body inner pos
      ≡ as_trusted_for n_bytes body (cursor_slice inner pos)
unfolding cursor_slice_as_trusted_for as_trusted_for
cursor_slice_as_trusted_for-as_trusted_for n_bytes body inner pos h small =
    elim (leb-cases n_bytes (length inner - pos)) [
      | inl (fits, test) ↦
          let next : min (pos + n_bytes) max_usize ≡ pos + n_bytes = omega arith in
          let inside : ltb (length inner) (pos + n_bytes) ≡ false = ground arith in
          let window : pos + n_bytes - pos ≡ n_bytes = omega arith in
          rw (next, inside, window, test, cursor_slice_as_trusted_for, as_trusted_for) refl
      | inr (short, test) ↦
          let outside : ltb (length inner) (min (pos + n_bytes) max_usize) ≡ true = ground arith in
          rw (outside, test, cursor_slice_as_trusted_for, as_trusted_for) refl
    ]

-- Past the end of the buffer, the cursor of the standard library refuses every window, also an
-- empty one.
pub cursor_slice_as_trusted_for-past_end :
    (n_bytes : ℕ) (body : Write) (inner : List ℕ) (pos : ℕ)
    → length inner < pos
    → length inner < max_usize
    → cursor_slice_as_trusted_for n_bytes body inner pos ≡ err (size_limit_write n_bytes)
unfolding cursor_slice_as_trusted_for
cursor_slice_as_trusted_for-past_end n_bytes body inner pos h small =
    let outside : ltb (length inner) (min (pos + n_bytes) max_usize) ≡ true = ground arith in
    rw (outside, cursor_slice_as_trusted_for) refl
