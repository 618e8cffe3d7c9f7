-- ===== src/Impls/Borrowed/Laws.antt =====
-- References into the backing memory, of wincode/src/schema/impls.rs, against values that are copied
-- out.
use wincode.Prelude.{
  ℕ, ◌≤◌, ◌≡◌, sym, ap, ◌∙◌, Bool, true, false, not, ◌&&◌, ◌||◌, List, ◌++◌, length, take, ok, err,
  leb, ltb, if◌then◌else◌, bind, arith,
}
use wincode.Error.{backing, backing_mut, unaligned_pointer_read}
use wincode.Reader.{
  Reader, Read, copy_into_slice, supports_borrow, take_borrowed, take_borrowed_mut,
}
use wincode.Reader.View.{view, advance, copy-in_bounds}
use wincode.Reader.Reads.{Reads-copy_length}
use wincode.Reader.Borrow.{take_borrowed-copy, take_borrowed_mut-copy}
use wincode.TypeMeta.{static}
use wincode.Config.{Configuration}
use wincode.Schema.{Schema}
use wincode.Schema.Laws.{Laws}
use wincode.Impls.Borrowed.{
  size_assert_zero_copy, cast_ensure_aligned, reference, cast_slice, cast_taken, ref_by_size,
  ref_get, ref_mut_get,
}

module _ (c : Configuration) (align_of : ℕ) where
  -- An address at which a reference may be formed.
  abbrev pub IsPlaced : Bool → Type 0
  IsPlaced aligned = (leb align_of 1 || aligned) ≡ true

  pub cast-IsPlaced {ℓ} :
      {A : Type ℓ} (aligned : Bool) (a : A)
      → IsPlaced aligned
      → cast_slice c align_of aligned a ≡ ok a
  unfolding cast_ensure_aligned reference
  cast-IsPlaced aligned a h = by_check c.zero_copy_align_check
    where
      by_check :
          (b : Bool)
          → bind
              (if not b
                then ok a
                else if ltb 1 align_of && not aligned
                then err unaligned_pointer_read
                else ok a)
              (reference align_of aligned)
            ≡ ok a
      by_check b = grind arith

  -- With the check, a reference that is not aligned is an error.
  cast-unaligned {ℓ} :
      {A : Type ℓ} (aligned : Bool) (a : A)
      → c.zero_copy_align_check ≡ true
      → (leb align_of 1 || aligned) ≡ false
      → cast_slice c align_of aligned a ≡ err unaligned_pointer_read
  unfolding cast_ensure_aligned reference
  cast-unaligned aligned a e h = rw (e, cast_ensure_aligned) (grind arith)

module _ {ℓ} {A : Type ℓ} (c : Configuration) (align_of : ℕ) (is_aligned : Reader → Bool)
    (s : Schema A) {Valid : A → Type 0} {bytes : A → List ℕ} (laws : Laws s Valid bytes) (size : ℕ)
    (zero_copy : s.read_meta ≡ static size true) where
  by_size :
      (take_bytes : ℕ → Read (List ℕ)) (r : Reader) (rest : List ℕ) (a : A)
      → Valid a
      → ((n : ℕ) → take_bytes n r ≡ copy_into_slice n r)
      → view r ≡ bytes a ++ rest
      → IsPlaced c align_of (is_aligned r)
      → ref_by_size c align_of is_aligned s take_bytes
          (size_assert_zero_copy s.read_meta)
          s.from_memory
          r
        ≡ (ok a, advance (length (bytes a)) r)
  unfolding ref_by_size size_assert_zero_copy cast_taken
  by_size take_bytes r rest a h lends e placed =
      let (from, is_raw, same, back) = laws.read_raw size zero_copy in
      let taken : take_bytes size r ≡ (ok (bytes a), advance (length (bytes a)) r) =
        lends size
        ∙ (Reads-copy_length size (bytes a) (laws.read_static size true zero_copy a h)).at r rest
            e in
      rw (zero_copy, is_raw, ref_by_size)
        (rw (taken, ref_by_size)
          (ap (λ o. (o, advance (length (bytes a)) r))
            (cast-IsPlaced c align_of (is_aligned r) (from (bytes a)) placed ∙ ap ok (back a h))))

  -- Over a zero-copy type that keeps the schema laws, on a reader that lends its backing memory and
  -- whose next byte is aligned for the type: `&T` reads every encoding as its value, and comes to
  -- the same as reading the owned type, value and reader.
  pub ref_get-get :
      (r : Reader) (rest : List ℕ) (a : A)
      → Valid a
      → supports_borrow backing r ≡ true
      → view r ≡ bytes a ++ rest
      → IsPlaced c align_of (is_aligned r)
      → (ref_get c align_of is_aligned s r ≡ (ok a, advance (length (bytes a)) r))
        × (ref_get c align_of is_aligned s r ≡ s.get r)
  ref_get-get r rest a h lends e placed =
      let ends = by_size take_borrowed r rest a h (λ n. take_borrowed-copy n r lends) e placed in
      (ends, ends ∙ sym ((laws.reads a h).at r rest e))

  pub ref_mut_get-get :
      (r : Reader) (rest : List ℕ) (a : A)
      → Valid a
      → supports_borrow backing_mut r ≡ true
      → view r ≡ bytes a ++ rest
      → IsPlaced c align_of (is_aligned r)
      → ref_mut_get c align_of is_aligned s r ≡ s.get r
  ref_mut_get-get r rest a h lends e placed =
      by_size take_borrowed_mut r rest a h (λ n. take_borrowed_mut-copy n r lends) e placed
      ∙ sym ((laws.reads a h).at r rest e)

  -- Under the alignment check, `&T` at an address that is not aligned is refused with the error of
  -- an unaligned pointer, where the reader lends the bytes.
  pub ref_get-unaligned :
      (r : Reader)
      → supports_borrow backing r ≡ true
      → size ≤ length (view r)
      → c.zero_copy_align_check ≡ true
      → (leb align_of 1 || is_aligned r) ≡ false
      → (ref_get c align_of is_aligned s r).0 ≡ err unaligned_pointer_read
  unfolding ref_by_size size_assert_zero_copy cast_taken
  ref_get-unaligned r lends fits check unaligned =
      let (from, is_raw, same, back) = laws.read_raw size zero_copy in
      let taken : take_borrowed size r ≡ (ok (take size (view r)), advance size r) =
        take_borrowed-copy size r lends ∙ copy-in_bounds size r fits in
      rw (zero_copy, is_raw, ref_by_size)
        (rw (taken, ref_by_size)
          (cast-unaligned c align_of (is_aligned r) (from (take size (view r))) check unaligned))
