-- ===== src/Impls/Borrowed/Slices.antt =====
-- `&[T]` and `&str` of wincode/src/schema/impls.rs read the encodings of slices and of text.
use wincode.Prelude.{
  ℕ, ◌+◌, ◌*◌, ◌≤◌, ◌≡◌, refl, sym, ap, ◌∙◌, Bool, true, List, ◌++◌, append_assoc, All, length,
  length-append, drop-append, drop, ok, checked_mul-fits, max_usize, arith,
}
use wincode.Error.{backing}
use wincode.Reader.{Reader, supports_borrow, take_borrowed}
use wincode.Reader.View.{view, advance, view-advance, advance-advance}
use wincode.Reader.Reads.{Reads-copy_length}
use wincode.Reader.Borrow.{take_borrowed-copy, supports_borrow-advance}
use wincode.TypeMeta.{static}
use wincode.Config.{Configuration}
use wincode.SeqLen.Laws.{len_bytes, IsEncodable, read-Reads}
use wincode.Schema.{Schema}
use wincode.Schema.Laws.{Laws}
use wincode.Elements.Bytes.{concat_bytes, length-concat_bytes, slice_from_memory-concat}
use wincode.Elements.Writing.{seq_bytes, IsSequence}
use wincode.Impls.Strings.{from_utf8}
use wincode.Impls.Borrowed.{
  size_assert_zero_copy, cast_taken, slice_of_size, ref_slice_with_len, ref_slice_get,
  borrowed_str_get,
}
use wincode.Impls.Borrowed.Laws.{IsPlaced, cast-IsPlaced}

module _ {ℓ} {A : Type ℓ} (c : Configuration) (align_of : ℕ) (is_aligned : Reader → Bool)
    (s : Schema A) {Valid : A → Type 0} {bytes : A → List ℕ} (laws : Laws s Valid bytes) (size : ℕ)
    (zero_copy : s.read_meta ≡ static size true) where
  elements_lent :
      (r : Reader) (rest : List ℕ) (vs : List A)
      → All Valid vs
      → length (concat_bytes bytes vs) ≤ max_usize
      → supports_borrow backing r ≡ true
      → view r ≡ concat_bytes bytes vs ++ rest
      → IsPlaced c align_of (is_aligned r)
      → ref_slice_with_len c align_of is_aligned s take_borrowed
          (size_assert_zero_copy s.read_meta)
          s.from_memory
          (length vs)
          r
        ≡ (ok vs, advance (length (concat_bytes bytes vs)) r)
  unfolding ref_slice_with_len slice_of_size size_assert_zero_copy cast_taken
  elements_lent r rest vs all small lends e placed =
      let (from, is_raw, same, back) = laws.read_raw size zero_copy in
      let fixed = laws.read_static size true zero_copy in
      let total : length (concat_bytes bytes vs) ≡ length vs * size =
        length-concat_bytes bytes Valid size fixed vs all in
      let taken : take_borrowed (length vs * size) r
          ≡ (ok (concat_bytes bytes vs), advance (length (concat_bytes bytes vs)) r) =
        take_borrowed-copy (length vs * size) r lends
        ∙ (Reads-copy_length (length vs * size) (concat_bytes bytes vs) total).at r rest e in
      rw (zero_copy, is_raw, ref_slice_with_len)
        (rw (checked_mul-fits (length vs) size (omega arith), slice_of_size)
          (rw (taken, slice_of_size)
            (ap (λ o. (o, advance (length (concat_bytes bytes vs)) r))
              (cast-IsPlaced c align_of (is_aligned r) _ placed
                ∙ ap ok (slice_from_memory-concat bytes Valid from size fixed back vs all)))))

  -- Over a zero-copy type that keeps the schema laws, on a reader that lends its backing memory and
  -- whose next byte after the length is aligned for the type: `&[T]` reads the length and the
  -- elements of a sequence that the length encoding can hold and whose encoding is within `usize`
  -- as those elements, and leaves the reader just after them.
  pub ref_slice_get-sequence :
      (r : Reader) (rest : List ℕ) (vs : List A)
      → IsSequence c c.length_encoding s laws vs
      → supports_borrow backing r ≡ true
      → view r ≡ seq_bytes c c.length_encoding s laws vs ++ rest
      → IsPlaced c align_of
          (is_aligned (advance (length (len_bytes c c.length_encoding (length vs))) r))
      → ref_slice_get c align_of is_aligned s r
        ≡ (ok vs, advance (length (seq_bytes c c.length_encoding s laws vs)) r)
  ref_slice_get-sequence r rest vs (all, fits, h) lends e placed =
      let front = len_bytes c c.length_encoding (length vs) in
      let back = concat_bytes bytes vs in
      let sum : length (front ++ back) ≡ length front + length back = length-append front back in
      let whole : view r ≡ front ++ (back ++ rest) = e ∙ append_assoc front back rest in
      let after : view (advance (length front) r) ≡ back ++ rest =
        view-advance (length front) r
        ∙ ap (drop (length front)) whole
        ∙ drop-append front (back ++ rest) in
      rw ((read-Reads c c.length_encoding (length vs) fits).at r (back ++ rest) whole) (
        elements_lent (advance (length front) r) rest vs all (omega arith)
          (supports_borrow-advance (length front) r ∙ lends) after placed
        ∙ ap (λ r'. (ok vs, r'))
            (advance-advance (length front) (length back) r ∙ ap (λ n. advance n r) (sym sum)))

-- On a reader that lends its backing memory: `&str` reads a length and that many bytes of well-formed
-- text as that text.
pub borrowed_str_get-text :
    (is_utf8 : List ℕ → Bool) (c : Configuration) (r : Reader) (rest text : List ℕ)
    → is_utf8 text ≡ true
    → IsEncodable c.length_encoding (length text)
    → supports_borrow backing r ≡ true
    → view r ≡ (len_bytes c c.length_encoding (length text) ++ text) ++ rest
    → borrowed_str_get is_utf8 c r
      ≡ (ok text, advance (length (len_bytes c c.length_encoding (length text) ++ text)) r)
unfolding borrowed_str_get from_utf8
borrowed_str_get-text is_utf8 c r rest text valid fits lends e =
    let front = len_bytes c c.length_encoding (length text) in
    let sum : length (front ++ text) ≡ length front + length text = length-append front text in
    let whole : view r ≡ front ++ (text ++ rest) = e ∙ append_assoc front text rest in
    let after : view (advance (length front) r) ≡ text ++ rest =
      view-advance (length front) r
      ∙ ap (drop (length front)) whole
      ∙ drop-append front (text ++ rest) in
    let lent : take_borrowed (length text) (advance (length front) r)
        ≡ (ok text, advance (length text) (advance (length front) r)) =
      take_borrowed-copy (length text) _ (supports_borrow-advance (length front) r ∙ lends)
      ∙ (Reads-copy_length (length text) text refl).at _ rest after in
    rw ((read-Reads c c.length_encoding (length text) fits).at r (text ++ rest) whole) (
      rw lent (
        rw valid (
          ap (λ r'. (ok text, r'))
            (advance-advance (length front) (length text) r ∙ ap (λ n. advance n r) (sym sum)))))
