-- ===== src/Elements/Writing.antt =====
-- The sequence functions of wincode/src/schema/mod.rs write the format of a sequence, and announce its
-- size.
use native.Mathlib.Nat.{mul_comm}
use wincode.Prelude.{
  ℕ, ◌+◌, ◌*◌, ◌%◌, ◌^◌, ◌≤◌, ◌≡◌, refl, ap, ◌∙◌, true, false, List, [], ◌∷◌, ◌++◌, All, length,
  length-append, ok, bind, max_usize, wrapping_add, wrapping_mul, wrapping_add-fits, arith,
}
use wincode.Writer.{Write, ◌▸◌, as_trusted_for}
use wincode.Writer.Writes.{
  Writes, Writes-write, Writes-done, Writes-seq, Writes-cast, Writes-window,
}
use wincode.TypeMeta.{TypeMeta, static, dynamic}
use wincode.Config.{Configuration, LengthEncoding}
use wincode.SeqLen.{write_len, write_bytes_needed}
use wincode.SeqLen.Laws.{len_bytes, IsEncodable, write_len-Writes, write_bytes_needed-length}
use wincode.Schema.{Schema}
use wincode.Schema.Laws.{Laws}
use wincode.Elements.{
  write_slice_t, fold_sizes, write_items, size_by_meta, size_of_elems, write_elems,
  write_iter_by_meta, write_slice_by_meta, write_elem_slice, write_elem_iter,
}
use wincode.Elements.Bytes.{concat_bytes, length-concat_bytes, slice_to_memory-concat}

module _ {ℓ} {A : Type ℓ} (s : Schema A) {Valid : A → Type 0} {bytes : A → List ℕ}
    (laws : Laws s Valid bytes) where
  pub write_items-Writes :
      (vs : List A) → All Valid vs → Writes (write_items s (length vs) vs) (concat_bytes bytes vs)
  unfolding write_items
  write_items-Writes [] all = Writes-done
  write_items-Writes (v ∷ vs) (p, all) = Writes-seq (laws.writes v p) (write_items-Writes vs all)

  pub fold_sizes-length :
      (acc : ℕ) (vs : List A)
      → All Valid vs
      → acc + length (concat_bytes bytes vs) ≤ max_usize
      → fold_sizes s acc vs ≡ ok (acc + length (concat_bytes bytes vs))
  unfolding fold_sizes
  fold_sizes-length acc [] all h = ap ok (omega arith)
  fold_sizes-length acc (v ∷ vs) (p, all) h =
      let e : length (concat_bytes bytes (v ∷ vs))
          ≡ length (bytes v) + length (concat_bytes bytes vs) =
        length-append (bytes v) (concat_bytes bytes vs) in
      rw (laws.sizes v p) (
        rw (wrapping_add-fits acc (length (bytes v)) (omega arith))
          (fold_sizes-length (acc + length (bytes v)) vs all (omega arith) ∙ ap ok (omega arith)))

module _ {ℓ} {A : Type ℓ} (c : Configuration) (l : LengthEncoding) (s : Schema A)
    {Valid : A → Type 0} {bytes : A → List ℕ} (laws : Laws s Valid bytes) where
  -- The format of a sequence: the length, then the elements.
  abbrev pub seq_bytes : List A → List ℕ
  seq_bytes vs = len_bytes c l (length vs) ++ concat_bytes bytes vs

  -- A sequence that the length encoding can hold, of elements that can be encoded.
  abbrev pub IsSequence : List A → Type 0
  IsSequence vs = All Valid vs × IsEncodable l (length vs) × (length (seq_bytes vs) ≤ max_usize)

  -- The window that the length and elements of a fixed size need.
  pub total :
      (size : ℕ) (vs : List A)
      → length (concat_bytes bytes vs) ≡ length vs * size
      → length (seq_bytes vs) ≤ max_usize
      → wrapping_add (length (len_bytes c l (length vs))) (wrapping_mul size (length vs))
        ≡ length (seq_bytes vs)
  unfolding wrapping_add wrapping_mul
  total size vs e h =
      omega (arith, length-append (len_bytes c l (length vs)) (concat_bytes bytes vs))

  size_by_meta-length :
      (t : TypeMeta)
      → s.write_meta ≡ t
      → (vs : List A) → IsSequence vs
      → size_by_meta c l s t vs ≡ ok (length (seq_bytes vs))
  unfolding size_by_meta
  size_by_meta-length (static size z) e vs (all, fits, h) =
      rw (write_bytes_needed-length c l (length vs) fits) (
        ap ok (
          total size vs (length-concat_bytes bytes Valid size (laws.write_static size z e) vs all)
            h))
  size_by_meta-length dynamic e vs (all, fits, h) =
      let sum : length (seq_bytes vs)
          ≡ length (len_bytes c l (length vs)) + length (concat_bytes bytes vs) =
        length-append (len_bytes c l (length vs)) (concat_bytes bytes vs) in
      rw (write_bytes_needed-length c l (length vs) fits) (
        rw (fold_sizes-length s laws 0 vs all (omega arith))
          (ap ok (wrapping_add-fits _ _ (omega arith) ∙ omega arith)))

  pub size_of_elems-length :
      (vs : List A) → IsSequence vs → size_of_elems c l s vs ≡ ok (length (seq_bytes vs))
  size_of_elems-length vs h = size_by_meta-length s.write_meta refl vs h

  write_elems-Writes :
      (vs : List A) → IsSequence vs → Writes (write_elems c l s (length vs) vs) (seq_bytes vs)
  write_elems-Writes vs (all, fits, h) =
      Writes-seq (write_len-Writes c l (length vs) fits) (write_items-Writes s laws vs all)

  window :
      (size product : ℕ) {m : Write} (vs : List A)
      → product ≡ size * length vs
      → IsSequence vs
      → length (concat_bytes bytes vs) ≡ length vs * size
      → Writes m (seq_bytes vs)
      → Writes
          (λ w.
            bind
              (write_bytes_needed c l (length vs))
              (λ n. as_trusted_for (wrapping_add n (product % 2 ^ 64)) m w))
          (seq_bytes vs)
  unfolding wrapping_mul
  window size product vs same (all, fits, h) e wm =
      rw (write_bytes_needed-length c l (length vs) fits) (
        Writes-window _
          (ap (λ k. wrapping_add (length (len_bytes c l (length vs))) (k % 2 ^ 64)) same
            ∙ total size vs e h)
          wm)

  write_iter_by_meta-Writes :
      (t : TypeMeta)
      → s.write_meta ≡ t
      → (vs : List A) → IsSequence vs
      → Writes (write_iter_by_meta c l s t (length vs) vs) (seq_bytes vs)
  unfolding write_iter_by_meta wrapping_mul
  write_iter_by_meta-Writes (static size z) e vs h =
      window size (size * length vs) vs refl h
        (length-concat_bytes bytes Valid size (laws.write_static size z e) vs h.0)
        (write_elems-Writes vs h)
  write_iter_by_meta-Writes dynamic e vs h = write_elems-Writes vs h

  raw_elems-Writes :
      (size : ℕ)
      → s.write_meta ≡ static size true
      → (vs : List A) → IsSequence vs
      → Writes (write_len c l (length vs) ▸ write_slice_t s.to_memory vs) (seq_bytes vs)
  unfolding write_slice_t
  raw_elems-Writes size e vs (all, fits, h) =
      let (m, is_raw, same) = laws.write_raw size e in
      Writes-seq (write_len-Writes c l (length vs) fits) (
        rw (is_raw, write_slice_t)
          (Writes-cast (slice_to_memory-concat bytes Valid m same vs all) (Writes-write _)))

  write_slice_by_meta-Writes :
      (t : TypeMeta)
      → s.write_meta ≡ t
      → (vs : List A) → IsSequence vs
      → Writes (write_slice_by_meta c l s t vs) (seq_bytes vs)
  unfolding write_slice_by_meta wrapping_mul
  write_slice_by_meta-Writes (static size true) e vs h =
      window size (length vs * size) vs (mul_comm (length vs) size) h
        (length-concat_bytes bytes Valid size (laws.write_static size true e) vs h.0)
        (raw_elems-Writes size e vs h)
  write_slice_by_meta-Writes (static size false) e vs h =
      write_iter_by_meta-Writes s.write_meta refl vs h
  write_slice_by_meta-Writes dynamic e vs h = write_iter_by_meta-Writes s.write_meta refl vs h

  -- Over elements that keep the schema laws: whichever path the metadata selects,
  -- `write_elem_slice` writes the length and then the elements, for a list that the length encoding
  -- can hold and whose encoding is within `usize`.
  pub write_elem_slice-Writes :
      (vs : List A) → IsSequence vs → Writes (write_elem_slice c l s vs) (seq_bytes vs)
  write_elem_slice-Writes vs h = write_slice_by_meta-Writes s.write_meta refl vs h

  pub write_elem_iter-Writes :
      (vs : List A) → IsSequence vs → Writes (write_elem_iter c l s (length vs) vs) (seq_bytes vs)
  write_elem_iter-Writes vs h = write_iter_by_meta-Writes s.write_meta refl vs h
