-- ===== src/Containers/Others/Deque.antt =====
-- `VecDeque` of wincode/src/schema/containers.rs writes what a vector of the same elements would.
use native.Mathlib.Nat.{mul_comm}
use wincode.Prelude.{
  ℕ, ◌*◌, ◌≡◌, refl, ap, ◌∙◌, true, false, List, [], ◌∷◌, ◌++◌, append_assoc, All, length, ok,
  wrapping_mul, wrapping_add, ◌%◌, ◌^◌,
}
use wincode.Writer.Writes.{Writes, Writes-write, Writes-seq, Writes-cast, Writes-window}
use wincode.TypeMeta.{TypeMeta, static, dynamic}
use wincode.Config.{Configuration, LengthEncoding}
use wincode.SeqLen.{write_bytes_needed_prealloc_check}
use wincode.SeqLen.Laws.{len_bytes, write_len-Writes, write_bytes_needed-length}
use wincode.Schema.{Schema}
use wincode.Schema.Laws.{Laws}
use wincode.Elements.{write_slice_t, write_elem_iter_prealloc_check}
use wincode.Elements.Bytes.{concat_bytes, length-concat_bytes, slice_to_memory-concat}
use wincode.Elements.Writing.{IsSequence, seq_bytes, total, write_elem_iter-Writes}
use wincode.Containers.Laws.{IsVec}
use wincode.Containers.Others.{
  deque_write_by_meta, deque_write, encode_from_iter_prealloc_check, encode_from_iter,
}

module _ {A : Type 0} (bytes : A → List ℕ) where
  concat_bytes-append :
      (us vs : List A)
      → concat_bytes bytes us ++ concat_bytes bytes vs ≡ concat_bytes bytes (us ++ vs)
  concat_bytes-append [] vs = refl
  concat_bytes-append (u ∷ us) vs =
      append_assoc (bytes u) (concat_bytes bytes us) (concat_bytes bytes vs)
      ∙ ap (λ l. bytes u ++ l) (concat_bytes-append us vs)

module _ {A : Type 0} (Valid : A → Type 0) where
  All-split : (us vs : List A) → All Valid (us ++ vs) → All Valid us × All Valid vs
  All-split [] vs all = (tt, all)
  All-split (u ∷ us) vs (p, all) = let (a, b) = All-split us vs all in ((p, a), b)

module _ {A : Type 0} (c : Configuration) (l : LengthEncoding) (s : Schema A) {Valid : A → Type 0}
    {bytes : A → List ℕ} (laws : Laws s Valid bytes) where
  slice-Writes :
      (size : ℕ)
      → s.write_meta ≡ static size true
      → (vs : List A) → All Valid vs
      → Writes (write_slice_t s.to_memory vs) (concat_bytes bytes vs)
  unfolding write_slice_t
  slice-Writes size e vs all =
      let (m, is_raw, same) = laws.write_raw size e in
      rw (is_raw, write_slice_t)
        (Writes-cast (slice_to_memory-concat bytes Valid m same vs all) (Writes-write _))

  module _ (front back : List A) (is_vec : IsVec c l s laws (front ++ back)) where
    needed-length :
        write_bytes_needed_prealloc_check c l s.mem_size (length (front ++ back))
        ≡ ok (length (len_bytes c l (length (front ++ back))))
    unfolding write_bytes_needed_prealloc_check
    needed-length =
        let ((all, fits, h), allowed) = is_vec in
        rw (allowed, write_bytes_needed_prealloc_check)
          (write_bytes_needed-length c l (length (front ++ back)) fits)

    iter-Writes :
        Writes
          (write_elem_iter_prealloc_check c l s (length (front ++ back)) (front ++ back))
          (seq_bytes c l s laws (front ++ back))
    unfolding write_elem_iter_prealloc_check
    iter-Writes =
        rw (is_vec.1, write_elem_iter_prealloc_check)
          (write_elem_iter-Writes c l s laws (front ++ back) is_vec.0)

    deque-Writes :
        (t : TypeMeta)
        → s.write_meta ≡ t
        → Writes (deque_write_by_meta c l s t (front, back)) (seq_bytes c l s laws (front ++ back))
    unfolding deque_write_by_meta wrapping_mul
    deque-Writes (static size true) e =
        let ((all, fits, h), allowed) = is_vec in
        let (first, second) = All-split Valid front back all in
        let len = length (front ++ back) in
        let fixed : length (concat_bytes bytes (front ++ back)) ≡ len * size =
          length-concat_bytes bytes Valid size (laws.write_static size true e) (front ++ back)
            all in
        rw (needed-length, deque_write_by_meta)
          (Writes-window _
            (ap (λ k. wrapping_add (length (len_bytes c l len)) (k % 2 ^ 64)) (mul_comm len size)
              ∙ total c l s laws size (front ++ back) fixed h)
            (Writes-cast
              (append_assoc (len_bytes c l len) (concat_bytes bytes front) (concat_bytes bytes back)
                ∙ ap (λ x. len_bytes c l len ++ x) (concat_bytes-append bytes front back))
              (Writes-seq
                (Writes-seq (write_len-Writes c l len fits) (slice-Writes size e front first))
                (slice-Writes size e back second))))
    deque-Writes (static size false) e = iter-Writes
    deque-Writes dynamic e = iter-Writes

    -- Over elements that keep the schema laws: `VecDeque` writes the length and then its elements
    -- in order, wherever its ring buffer is split and on every path, for elements that make a
    -- vector within the limits.
    pub deque_write-Writes :
        Writes (deque_write c l s (front, back)) (seq_bytes c l s laws (front ++ back))
    deque_write-Writes = deque-Writes s.write_meta refl

-- An iterator that yields as many items as it reports writes what a vector of them would, where they
-- make a vector within the limits.
pub encode_from_iter_prealloc_check-Writes :
    {A : Type 0} (c : Configuration) (l : LengthEncoding) (s : Schema A) {Valid : A → Type 0}
    {bytes : A → List ℕ} (laws : Laws s Valid bytes) (vs : List A)
    → IsVec c l s laws vs
    → Writes (encode_from_iter_prealloc_check c l s (length vs) vs) (seq_bytes c l s laws vs)
unfolding encode_from_iter_prealloc_check write_elem_iter_prealloc_check
encode_from_iter_prealloc_check-Writes c l s laws vs (is_sequence, allowed) =
    rw (allowed, write_elem_iter_prealloc_check) (write_elem_iter-Writes c l s laws vs is_sequence)

pub encode_from_iter-Writes :
    {A : Type 0} (c : Configuration) (l : LengthEncoding) (s : Schema A) {Valid : A → Type 0}
    {bytes : A → List ℕ} (laws : Laws s Valid bytes) (vs : List A)
    → IsSequence c l s laws vs
    → Writes (encode_from_iter c l s (length vs) vs) (seq_bytes c l s laws vs)
unfolding encode_from_iter
encode_from_iter-Writes c l s laws vs h = write_elem_iter-Writes c l s laws vs h
