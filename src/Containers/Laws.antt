-- ===== src/Containers/Laws.antt =====
-- `containers::Vec` of wincode/src/schema/containers.rs: its format, and its laws as a schema.
use wincode.Prelude.{ℕ, ◌≤◌, ◌≡◌, none, some, List, length, length-append, max_usize, err, arith}
use wincode.Error.{PreallocationError, write_error}
use wincode.Reader.Reads.{Reads, Reads-bind}
use wincode.Reader.Safe.{SafeDynamic, SafeDynamic-bind}
use wincode.Writer.{Writer}
use wincode.Writer.Writes.{Writes}
use wincode.Config.{Configuration, LengthEncoding}
use wincode.SeqLen.{prealloc_check}
use wincode.SeqLen.Laws.{len_bytes, read_prealloc_check-Reads, read_prealloc_check-SafeDynamic}
use wincode.Schema.{Schema}
use wincode.Schema.Laws.{Laws}
use wincode.Elements.{decode_into_slice_t, write_elem_slice_prealloc_check}
use wincode.Elements.Bytes.{concat_bytes}
use wincode.Elements.Reading.{decode_into_slice_t-Reads, decode_into_slice_t-SafeDynamic}
use wincode.Elements.Writing.{seq_bytes, IsSequence, size_of_elems-length, write_elem_slice-Writes}
use wincode.Containers.{vec_read, vec_schema}

module _ {ℓ} {A : Type ℓ} (c : Configuration) (l : LengthEncoding) (s : Schema A)
    {Valid : A → Type 0} {bytes : A → List ℕ} (laws : Laws s Valid bytes) where
  -- A sequence within the preallocation limit.
  abbrev pub IsVec : List A → Type 0
  IsVec vs = IsSequence c l s laws vs × (prealloc_check c l s.mem_size (length vs) ≡ none)

  vec_write-Writes :
      (vs : List A)
      → IsVec vs
      → Writes (write_elem_slice_prealloc_check c l s vs) (seq_bytes c l s laws vs)
  unfolding write_elem_slice_prealloc_check
  vec_write-Writes vs (h, e) =
      rw (e, write_elem_slice_prealloc_check) (write_elem_slice-Writes c l s laws vs h)

  vec_read-Reads : (vs : List A) → IsVec vs → Reads (vec_read c l s) (seq_bytes c l s laws vs) vs
  unfolding vec_read
  vec_read-Reads vs ((all, fits, h), e) =
      let small : length (concat_bytes bytes vs) ≤ max_usize =
        omega (arith, length-append (len_bytes c l (length vs)) (concat_bytes bytes vs)) in
      Reads-bind (decode_into_slice_t s)
        (read_prealloc_check-Reads c l s.mem_size (length vs) fits e)
        (decode_into_slice_t-Reads s laws vs all small)

  -- Reading a vector is memory safe on every input, also where the length that it claims is false.
  pub vec_read-SafeDynamic : SafeDynamic (vec_read c l s)
  unfolding vec_read
  vec_read-SafeDynamic =
      SafeDynamic-bind (read_prealloc_check-SafeDynamic c l s.mem_size)
        (decode_into_slice_t-SafeDynamic s laws)

  -- A vector over the preallocation limit is refused before anything is written.
  pub vec_write-over_limit :
      (vs : List A) (x : PreallocationError) (w : Writer)
      → prealloc_check c l s.mem_size (length vs) ≡ some x
      → write_elem_slice_prealloc_check c l s vs w ≡ err (write_error x)
  unfolding write_elem_slice_prealloc_check
  vec_write-over_limit vs x w e = rw (e, write_elem_slice_prealloc_check)

  module _ (header_size : ℕ) where
    -- Over elements that keep the schema laws, `containers::Vec` keeps them too, for every sequence
    -- that its length encoding can hold, within the preallocation limit and within `usize`: it
    -- writes the length and then the elements, announces exactly that size, reads the value back on
    -- every reader, and is memory safe on every input.
    pub vec_schema-Laws : Laws (vec_schema c l s header_size) IsVec (seq_bytes c l s laws)
    unfolding vec_schema
    vec_schema-Laws = record {
      writes = vec_write-Writes;
      sizes = λ vs h. size_of_elems-length c l s laws vs h.0;
      reads = vec_read-Reads;
      safe = vec_read-SafeDynamic;
      write_static = λ size z e. cc;
      read_static = λ size z e. cc;
      write_raw = λ size e. absurd cc;
      read_raw = λ size e. absurd cc;
    }
