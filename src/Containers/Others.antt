-- ===== src/Containers/Others.antt =====
-- The other containers of wincode/src/schema/containers.rs: boxed slices, `VecDeque`, `BinaryHeap`,
-- `FromIntoIterator` and `pod_wrapper!`.
pub mod Laws
pub mod Deque
use wincode.Prelude.{
  ℕ, true, false, Option, none, some, List, ◌++◌, length, Outcome, ok, err, bind, wrapping_add,
  wrapping_mul,
}
use wincode.Error.{write_error}
use wincode.Reader.{Read, pure, ◌>>=◌, as_trusted_for_seq, copy_into_t}
use wincode.Writer.{Write, ◌▸◌, as_trusted_for, write}
use wincode.TypeMeta.{TypeMeta, static, dynamic}
use wincode.Config.{Configuration, LengthEncoding}
use wincode.SeqLen.{
  prealloc_check, write_len, write_bytes_needed_prealloc_check, read_prealloc_check,
}
use wincode.Schema.{Schema}
use wincode.Elements.{
  write_slice_t, read_items, decode_into_slice_t, size_of_elems, write_elem_iter,
  write_elem_iter_prealloc_check, write_elem_slice_prealloc_check,
}
use wincode.Containers.{vec_read}

-- A collection that is built from a vector or an iterator, and lists its elements again.
pub record Conversion {ℓ} (H A : Type ℓ) : Type ℓ where
  pub from_elements : List A → H
  pub elements : H → List A

module _ {ℓ} {A : Type ℓ} (c : Configuration) (l : LengthEncoding) (s : Schema A) where
  -- `impl_heap_slice!`: `Box<[T]>`, `Rc<[T]>` and `Arc<[T]>`.
  unfoldable pub heap_slice_read : Read (List A)
  heap_slice_read = do len ← read_prealloc_check c l s.mem_size; decode_into_slice_t s len

  unfoldable pub heap_slice_schema : ℕ → Schema (List A)
  heap_slice_schema pointer_size = record {
    write_meta = dynamic;
    read_meta = dynamic;
    mem_size = pointer_size;
    to_memory = none;
    from_memory = none;
    size_of = size_of_elems c l s;
    write = write_elem_slice_prealloc_check c l s;
    get = heap_slice_read;
  }

  -- `VecDeque` writes its two slices one after the other where elements are plain memory.
  unfoldable pub deque_write_by_meta : TypeMeta → List A × List A → Write
  deque_write_by_meta (static size true) (front, back) w =
      bind (write_bytes_needed_prealloc_check c l s.mem_size (length (front ++ back))) (λ n.
        as_trusted_for (wrapping_add n (wrapping_mul (length (front ++ back)) size))
          (write_len c l (length (front ++ back))
            ▸ write_slice_t s.to_memory front
            ▸ write_slice_t s.to_memory back)
          w)
  deque_write_by_meta (static size false) (front, back) w =
      write_elem_iter_prealloc_check c l s (length (front ++ back)) (front ++ back) w
  deque_write_by_meta dynamic (front, back) w =
      write_elem_iter_prealloc_check c l s (length (front ++ back)) (front ++ back) w

  abbrev pub deque_write : List A × List A → Write
  deque_write src = deque_write_by_meta s.write_meta src

  -- `encode_from_iter_prealloc_check` and `encode_from_iter`, by the length that the iterator reports
  -- and the items that it yields.
  unfoldable pub encode_from_iter_prealloc_check : ℕ → List A → Write
  encode_from_iter_prealloc_check len items = write_elem_iter_prealloc_check c l s len items

  unfoldable pub encode_from_iter : ℕ → List A → Write
  encode_from_iter len items = write_elem_iter c l s len items

  module _ {H : Type ℓ} (conv : Conversion H A) where
    -- `BinaryHeap`, whose `as_slice` lists the elements and which is built from a vector.
    unfoldable pub binary_heap_schema : ℕ → Schema H
    binary_heap_schema header_size = record {
      write_meta = dynamic;
      read_meta = dynamic;
      mem_size = header_size;
      to_memory = none;
      from_memory = none;
      size_of = λ src. size_of_elems c l s (conv.elements src);
      write = λ src. write_elem_slice_prealloc_check c l s (conv.elements src);
      get = (do vec ← vec_read c l s; pure (conv.from_elements vec));
    }

    -- `collect_result_prealloc` ends at the first error.
    unfoldable pub collect_items : TypeMeta → ℕ → Read H
    collect_items (static size z) len =
        as_trusted_for_seq len size (read_items s len) >>= λ vs. pure (conv.from_elements vs)
    collect_items dynamic len = read_items s len >>= λ vs. pure (conv.from_elements vs)

    unfoldable pub collected_write : H → Write
    collected_write src w = elim (prealloc_check c l s.mem_size (length (conv.elements src))) [
      | some e ↦ err (write_error e)
      | none ↦ write_elem_iter c l s (length (conv.elements src)) (conv.elements src) w
    ]

    unfoldable pub from_into_iterator_schema : ℕ → Schema H
    from_into_iterator_schema header_size = record {
      write_meta = dynamic;
      read_meta = dynamic;
      mem_size = header_size;
      to_memory = none;
      from_memory = none;
      size_of = λ src. size_of_elems c l s (conv.elements src);
      write = collected_write;
      get = (do len ← read_prealloc_check c l s.mem_size; collect_items s.read_meta len);
    }

module _ {ℓ} {A : Type ℓ} where
  -- `pod_wrapper!`: a type whose bytes in memory are its encoding.
  unfoldable pub pod_schema : ℕ → (A → List ℕ) → (List ℕ → A) → Schema A
  pod_schema size to_bytes from_bytes = record {
    write_meta = static size true;
    read_meta = static size true;
    mem_size = size;
    to_memory = some to_bytes;
    from_memory = some from_bytes;
    size_of = λ src. ok size;
    write = λ src. write (to_bytes src);
    get = (do bytes ← copy_into_t size; pure (from_bytes bytes));
  }
