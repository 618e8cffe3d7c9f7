-- ===== src/Containers.antt =====
-- wincode/src/schema/containers.rs: `containers::Vec<T, Len>`, and the `Vec<T>` and `[T]` of impls.rs.
pub mod Laws
pub mod Guard
pub mod Others
use wincode.Prelude.{ℕ, none, List, Outcome}
use wincode.Error.{WriteError}
use wincode.Reader.{Read, ◌>>=◌}
use wincode.Writer.{Write}
use wincode.TypeMeta.{dynamic}
use wincode.Config.{Configuration, LengthEncoding}
use wincode.SeqLen.{read_prealloc_check}
use wincode.Schema.{Schema}
use wincode.Elements.{
  decode_into_slice_t, size_of_elems, write_elem_slice, write_elem_slice_prealloc_check,
}

module _ {ℓ} {A : Type ℓ} where
  -- `Vec::read_with_context(context::Len(len))`
  abbrev pub vec_read_with_context : Schema A → ℕ → Read (List A)
  vec_read_with_context s len = decode_into_slice_t s len

  module _ (c : Configuration) (l : LengthEncoding) (s : Schema A) where
    unfoldable pub vec_read : Read (List A)
    vec_read = do len ← read_prealloc_check c l s.mem_size; vec_read_with_context s len

    -- `containers::Vec<T, Len>`; the size of a vector's own header in memory is the platform's.
    unfoldable pub vec_schema : ℕ → Schema (List A)
    vec_schema header_size = record {
      write_meta = dynamic;
      read_meta = dynamic;
      mem_size = header_size;
      to_memory = none;
      from_memory = none;
      size_of = size_of_elems c l s;
      write = write_elem_slice_prealloc_check c l s;
      get = vec_read;
    }

  module _ (c : Configuration) (s : Schema A) where
    -- `Vec<T>`, with the configuration's length encoding.
    unfoldable pub vec_default_schema : ℕ → Schema (List A)
    vec_default_schema header_size = vec_schema c c.length_encoding s header_size

    -- `[T]`, which is only written, and without a preallocation check.
    unfoldable pub slice_size_of : List A → Outcome WriteError ℕ
    slice_size_of vs = size_of_elems c c.length_encoding s vs

    unfoldable pub slice_write : List A → Write
    slice_write vs = write_elem_slice c c.length_encoding s vs
