-- ===== src/External.antt =====
-- wincode/src/schema/external: schemas of types of other crates. A value is its bytes or elements.
pub mod Laws
use wincode.Prelude.{
  ℕ, Bool, true, none, some, List, length, ◌==◌, not, Outcome, ok, err, bind, wrapping_add,
  if◌then◌else◌, leb,
}
use wincode.Error.{ReadError, WriteError, write_error, uuid_length, call_site}
use wincode.Reader.{
  Read, pure, raise, ◌>>=◌, take_array, supports_borrow, take_scoped, copy_into_slice,
}
use wincode.Writer.{Write, ◌▸◌, write}
use wincode.TypeMeta.{static, dynamic}
use wincode.Config.{Configuration, u8}
use wincode.SeqLen.{read, prealloc_check, read_prealloc_check, write_len, write_bytes_needed}
use wincode.Schema.{Schema}
use wincode.Elements.{size_of_elems, write_elem_slice_prealloc_check, decode_into_slice_t}
use wincode.Containers.{slice_size_of, slice_write}
use wincode.Containers.Others.{heap_slice_read}
use wincode.Impls.Scalars.{int_schema}
use wincode.Impls.Strings.{str_size_of, string_write, from_utf8}

abbrev pub uuid_size : ℕ
uuid_size = 16

-- `Uuid`, without the feature `uuid-serde-compat`.
unfoldable pub uuid_schema : Schema (List ℕ)
uuid_schema = record {
  write_meta = static uuid_size true;
  read_meta = static uuid_size true;
  mem_size = uuid_size;
  to_memory = some (λ bytes. bytes);
  from_memory = some (λ bytes. bytes);
  size_of = λ src. ok uuid_size;
  write = λ src. write src;
  get = take_array uuid_size;
}

-- `Uuid` with the feature: a length, which must be that of a `Uuid`, and then the bytes.
unfoldable pub uuid_after_len : ℕ → Read (List ℕ)
uuid_after_len len =
    if not (len == uuid_size)
    then raise (ReadError.invalid_value uuid_length)
    else take_array uuid_size

module _ (c : Configuration) where
  unfoldable pub uuid_compat_schema : Schema (List ℕ)
  uuid_compat_schema = record {
    write_meta = dynamic;
    read_meta = dynamic;
    mem_size = uuid_size;
    to_memory = none;
    from_memory = none;
    size_of = λ src.
        bind (write_bytes_needed c c.length_encoding uuid_size)
          (λ len_bytes. ok (wrapping_add len_bytes uuid_size));
    write = λ src. write_len c c.length_encoding uuid_size ▸ write src;
    get = (do len ← read c c.length_encoding; uuid_after_len len);
  }

  -- `SmallVec<[T; N]>`, and `bumpalo::collections::Vec<T>` in an arena.
  unfoldable pub small_vec_schema {ℓ} : {A : Type ℓ} → Schema A → ℕ → Schema (List A)
  small_vec_schema s header_size = record {
    write_meta = dynamic;
    read_meta = dynamic;
    mem_size = header_size;
    to_memory = none;
    from_memory = none;
    size_of = size_of_elems c c.length_encoding s;
    write = write_elem_slice_prealloc_check c c.length_encoding s;
    get = (do len ← read_prealloc_check c c.length_encoding s.mem_size; decode_into_slice_t s len);
  }

  -- `Bytes` and `BytesMut`, which read as `Box<[u8]>`.
  unfoldable pub bytes_write : List ℕ → Write
  bytes_write src w = elim (prealloc_check c c.length_encoding 1 (length src)) [
    | some e ↦ err (write_error e)
    | none ↦ slice_write c (int_schema c u8) src w
  ]

  unfoldable pub bytes_schema : ℕ → Schema (List ℕ)
  bytes_schema header_size = record {
    write_meta = dynamic;
    read_meta = dynamic;
    mem_size = header_size;
    to_memory = none;
    from_memory = none;
    size_of = slice_size_of c (int_schema c u8);
    write = bytes_write;
    get = heap_slice_read c c.length_encoding (int_schema c u8);
  }

  module _ (is_utf8 : List ℕ → Bool) (inline_limit : ℕ) where
    -- The three ways of `EcoString`: borrowed for the call, in an inline buffer, or in a vector.
    unfoldable pub eco_after_len : ℕ → Read (List ℕ)
    eco_after_len len r =
        if supports_borrow call_site r
        then (take_scoped len >>= from_utf8 is_utf8) r
        else if leb len inline_limit
        then (copy_into_slice len >>= from_utf8 is_utf8) r
        else (copy_into_slice len >>= from_utf8 is_utf8) r

    unfoldable pub eco_string_schema : ℕ → Schema (List ℕ)
    eco_string_schema header_size = record {
      write_meta = dynamic;
      read_meta = dynamic;
      mem_size = header_size;
      to_memory = none;
      from_memory = none;
      size_of = str_size_of c;
      write = string_write c;
      get = (do len ← read_prealloc_check c c.length_encoding 1; eco_after_len len);
    }
