-- ===== src/Impls/Strings.antt =====
-- `str` and `String` of wincode/src/schema/impls.rs. A string is its bytes; `is_utf8` is the test of
-- `core::str::from_utf8`.
pub mod Laws
use wincode.Prelude.{
  ℕ, Bool, none, some, List, length, Outcome, ok, err, bind, wrapping_add, if◌then◌else◌,
}
use wincode.Error.{ReadError, WriteError, write_error, call_site}
use wincode.Reader.{Read, pure, raise, ◌>>=◌, supports_borrow, take_scoped, copy_into_slice_t}
use wincode.Writer.{Write, ◌▸◌, write}
use wincode.TypeMeta.{dynamic}
use wincode.Config.{Configuration}
use wincode.SeqLen.{prealloc_check, read_prealloc_check, write_len, write_bytes_needed}
use wincode.Schema.{Schema}

module _ (c : Configuration) where
  unfoldable pub str_size_of : List ℕ → Outcome WriteError ℕ
  str_size_of src =
      bind (write_bytes_needed c c.length_encoding (length src))
        (λ n. ok (wrapping_add n (length src)))

  unfoldable pub str_write : List ℕ → Write
  str_write src = write_len c c.length_encoding (length src) ▸ write src

  unfoldable pub string_write : List ℕ → Write
  string_write src w = elim (prealloc_check c c.length_encoding 1 (length src)) [
    | some e ↦ err (write_error e)
    | none ↦ str_write src w
  ]

module _ (is_utf8 : List ℕ → Bool) where
  unfoldable pub from_utf8 : List ℕ → Read (List ℕ)
  from_utf8 bytes = if is_utf8 bytes then pure bytes else raise ReadError.invalid_utf8_encoding

  -- The second way is a `Vec<u8>`, whose elements are plain memory.
  unfoldable pub string_read_with_context : ℕ → Read (List ℕ)
  string_read_with_context len r =
      if supports_borrow call_site r
      then (take_scoped len >>= from_utf8) r
      else (copy_into_slice_t len 1 >>= from_utf8) r

  module _ (c : Configuration) where
    unfoldable pub string_read : Read (List ℕ)
    string_read = do len ← read_prealloc_check c c.length_encoding 1; string_read_with_context len

    unfoldable pub string_schema : ℕ → Schema (List ℕ)
    string_schema header_size = record {
      write_meta = dynamic;
      read_meta = dynamic;
      mem_size = header_size;
      to_memory = none;
      from_memory = none;
      size_of = str_size_of c;
      write = string_write c;
      get = string_read;
    }
