-- ===== src/Impls/Arrays.antt =====
-- `[T; N]` of wincode/src/schema/impls.rs. An array is a list of `n` elements.
pub mod Laws
use wincode.Prelude.{ℕ, ◌*◌, Option, none, some, true, false, List, length, Outcome, ok}
use wincode.Error.{WriteError}
use wincode.Writer.{Write, as_trusted_for}
use wincode.TypeMeta.{TypeMeta, static, dynamic, array_meta}
use wincode.Schema.{Schema}
use wincode.Elements.{
  slice_to_memory, slice_from_memory, write_slice_t, fold_sizes, write_items, decode_into_slice_t,
}

module _ {ℓ} {A : Type ℓ} (s : Schema A) where
  unfoldable pub array_size_by_meta : TypeMeta → List A → Outcome WriteError ℕ
  array_size_by_meta (static size z) vs = ok size
  array_size_by_meta dynamic vs = fold_sizes s 0 vs

  unfoldable pub array_write_by_meta : TypeMeta → List A → Write
  array_write_by_meta (static size true) vs w = write_slice_t s.to_memory vs w
  array_write_by_meta (static size false) vs w =
      as_trusted_for size (write_items s (length vs) vs) w
  array_write_by_meta dynamic vs w = write_items s (length vs) vs w

  abbrev slice_memory : Option (A → List ℕ) → Option (List A → List ℕ)
  slice_memory (some f) = some (slice_to_memory f)
  slice_memory none = none

  abbrev memory_slice : ℕ → Option (List ℕ → A) → Option (List ℕ → List A)
  memory_slice n (some f) = some (slice_from_memory f s.mem_size n)
  memory_slice n none = none

  unfoldable pub array_schema : ℕ → Schema (List A)
  array_schema n = record {
    write_meta = array_meta n s.write_meta;
    read_meta = array_meta n s.read_meta;
    mem_size = n * s.mem_size;
    to_memory = slice_memory s.to_memory;
    from_memory = memory_slice n s.from_memory;
    size_of = array_size_by_meta (array_meta n s.write_meta);
    write = array_write_by_meta (array_meta n s.write_meta);
    get = decode_into_slice_t s n;
  }
