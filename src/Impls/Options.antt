-- ===== src/Impls/Options.antt =====
-- `Option<T>` of wincode/src/schema/impls.rs.
pub mod Laws
use wincode.Prelude.{
  ℕ, ◌+◌, ◌^◌, ◌==◌, true, false, Bool, Option, none, some, List, [], ◌∷◌, ◌⊎◌, inl, inr, Outcome,
  ok, err, fault, bind, wrapping_add, leb, if◌then◌else◌,
}
use wincode.Error.{
  ReadError, WriteError, TagEncodingOverflow, tag_read_error, tag_write_error, unsigned,
}
use wincode.Reader.{Read, pure, raise, ◌>>=◌, take_byte}
use wincode.Writer.{Write, ◌▸◌, write}
use wincode.IntEncoding.{max_of}
use wincode.TypeMeta.{TypeMeta, static, dynamic}
use wincode.Config.{Configuration, IntType}
use wincode.Ints.{size_of_type, int_meta, int_size_of, int_write, int_read}
use wincode.Schema.{Schema}

module _ {ℓ} {A : Type ℓ} (s : Schema A) where
  -- `match variant`
  unfoldable pub option_from_variant : ℕ → Read (Option A)
  option_from_variant variant =
      if variant == 0
      then pure none
      else if variant == 1
      then (do v ← s.get; pure (some v))
      else raise (ReadError.invalid_tag_encoding variant)

  unfoldable pub option_size_of : Option A → Outcome WriteError ℕ
  option_size_of (some v) = bind (s.size_of v) (λ n. ok (wrapping_add 1 n))
  option_size_of none = ok 1

  unfoldable pub option_write : Option A → Write
  option_write (some v) = write (1 ∷ []) ▸ s.write v
  option_write none = write (0 ∷ [])

  -- The size in memory is the compiler's choice.
  unfoldable pub option_schema : ℕ → Schema (Option A)
  option_schema size_in_memory = record {
    write_meta = dynamic;
    read_meta = dynamic;
    mem_size = size_in_memory;
    to_memory = none;
    from_memory = none;
    size_of = option_size_of;
    write = option_write;
    get = (do variant ← take_byte; option_from_variant variant);
  }
