-- ===== src/Impls/NonZero.antt =====
-- `impl_nonzero!` of wincode/src/schema/impls.rs: the integers other than zero.
pub mod Laws
use wincode.Prelude.{Bool, false, none, if◌then◌else◌}
use wincode.Error.{ReadError, non_zero}
use wincode.Reader.{Read, pure, raise, ◌>>=◌}
use wincode.TypeMeta.{TypeMeta, static, dynamic}
use wincode.Schema.{Schema}

unfoldable pub nonzero_meta : TypeMeta → TypeMeta
nonzero_meta (static size z) = static size false
nonzero_meta dynamic = dynamic

module _ {ℓ} {A : Type ℓ} (is_zero : A → Bool) (s : Schema A) where
  -- `NonZero::new(val).ok_or_else(..)?`
  unfoldable pub nonzero_new : A → Read A
  nonzero_new val = if is_zero val then raise (ReadError.invalid_value non_zero) else pure val

  -- The schema over the primitive type `s`. It may be written from memory, and not read into it.
  unfoldable pub nonzero_schema : Schema A
  nonzero_schema = record {
    write_meta = s.write_meta;
    read_meta = nonzero_meta s.read_meta;
    mem_size = s.mem_size;
    to_memory = s.to_memory;
    from_memory = none;
    size_of = s.size_of;
    write = s.write;
    get = s.get >>= nonzero_new;
  }
