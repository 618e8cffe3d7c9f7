-- ===== src/Ints.antt =====
-- The schemas of the unsigned integers in wincode/src/schema/impls.rs: `impl_int_config_dependent!`
-- for the wider ones and `impl_byte!` for `u8`.
pub mod Laws
use wincode.Prelude.{ℕ, ◌%◌, Bool, true, false, List, [], ◌∷◌, Outcome, ok, if◌then◌else◌}
use wincode.Error.{WriteError}
use wincode.Reader.{Read, take_byte}
use wincode.Writer.{Write, write}
use wincode.TypeMeta.{TypeMeta, static, dynamic}
use wincode.IntEncoding
use wincode.IntEncoding.{UInt, size_in_bytes, is_static, is_zero_copy}
use wincode.Config.{Configuration, IntType, u8, wide}

abbrev pub size_of_type : IntType → ℕ
size_of_type u8 = 1
size_of_type (wide t) = size_in_bytes t

module _ (c : Configuration) where
  unfoldable pub int_meta : IntType → TypeMeta
  int_meta u8 = static 1 true
  int_meta (wide t) =
      if is_static c.int_encoding
      then static (size_in_bytes t) (is_zero_copy c.int_encoding c.byte_order)
      else dynamic

  unfoldable pub int_size_of : IntType → ℕ → Outcome WriteError ℕ
  int_size_of u8 val = ok 1
  int_size_of (wide t) val = ok (IntEncoding.size_of c.int_encoding t val)

  unfoldable pub int_write : IntType → ℕ → Write
  int_write u8 val = write (val ∷ [])
  int_write (wide t) val = IntEncoding.encode c.int_encoding c.byte_order t val

  unfoldable pub int_read : IntType → Read ℕ
  int_read u8 = take_byte
  int_read (wide t) = IntEncoding.decode c.int_encoding c.byte_order t
