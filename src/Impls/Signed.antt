-- ===== src/Impls/Signed.antt =====
-- The schemas of the signed integers in wincode/src/schema/impls.rs: `impl_int_config_dependent!` for
-- the wider ones and `impl_byte!` for `i8`. A type is named by its size, as the unsigned one is.
pub mod Laws
use wincode.Prelude.{ℕ, ℤ, some, List, [], ◌∷◌, Outcome, ok}
use wincode.Error.{WriteError}
use wincode.Reader.{Read, pure, ◌>>=◌, take_byte}
use wincode.Writer.{Write, write}
use wincode.IntEncoding.{
  IntEncoding, fix_int, var_int, Endian, UInt, size_in_bytes, to_le_bytes, from_le_bytes,
  as_unsigned, as_signed, fix_encode_signed, fix_decode_signed, fix_size_of, varint_encode_signed,
  varint_decode_signed, varint_size_of_signed,
}
use wincode.Config.{Configuration, IntType, u8, wide}
use wincode.Ints.{size_of_type, int_meta}
use wincode.Schema.{Schema}

unfoldable pub encode_signed : IntEncoding → Endian → UInt → ℤ → Write
encode_signed fix_int e t val = fix_encode_signed e (size_in_bytes t) val
encode_signed var_int e t val = varint_encode_signed e t val

unfoldable pub decode_signed : IntEncoding → Endian → UInt → Read ℤ
decode_signed fix_int e t = fix_decode_signed e (size_in_bytes t)
decode_signed var_int e t = varint_decode_signed e t

unfoldable pub size_of_signed : IntEncoding → UInt → ℤ → ℕ
size_of_signed fix_int t val = fix_size_of (size_in_bytes t) (as_unsigned (size_in_bytes t) val)
size_of_signed var_int t val = varint_size_of_signed t val

module _ (c : Configuration) where
  unfoldable pub signed_size_of : IntType → ℤ → Outcome WriteError ℕ
  signed_size_of u8 val = ok 1
  signed_size_of (wide t) val = ok (size_of_signed c.int_encoding t val)

  unfoldable pub signed_write : IntType → ℤ → Write
  signed_write u8 val = write (as_unsigned 1 val ∷ [])
  signed_write (wide t) val = encode_signed c.int_encoding c.byte_order t val

  unfoldable pub signed_read : IntType → Read ℤ
  signed_read u8 = do byte ← take_byte; pure (as_signed 1 byte)
  signed_read (wide t) = decode_signed c.int_encoding c.byte_order t

  unfoldable pub signed_schema : IntType → Schema ℤ
  signed_schema t = record {
    write_meta = int_meta c t;
    read_meta = int_meta c t;
    mem_size = size_of_type t;
    to_memory = some (λ val. to_le_bytes (size_of_type t) (as_unsigned (size_of_type t) val));
    from_memory = some (λ bytes. as_signed (size_of_type t) (from_le_bytes bytes));
    size_of = signed_size_of t;
    write = signed_write t;
    get = signed_read t;
  }
