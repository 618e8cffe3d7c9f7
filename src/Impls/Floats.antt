-- ===== src/Impls/Floats.antt =====
-- `impl_float!` of wincode/src/schema/impls.rs: `f32` and `f64`, by the bits of the value.
pub mod Laws
use wincode.Prelude.{ℕ, Bool, true, false, some, ok}
use wincode.Reader.{◌>>=◌, pure, take_array}
use wincode.Writer.{write}
use wincode.TypeMeta.{static}
use wincode.IntEncoding.{Endian, little, big, to_bytes, from_bytes, to_le_bytes, from_le_bytes}
use wincode.Config.{Configuration}
use wincode.Schema.{Schema}

-- `matches!(C::ByteOrder::ENDIAN, Endian::Little)`
unfoldable pub matches_little : Endian → Bool
matches_little little = true
matches_little big = false

-- The type of `size` bytes on a little-endian platform. The integer encoding plays no part.
unfoldable pub float_schema : Configuration → ℕ → Schema ℕ
float_schema c size = record {
  write_meta = static size (matches_little c.byte_order);
  read_meta = static size (matches_little c.byte_order);
  mem_size = size;
  to_memory = some (to_le_bytes size);
  from_memory = some from_le_bytes;
  size_of = λ bits. ok size;
  write = λ bits. write (to_bytes c.byte_order size bits);
  get = (do bytes ← take_array size; pure (from_bytes c.byte_order bytes));
}
