-- ===== src/Impls/Words.antt =====
-- `impl_pointer_width!` of wincode/src/schema/impls.rs: `usize`, which is encoded as a `u64`.
pub mod Laws
use wincode.Prelude.{ℕ, some}
use wincode.Reader.{◌>>=◌}
use wincode.IntEncoding.{u64, to_le_bytes, from_le_bytes}
use wincode.Config.{Configuration, wide}
use wincode.Ints.{int_meta, int_size_of, int_write, int_read}
use wincode.SeqLen.{to_usize}
use wincode.Schema.{Schema}

-- On a 64-bit platform.
unfoldable pub usize_schema : Configuration → Schema ℕ
usize_schema c = record {
  write_meta = int_meta c (wide u64);
  read_meta = int_meta c (wide u64);
  mem_size = 8;
  to_memory = some (to_le_bytes 8);
  from_memory = some from_le_bytes;
  size_of = int_size_of c (wide u64);
  write = int_write c (wide u64);
  get = (do target ← int_read c (wide u64); to_usize target);
}
