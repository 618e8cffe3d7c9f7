-- ===== src/Impls/Durations.antt =====
-- `Duration` of wincode/src/schema/impls.rs: seconds and nanoseconds below one second.
pub mod Laws
use wincode.Prelude.{
  ℕ, ◌+◌, ◌-◌, ◌/◌, ◌%◌, ◌^◌, false, none, Outcome, ok, bind, wrapping_add, leb, if◌then◌else◌,
}
use wincode.Error.{ReadError, WriteError, duration_overflow}
use wincode.Reader.{Read, pure, raise, ◌>>=◌}
use wincode.Writer.{Write, ◌▸◌}
use wincode.IntEncoding.{u32, u64}
use wincode.TypeMeta.{TypeMeta, static, dynamic}
use wincode.Config.{Configuration, wide}
use wincode.Ints.{int_meta, int_size_of, int_write, int_read}
use wincode.Schema.{Schema}

abbrev pub nanos_per_sec : ℕ
nanos_per_sec = 1000000000

-- `Duration::new`, which carries whole seconds over.
unfoldable pub duration_new : ℕ → ℕ → ℕ × ℕ
duration_new secs nanos = (secs + nanos / nanos_per_sec, nanos % nanos_per_sec)

-- The end of the read: `Duration::new` would panic on an overflow of the seconds.
unfoldable pub check_duration : ℕ → ℕ → Read (ℕ × ℕ)
check_duration secs nanos =
    if leb (secs + nanos / nanos_per_sec) (2 ^ 64 - 1)
    then pure (duration_new secs nanos)
    else raise (ReadError.invalid_value duration_overflow)

unfoldable pub duration_meta : TypeMeta → TypeMeta → TypeMeta
duration_meta (static u64_size x) (static u32_size y) = static (u64_size + u32_size) false
duration_meta (static u64_size x) dynamic = dynamic
duration_meta dynamic b = dynamic

module _ (c : Configuration) where
  unfoldable pub duration_size_by_meta : TypeMeta → ℕ × ℕ → Outcome WriteError ℕ
  duration_size_by_meta (static size z) src = ok size
  duration_size_by_meta dynamic (secs, nanos) =
      bind (int_size_of c (wide u64) secs)
        (λ n. bind (int_size_of c (wide u32) nanos) (λ k. ok (wrapping_add n k)))

  unfoldable pub duration_write : ℕ × ℕ → Write
  duration_write (secs, nanos) = int_write c (wide u64) secs ▸ int_write c (wide u32) nanos

  unfoldable pub duration_schema : ℕ → Schema (ℕ × ℕ)
  duration_schema size_in_memory = record {
    write_meta = duration_meta (int_meta c (wide u64)) (int_meta c (wide u32));
    read_meta = duration_meta (int_meta c (wide u64)) (int_meta c (wide u32));
    mem_size = size_in_memory;
    to_memory = none;
    from_memory = none;
    size_of = duration_size_by_meta (duration_meta (int_meta c (wide u64)) (int_meta c (wide u32)));
    write = duration_write;
    get = (do
      secs ← int_read c (wide u64)
      nanos ← int_read c (wide u32)
      check_duration secs nanos);
  }
