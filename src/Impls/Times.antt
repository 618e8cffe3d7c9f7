-- ===== src/Impls/Times.antt =====
-- `SystemTime` of wincode/src/schema/impls.rs, as the `Duration` since the epoch.
pub mod Laws
use wincode.Prelude.{ℕ, Option, none, some, Outcome, err}
use wincode.Error.{ReadError, WriteError, before_epoch, system_time_overflow}
use wincode.Reader.{Read, pure, raise, ◌>>=◌}
use wincode.Writer.{Write, refuse}
use wincode.Config.{Configuration}
use wincode.Schema.{Schema}
use wincode.Impls.Durations.{duration_schema}

-- `duration_since(UNIX_EPOCH)`, none before the epoch, and `UNIX_EPOCH.checked_add`.
pub record Clock (Time : Type 0) : Type 0 where
  pub duration_since : Time → Option (ℕ × ℕ)
  pub checked_add : ℕ × ℕ → Option Time

module _ {Time : Type 0} (clock : Clock Time) (c : Configuration) where
  abbrev pub duration_of : ℕ → Schema (ℕ × ℕ)
  duration_of duration_size = duration_schema c duration_size

  unfoldable pub time_size_of : Option (ℕ × ℕ) → Outcome WriteError ℕ
  time_size_of none = err (WriteError.custom before_epoch)
  time_size_of (some duration) = (duration_of 16).size_of duration

  unfoldable pub time_write : Option (ℕ × ℕ) → Write
  time_write none = refuse (WriteError.custom before_epoch)
  time_write (some duration) = (duration_of 16).write duration

  unfoldable pub time_from : Option Time → Read Time
  time_from none = raise (ReadError.invalid_value system_time_overflow)
  time_from (some time) = pure time

  unfoldable pub time_schema : ℕ → Schema Time
  time_schema size_in_memory = record {
    write_meta = (duration_of 16).write_meta;
    read_meta = (duration_of 16).read_meta;
    mem_size = size_in_memory;
    to_memory = none;
    from_memory = none;
    size_of = λ t. time_size_of (clock.duration_since t);
    write = λ t. time_write (clock.duration_since t);
    get = (do duration ← (duration_of 16).get; time_from (clock.checked_add duration));
  }
