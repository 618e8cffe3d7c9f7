-- ===== src/Impls/Scalars.antt =====
-- The unsigned integers, `bool` and `()` of wincode/src/schema/impls.rs as schemas.
pub mod Laws
use wincode.Prelude.{ℕ, Bool, true, false, none, some, List, [], ◌∷◌, ok, if◌then◌else◌, ◌==◌}
use wincode.Error.{ReadError}
use wincode.Reader.{Read, pure, raise, ◌>>=◌, take_byte}
use wincode.Writer.{write, done}
use wincode.TypeMeta.{static}
use wincode.IntEncoding.{to_le_bytes, from_le_bytes}
use wincode.Config.{Configuration, IntType}
use wincode.Schema.{Schema}
use wincode.Ints.{size_of_type, int_meta, int_size_of, int_write, int_read}

-- The memory of a little-endian platform.
unfoldable pub int_schema : Configuration → IntType → Schema ℕ
int_schema c t = record {
  write_meta = int_meta c t;
  read_meta = int_meta c t;
  mem_size = size_of_type t;
  to_memory = some (to_le_bytes (size_of_type t));
  from_memory = some from_le_bytes;
  size_of = int_size_of c t;
  write = int_write c t;
  get = int_read c t;
}

unfoldable pub bool_byte : Bool → ℕ
bool_byte true = 1
bool_byte false = 0

-- `match byte` in the read of `bool`
unfoldable pub bool_from_byte : ℕ → Read Bool
bool_from_byte byte =
    if byte == 0
    then pure false
    else if byte == 1
    then pure true
    else raise (ReadError.invalid_bool_encoding byte)

-- Only the writing side is plain memory.
unfoldable pub bool_schema : Schema Bool
bool_schema = record {
  write_meta = static 1 true;
  read_meta = static 1 false;
  mem_size = 1;
  to_memory = some (λ b. bool_byte b ∷ []);
  from_memory = none;
  size_of = λ b. ok 1;
  write = λ b. write (bool_byte b ∷ []);
  get = (do byte ← take_byte; bool_from_byte byte);
}

unfoldable pub unit_schema : Schema {0} Unit
unit_schema = record {
  write_meta = static 0 true;
  read_meta = static 0 true;
  mem_size = 0;
  to_memory = some (λ u. []);
  from_memory = some (λ bytes. tt);
  size_of = λ u. ok 0;
  write = λ u. done;
  get = pure tt;
}
