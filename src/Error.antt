-- ===== src/Error.antt =====
-- wincode/src/error.rs, and the error types of wincode/src/io/mod.rs.
use wincode.Prelude.{ℕ}

-- Type names and fixed messages stay symbolic. `IoError` is std's, and is a parameter elsewhere.
pub data BorrowKind : Type 0 where
  call_site backing backing_mut : BorrowKind

-- io::ReadError, without the wrapped std::io::Error.
pub data IoReadError : Type 0 where
  read_size_limit : ℕ → IoReadError
  unsupported_borrow : BorrowKind → IoReadError

-- io::WriteError, without the wrapped std::io::Error.
pub data IoWriteError : Type 0 where
  write_size_limit : ℕ → IoWriteError

-- The types whose names the errors carry as text.
pub data TypeName : Type 0 where
  usize_max : TypeName
  unsigned signed : ℕ → TypeName

pub data Message : Type 0 where
  duration_overflow system_time_overflow non_zero short_iter before_epoch : Message
  already_borrowed poisoned_mutex poisoned_rw_lock uuid_length : Message

pub data WriteError : Type 0 where
  io : IoWriteError → WriteError
  invalid_utf8_encoding : WriteError
  length_encoding_overflow : TypeName → WriteError
  preallocation_size_limit : ℕ → ℕ → WriteError
  tag_encoding_overflow : TypeName → WriteError
  custom : Message → WriteError

pub data ReadError : Type 0 where
  io : IoReadError → ReadError
  invalid_utf8_encoding : ReadError
  invalid_utf8_code : ℕ → ReadError
  pointer_sized_read_error : ReadError
  preallocation_size_limit : ℕ → ℕ → ReadError
  invalid_tag_encoding : ℕ → ReadError
  invalid_bool_encoding : ℕ → ReadError
  length_encoding_overflow : TypeName → ReadError
  invalid_value : Message → ReadError
  invalid_char_lead : ℕ → ReadError
  trailing_bytes : ReadError
  custom : Message → ReadError
  unaligned_pointer_read : ReadError
  tag_encoding_overflow : TypeName → ReadError

pub record PreallocationError : Type 0 where
  pub needed : ℕ
  pub limit : ℕ

pub record TagEncodingOverflow : Type 0 where
  pub encoding : TypeName

-- The `From` conversions that `?` applies.
abbrev pub read_error : PreallocationError → ReadError
read_error e = ReadError.preallocation_size_limit e.needed e.limit

abbrev pub write_error : PreallocationError → WriteError
write_error e = WriteError.preallocation_size_limit e.needed e.limit

abbrev pub tag_read_error : TagEncodingOverflow → ReadError
tag_read_error e = ReadError.tag_encoding_overflow e.encoding

abbrev pub tag_write_error : TagEncodingOverflow → WriteError
tag_write_error e = WriteError.tag_encoding_overflow e.encoding

-- `read_size_limit` and `write_size_limit`, wrapped as `?` wraps them.
abbrev pub size_limit_read : ℕ → ReadError
size_limit_read len = ReadError.io (read_size_limit len)

abbrev pub size_limit_write : ℕ → WriteError
size_limit_write len = WriteError.io (write_size_limit len)
