-- ===== src/SeqLen.antt =====
-- wincode/src/len.rs: the length encodings of sequences. A length is a `usize`.
pub mod Laws
pub mod Limits
use wincode.Prelude.{
  ℕ, ◌+◌, ◌*◌, ◌-◌, ◌^◌, min, max, Bool, true, false, Option, none, some, Outcome, ok, err, bind,
  leb, ltb, ◌==◌, if◌then◌else◌, max_usize, checked_mul,
}
use wincode.Error.{
  ReadError, WriteError, pointer_sized_read_error, PreallocationError, read_error, write_error,
  unsigned,
}
use wincode.Reader.{Read, pure, raise, ◌>>=◌, take_array}
use wincode.Writer.{Write, ◌▸◌, refuse, write}
use wincode.IntEncoding.{to_bytes, from_bytes, max_of}
use wincode.TypeMeta.{TypeMeta, static, dynamic}
use wincode.Config.{
  Configuration, IntType, LengthEncoding, use_int_len, fix_int_len, primitive, use_config,
  size_limit_disabled, preallocation_size_limit,
}
use wincode.Ints.{size_of_type, int_meta, int_size_of, int_write, int_read}

pub data PreallocationLimitOverride : Type 0 where
  from_config no_limit : PreallocationLimitOverride
  override_limit : ℕ → PreallocationLimitOverride

unfoldable pub to_opt_limit_with_config : Configuration → PreallocationLimitOverride → Option ℕ
to_opt_limit_with_config c from_config = preallocation_size_limit c
to_opt_limit_with_config c no_limit = none
to_opt_limit_with_config c (override_limit limit) = some limit

unfoldable pub from_usize : ℕ → PreallocationLimitOverride
from_usize limit =
    if limit == use_config
    then from_config
    else if limit == size_limit_disabled
    then no_limit
    else override_limit limit

-- `SeqLen::PREALLOCATION_SIZE_LIMIT_OVERRIDE`
unfoldable pub limit_override : LengthEncoding → PreallocationLimitOverride
limit_override (use_int_len t limit) = from_usize limit
limit_override (fix_int_len t limit) = from_usize limit
limit_override (primitive t) = from_config

-- The inner `check` of `prealloc_check`.
unfoldable pub check_limit : ℕ → ℕ → ℕ → Option PreallocationError
check_limit len type_size limit = elim (checked_mul len type_size) [
  | none ↦ some (record { needed = max_usize; limit = limit })
  | some needed ↦
      if ltb limit needed then some (record { needed = needed; limit = limit }) else none
]

-- The integer type of a length encoding.
unfoldable pub len_type : LengthEncoding → IntType
len_type (use_int_len t limit) = t
len_type (fix_int_len t limit) = t
len_type (primitive t) = t

-- `usize::try_from(len)` and its error.
unfoldable pub to_usize : ℕ → Read ℕ
to_usize len = if leb len max_usize then pure len else raise pointer_sized_read_error

-- `T::Src::try_from(len)`
unfoldable pub try_from : IntType → ℕ → Outcome WriteError ℕ
try_from t len =
    if leb len (max_of (size_of_type t))
    then ok len
    else err (WriteError.length_encoding_overflow (unsigned (size_of_type t)))

unfoldable pub unique_key_capacity : ℕ → ℕ → ℕ
unique_key_capacity size_of_key len =
    if leb size_of_key (2 ^ 32 - 1)
    then (if leb (size_of_key * 8) (2 ^ 32 - 1)
        then (if ltb (size_of_key * 8) 64 then min len (2 ^ (size_of_key * 8)) else len)
        else len)
    else len

module _ (c : Configuration) (l : LengthEncoding) where
  -- The error of `prealloc_check::<T>`, by the size of `T` in memory.
  unfoldable pub prealloc_check : ℕ → ℕ → Option PreallocationError
  prealloc_check mem_size len = elim (to_opt_limit_with_config c (limit_override l)) [
    | none ↦ none
    | some limit ↦ check_limit len (max mem_size 1) limit
  ]

module _ (c : Configuration) where
  unfoldable pub read : LengthEncoding → Read ℕ
  read (use_int_len t limit) = do len ← int_read c t; to_usize len
  read (primitive t) = do len ← int_read c t; to_usize len
  read (fix_int_len t limit) = do
    bytes ← take_array (size_of_type t)
    to_usize (from_bytes c.byte_order bytes)

  unfoldable pub write_len : LengthEncoding → ℕ → Write
  write_len (use_int_len t limit) len w = bind (try_from t len) (λ n. int_write c t n w)
  write_len (primitive t) len w = bind (try_from t len) (λ n. int_write c t n w)
  write_len (fix_int_len t limit) len w =
      bind (try_from t len) (λ n. write (to_bytes c.byte_order (size_of_type t) n) w)

  unfoldable pub needed_by_meta : TypeMeta → IntType → ℕ → Outcome WriteError ℕ
  needed_by_meta (static size zero_copy) t len = ok size
  needed_by_meta dynamic t len = bind (try_from t len) (int_size_of c t)

  unfoldable pub write_bytes_needed : LengthEncoding → ℕ → Outcome WriteError ℕ
  write_bytes_needed (use_int_len t limit) len = needed_by_meta (int_meta c t) t len
  write_bytes_needed (primitive t) len = needed_by_meta (int_meta c t) t len
  write_bytes_needed (fix_int_len t limit) len = ok (size_of_type t)

-- `prealloc_check(len)?; Ok(len)`
abbrev pub continue_checked : Option PreallocationError → ℕ → Read ℕ
continue_checked none len = pure len
continue_checked (some e) len = raise (read_error e)

module _ (c : Configuration) (l : LengthEncoding) where
  unfoldable pub read_prealloc_check : ℕ → Read ℕ
  read_prealloc_check mem_size = do
    len ← read c l
    continue_checked (prealloc_check c l mem_size len) len

  unfoldable pub write_bytes_needed_prealloc_check : ℕ → ℕ → Outcome WriteError ℕ
  write_bytes_needed_prealloc_check mem_size len = elim (prealloc_check c l mem_size len) [
    | some e ↦ err (write_error e)
    | none ↦ write_bytes_needed c l len
  ]
