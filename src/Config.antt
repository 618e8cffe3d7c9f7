-- ===== src/Config.antt =====
-- wincode/src/config/mod.rs: the configuration and its builder. The choices that the program makes
-- with type parameters are fields here. Lengths and tags are encoded with an unsigned type.
use wincode.Prelude.{
  ℕ, ◌*◌, ◌^◌, Bool, true, false, Option, none, some, ◌==◌, if◌then◌else◌, max_usize,
}
use wincode.IntEncoding.{Endian, big, little, IntEncoding, fix_int, var_int, UInt, u32, u64}

-- The unsigned integer types.
pub data IntType : Type 0 where
  u8 : IntType
  wide : UInt → IntType

-- `UseIntLen<T, LIMIT>`, `FixIntLen<T, LIMIT>`, and a primitive used as a length encoding.
pub data LengthEncoding : Type 0 where
  use_int_len fix_int_len : IntType → ℕ → LengthEncoding
  primitive : IntType → LengthEncoding

-- `BincodeLen`
abbrev pub bincode_len : ℕ → LengthEncoding
bincode_len limit = use_int_len (wide u64) limit

pub record Configuration : Type 0 where
  pub zero_copy_align_check : Bool
  pub preallocation_limit_const : ℕ
  pub length_encoding : LengthEncoding
  pub byte_order : Endian
  pub int_encoding : IntEncoding
  pub tag_encoding : IntType
  pub deserialization_limit_const : ℕ

abbrev pub default_preallocation_size_limit : ℕ
default_preallocation_size_limit = 4 * 2 ^ 20

abbrev pub size_limit_disabled : ℕ
size_limit_disabled = max_usize

abbrev pub use_config : ℕ
use_config = 0

abbrev pub default_config : Configuration
default_config = record {
  zero_copy_align_check = true;
  preallocation_limit_const = default_preallocation_size_limit;
  length_encoding = bincode_len use_config;
  byte_order = little;
  int_encoding = fix_int;
  tag_encoding = wide u32;
  deserialization_limit_const = size_limit_disabled;
}

module _ (c : Configuration) where
  unfoldable pub with_length_encoding : LengthEncoding → Configuration
  with_length_encoding l = record c { length_encoding = l }

  unfoldable pub with_big_endian : Configuration
  with_big_endian = record c { byte_order = big }

  unfoldable pub with_little_endian : Configuration
  with_little_endian = record c { byte_order = little }

  -- On a little-endian platform.
  unfoldable pub with_platform_endian : Configuration
  with_platform_endian = record c { byte_order = little }

  unfoldable pub with_fixint_encoding : Configuration
  with_fixint_encoding = record c { int_encoding = fix_int }

  unfoldable pub with_varint_encoding : Configuration
  with_varint_encoding = record c { int_encoding = var_int }

  unfoldable pub with_int_encoding : IntEncoding → Configuration
  with_int_encoding i = record c { int_encoding = i }

  unfoldable pub enable_zero_copy_align_check : Configuration
  enable_zero_copy_align_check = record c { zero_copy_align_check = true }

  unfoldable pub disable_zero_copy_align_check : Configuration
  disable_zero_copy_align_check = record c { zero_copy_align_check = false }

  unfoldable pub with_preallocation_size_limit : ℕ → Configuration
  with_preallocation_size_limit limit = record c { preallocation_limit_const = limit }

  unfoldable pub disable_preallocation_size_limit : Configuration
  disable_preallocation_size_limit = record c { preallocation_limit_const = size_limit_disabled }

  unfoldable pub with_tag_encoding : IntType → Configuration
  with_tag_encoding t = record c { tag_encoding = t }

  unfoldable pub with_deserialization_size_limit : ℕ → Configuration
  with_deserialization_size_limit limit = record c { deserialization_limit_const = limit }

  unfoldable pub disable_deserialization_size_limit : Configuration
  disable_deserialization_size_limit = record c {
    deserialization_limit_const = size_limit_disabled;
  }

  -- The constants of `ConfigCore`: `usize::MAX` stands for no limit.
  unfoldable pub preallocation_size_limit : Option ℕ
  preallocation_size_limit =
      if c.preallocation_limit_const == size_limit_disabled
      then none
      else some c.preallocation_limit_const

  unfoldable pub deserialization_size_limit : Option ℕ
  deserialization_size_limit =
      if c.deserialization_limit_const == size_limit_disabled
      then none
      else some c.deserialization_limit_const
