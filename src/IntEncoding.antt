-- ===== src/IntEncoding.antt =====
-- wincode/src/schema/int_encoding.rs: byte orders, `FixInt` and `VarInt`. An unsigned integer of
-- `size` bytes is a natural number below `256 ^ size`; a signed one is an integer.
pub mod Bytes
pub mod Signed
pub mod Format
pub mod RoundTrip
pub mod Errors
use wincode.Prelude.{
  ℕ, zero, suc, ◌+◌, ◌-◌, ◌*◌, ◌/◌, ◌%◌, ◌^◌, Bool, true, false, List, [], ◌∷◌, reverse, leb, ltb,
  ◌==◌, if◌then◌else◌, ℤ, pos, negsuc,
}
use wincode.Error.{ReadError}
use wincode.Reader.{Read, pure, raise, ◌>>=◌, take_array, take_byte}
use wincode.Writer.{Write, ◌▸◌, write, finish, as_trusted_for}

pub data Endian : Type 0 where
  big little : Endian

-- Rust's `to_le_bytes`, `to_be_bytes` and their inverses, at a size in bytes.
unfoldable pub to_le_bytes : ℕ → ℕ → List ℕ
to_le_bytes zero v = []
to_le_bytes (suc size) v = v % 256 ∷ to_le_bytes size (v / 256)

unfoldable pub from_le_bytes : List ℕ → ℕ
from_le_bytes [] = 0
from_le_bytes (b ∷ bs) = b + 256 * from_le_bytes bs

unfoldable pub to_bytes : Endian → ℕ → ℕ → List ℕ
to_bytes big size v = reverse (to_le_bytes size v)
to_bytes little size v = to_le_bytes size v

unfoldable pub from_bytes : Endian → List ℕ → ℕ
from_bytes big bs = from_le_bytes (reverse bs)
from_bytes little bs = from_le_bytes bs

-- `impl_fix_int!`
pub fix_encode : Endian → ℕ → ℕ → Write
fix_encode e size val = write (to_bytes e size val)

pub fix_decode : Endian → ℕ → Read ℕ
fix_decode e size = do bytes ← take_array size; pure (from_bytes e bytes)

pub fix_size_of : ℕ → ℕ → ℕ
fix_size_of size val = size

abbrev pub single_byte_max : ℕ
single_byte_max = 250

abbrev pub u16_byte : ℕ
u16_byte = 251

abbrev pub u32_byte : ℕ
u32_byte = 252

abbrev pub u64_byte : ℕ
u64_byte = 253

abbrev pub u128_byte : ℕ
u128_byte = 254

-- The largest value of an unsigned type of `size` bytes.
abbrev pub max_of : ℕ → ℕ
max_of size = 256 ^ size - 1

-- A tag and its payload in a trusted window; `val as $cast` truncates.
pub encode_tagged : Endian → ℕ → ℕ → ℕ → Write
encode_tagged e tag size val =
    as_trusted_for (size + 1)
      (write (tag ∷ []) ▸ write (to_bytes e size (val % 256 ^ size)) ▸ finish)

-- `varint_encode_unsigned_impl!`: the first cast that holds the value; the last one is not tested.
pub encode_by_tags : Endian → List (ℕ × ℕ) → ℕ → Write
encode_by_tags e [] val = finish
encode_by_tags e ((tag, size) ∷ []) val = encode_tagged e tag size val
encode_by_tags e ((tag, size) ∷ next ∷ rest) val =
    if leb val (max_of size)
    then encode_tagged e tag size val
    else encode_by_tags e (next ∷ rest) val

-- `varint_encode_unsigned!`
pub encode_unsigned : Endian → List (ℕ × ℕ) → ℕ → Write
encode_unsigned e tags val =
    if leb val single_byte_max then write (val % 256 ∷ []) else encode_by_tags e tags val

-- The unsigned integers wider than a byte, by their sizes.
pub data UInt : Type 0 where
  u16 u32 u64 u128 : UInt

abbrev pub size_in_bytes : UInt → ℕ
size_in_bytes u16 = 2
size_in_bytes u32 = 4
size_in_bytes u64 = 8
size_in_bytes u128 = 16

abbrev pub tags_of : UInt → List (ℕ × ℕ)
tags_of u16 = (u16_byte, 2) ∷ []
tags_of u32 = (u16_byte, 2) ∷ (u32_byte, 4) ∷ []
tags_of u64 = (u16_byte, 2) ∷ (u32_byte, 4) ∷ (u64_byte, 8) ∷ []
tags_of u128 = (u16_byte, 2) ∷ (u32_byte, 4) ∷ (u64_byte, 8) ∷ (u128_byte, 16) ∷ []

-- `VarInt::encode_u16` to `VarInt::encode_u128`
pub varint_encode : Endian → UInt → ℕ → Write
varint_encode e t val = encode_unsigned e (tags_of t) val

-- `try_from_endian_bytes!`; the cast to a wider type keeps the value.
pub endian_bytes : Endian → ℕ → Read ℕ
endian_bytes e size = do ar ← take_array size; pure (from_bytes e ar)

-- What `VarInt::decode_u16` to `VarInt::decode_u128` do with the first byte.
pub decode_tag : Endian → UInt → ℕ → Read ℕ
decode_tag e u16 byte =
    if leb byte single_byte_max
    then pure byte
    else if byte == u16_byte
    then endian_bytes e 2
    else raise (ReadError.invalid_tag_encoding byte)
decode_tag e u32 byte =
    if leb byte single_byte_max
    then pure byte
    else if byte == u16_byte
    then endian_bytes e 2
    else if byte == u32_byte
    then endian_bytes e 4
    else raise (ReadError.invalid_tag_encoding byte)
decode_tag e u64 byte =
    if leb byte single_byte_max
    then pure byte
    else if byte == u16_byte
    then endian_bytes e 2
    else if byte == u32_byte
    then endian_bytes e 4
    else if byte == u64_byte
    then endian_bytes e 8
    else raise (ReadError.invalid_tag_encoding byte)
decode_tag e u128 byte =
    if leb byte single_byte_max
    then pure byte
    else if byte == u16_byte
    then endian_bytes e 2
    else if byte == u32_byte
    then endian_bytes e 4
    else if byte == u64_byte
    then endian_bytes e 8
    else if byte == u128_byte
    then endian_bytes e 16
    else raise (ReadError.invalid_tag_encoding byte)

pub varint_decode : Endian → UInt → Read ℕ
varint_decode e t = do byte ← take_byte; decode_tag e t byte

-- `VarInt::size_of_u16` to `VarInt::size_of_u128`
pub varint_size_of : UInt → ℕ → ℕ
varint_size_of u16 val = if leb val single_byte_max then 1 else 3
varint_size_of u32 val = if leb val single_byte_max then 1 else if leb val (max_of 2) then 3 else 5
varint_size_of u64 val =
    if leb val single_byte_max
    then 1
    else if leb val (max_of 2)
    then 3
    else if leb val (max_of 4)
    then 5
    else 9
varint_size_of u128 val =
    if leb val single_byte_max
    then 1
    else if leb val (max_of 2)
    then 3
    else if leb val (max_of 4)
    then 5
    else if leb val (max_of 8)
    then 9
    else 17

-- `val as $target`: two's complement at a size in bytes.
unfoldable pub as_unsigned : ℕ → ℤ → ℕ
as_unsigned size (pos n) = n % 256 ^ size
as_unsigned size (negsuc n) = (256 ^ size - 1 - n) % 256 ^ size

-- The cast back.
unfoldable pub as_signed : ℕ → ℕ → ℤ
as_signed size n = if ltb n (256 ^ size / 2) then pos n else negsuc (256 ^ size - 1 - n)

-- `!n`
abbrev pub complement : ℕ → ℕ → ℕ
complement size n = 256 ^ size - 1 - n

abbrev pub is_negative : ℤ → Bool
is_negative (pos n) = false
is_negative (negsuc n) = true

-- The map in `varint_encode_signed!` and `varint_size_of_signed!`.
unfoldable pub zigzag : ℕ → ℤ → ℕ
zigzag size val =
    if is_negative val
    then (complement size (as_unsigned size val) * 2 + 1) % 256 ^ size
    else as_unsigned size val * 2 % 256 ^ size

-- The map in `varint_decode_signed!`.
unfoldable pub unzigzag : ℕ → ℕ → ℤ
unzigzag size n =
    if n % 2 == 0 then as_signed size (n / 2) else as_signed size (complement size (n / 2))

unfoldable pub varint_encode_signed : Endian → UInt → ℤ → Write
varint_encode_signed e t val = varint_encode e t (zigzag (size_in_bytes t) val)

unfoldable pub varint_decode_signed : Endian → UInt → Read ℤ
varint_decode_signed e t = do n ← varint_decode e t; pure (unzigzag (size_in_bytes t) n)

unfoldable pub varint_size_of_signed : UInt → ℤ → ℕ
varint_size_of_signed t val = varint_size_of t (zigzag (size_in_bytes t) val)

unfoldable pub fix_encode_signed : Endian → ℕ → ℤ → Write
fix_encode_signed e size val = fix_encode e size (as_unsigned size val)

unfoldable pub fix_decode_signed : Endian → ℕ → Read ℤ
fix_decode_signed e size = do n ← fix_decode e size; pure (as_signed size n)

-- `IntEncoding`, with its constant `STATIC`; `ZERO_COPY` on a little-endian platform.
pub data IntEncoding : Type 0 where
  fix_int var_int : IntEncoding

unfoldable pub is_static : IntEncoding → Bool
is_static fix_int = true
is_static var_int = false

unfoldable pub is_zero_copy : IntEncoding → Endian → Bool
is_zero_copy fix_int little = true
is_zero_copy fix_int big = false
is_zero_copy var_int e = false

unfoldable pub encode : IntEncoding → Endian → UInt → ℕ → Write
encode fix_int e t val = fix_encode e (size_in_bytes t) val
encode var_int e t val = varint_encode e t val

unfoldable pub decode : IntEncoding → Endian → UInt → Read ℕ
decode fix_int e t = fix_decode e (size_in_bytes t)
decode var_int e t = varint_decode e t

unfoldable pub size_of : IntEncoding → UInt → ℕ → ℕ
size_of fix_int t val = fix_size_of (size_in_bytes t) val
size_of var_int t val = varint_size_of t val
