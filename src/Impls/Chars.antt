-- ===== src/Impls/Chars.antt =====
-- `char` of wincode/src/schema/impls.rs, by its code point. The decoder is written out there;
-- `encode_utf8` and `from_u32` are the standard library's, and `is_utf8` is the test of
-- `core::str::from_utf8`.
pub mod Utf8
pub mod Laws
pub mod Canonical
use wincode.Prelude.{
  ℕ, ◌+◌, ◌*◌, ◌/◌, ◌%◌, Bool, ◌&&◌, ◌||◌, not, none, List, [], ◌∷◌, length, drop, leb, ltb, ◌==◌,
  if◌then◌else◌, ok, fault,
}
use wincode.Error.{ReadError}
use wincode.Reader.{Read, pure, raise, ◌>>=◌, head_or_zero, take_byte, take_array}
use wincode.Writer.{write}
use wincode.TypeMeta.{dynamic}
use wincode.Schema.{Schema}

-- The code points of `char`: no surrogate, and at most U+10FFFF.
unfoldable pub is_scalar : ℕ → Bool
is_scalar n = ltb n 55296 || (leb 57344 n && leb n 1114111)

-- `char::encode_utf8`
unfoldable pub encode_utf8 : ℕ → List ℕ
encode_utf8 n =
    if ltb n 128
    then n ∷ []
    else if ltb n 2048
    then (192 + n / 64) ∷ (128 + n % 64) ∷ []
    else if ltb n 65536
    then (224 + n / 4096) ∷ (128 + n / 64 % 64) ∷ (128 + n % 64) ∷ []
    else (240 + n / 262144) ∷ (128 + n / 4096 % 64) ∷ (128 + n / 64 % 64) ∷ (128 + n % 64) ∷ []

-- `b & 0xC0 == 0x80`
unfoldable pub continuation : ℕ → Bool
continuation b = (b / 64) == 2

unfoldable pub within : ℕ → ℕ → ℕ → Bool
within low high b = leb low b && leb b high

-- The bytes of an array that was read.
abbrev pub byte_at : ℕ → List ℕ → ℕ
byte_at i bytes = head_or_zero (drop i bytes)

-- `char::from_u32(code_point).ok_or(..)?`
unfoldable pub from_code_point : ℕ → Read ℕ
from_code_point n = if is_scalar n then pure n else raise (ReadError.invalid_utf8_code n)

-- The tests of the overlong and surrogate ranges.
unfoldable pub bad_three : ℕ → ℕ → Bool
bad_three b0 b1 = ((b0 == 224) && ltb b1 160) || ((b0 == 237) && leb 160 b1)

unfoldable pub bad_four : ℕ → ℕ → Bool
bad_four b0 b1 = ((b0 == 240) && ltb b1 144) || ((b0 == 244) && ltb 143 b1)

module _ (is_utf8 : List ℕ → Bool) where
  -- `utf8_error`: `unwrap_err` panics when the bytes are well-formed after all.
  unfoldable pub utf8_error : List ℕ → Read ℕ
  utf8_error buf r = if is_utf8 buf then (fault, r) else raise ReadError.invalid_utf8_encoding r

  -- The masks and shifts keep the low bits of each byte.
  unfoldable pub decode_two : ℕ → ℕ → Read ℕ
  decode_two b0 b1 =
      if not (continuation b1)
      then utf8_error (b0 ∷ b1 ∷ [])
      else from_code_point ((b0 % 32) * 64 + b1 % 64)

  unfoldable pub decode_three : ℕ → ℕ → ℕ → Read ℕ
  decode_three b0 b1 b2 =
      if not (continuation b1) || not (continuation b2)
      then utf8_error (b0 ∷ b1 ∷ b2 ∷ [])
      else if bad_three b0 b1
      then utf8_error (b0 ∷ b1 ∷ b2 ∷ [])
      else from_code_point ((b0 % 16) * 4096 + (b1 % 64) * 64 + b2 % 64)

  unfoldable pub decode_four : ℕ → ℕ → ℕ → ℕ → Read ℕ
  decode_four b0 b1 b2 b3 =
      if not (continuation b1) || (not (continuation b2) || not (continuation b3))
      then utf8_error (b0 ∷ b1 ∷ b2 ∷ b3 ∷ [])
      else if bad_four b0 b1
      then utf8_error (b0 ∷ b1 ∷ b2 ∷ b3 ∷ [])
      else from_code_point ((b0 % 8) * 262144 + (b1 % 64) * 4096 + (b2 % 64) * 64 + b3 % 64)

  -- `match b0`
  unfoldable pub char_from_lead : ℕ → Read ℕ
  char_from_lead b0 =
      if leb b0 127
      then pure b0
      else if within 194 223 b0
      then take_byte >>= decode_two b0
      else if within 224 239 b0
      then take_array 2 >>= (λ bs. decode_three b0 (byte_at 0 bs) (byte_at 1 bs))
      else if within 240 244 b0
      then take_array 3 >>= (λ bs. decode_four b0 (byte_at 0 bs) (byte_at 1 bs) (byte_at 2 bs))
      else raise (ReadError.invalid_char_lead b0)

  unfoldable pub char_read : Read ℕ
  char_read = do b0 ← take_byte; char_from_lead b0

  unfoldable pub char_schema : Schema ℕ
  char_schema = record {
    write_meta = dynamic;
    read_meta = dynamic;
    mem_size = 4;
    to_memory = none;
    from_memory = none;
    size_of = λ n. ok (length (encode_utf8 n));
    write = λ n. write (encode_utf8 n);
    get = char_read;
  }
