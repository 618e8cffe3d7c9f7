-- ===== src/IntEncoding/Bytes.antt =====
-- The byte representations of wincode/src/schema/int_encoding.rs: length, range and round trip.
use mathlib.Core.List.{reverse-append}
use native.Mathlib.Nat.{pow-suc}
use wincode.Prelude.{
  ℕ, zero, suc, ◌/◌, ◌^◌, ◌<◌, ◌≡◌, refl, ap, ◌∙◌, List, [], ◌∷◌, reverse, reverse-reverse, length,
  length-append, All, arith,
}
use wincode.IntEncoding.{Endian, big, little, to_le_bytes, from_le_bytes, to_bytes, from_bytes}

abbrev pub IsByte : ℕ → Type 0
IsByte b = b < 256

length-reverse : (bs : List ℕ) → length (reverse bs) ≡ length bs
length-reverse [] = refl
length-reverse (b ∷ bs) =
    ap (λ l. length l) (reverse-append (b ∷ []) bs)
    ∙ omega (arith, length-append (reverse bs) (b ∷ []), length-reverse bs)

length-to_le_bytes : (size v : ℕ) → length (to_le_bytes size v) ≡ size
unfolding to_le_bytes
length-to_le_bytes zero v = refl
length-to_le_bytes (suc size) v = ap suc (length-to_le_bytes size (v / 256))

pub length-to_bytes : (e : Endian) (size v : ℕ) → length (to_bytes e size v) ≡ size
unfolding to_bytes
length-to_bytes big size v = length-reverse (to_le_bytes size v) ∙ length-to_le_bytes size v
length-to_bytes little size v = length-to_le_bytes size v

from_le_bytes-to_le_bytes : (size v : ℕ) → v < 256 ^ size → from_le_bytes (to_le_bytes size v) ≡ v
unfolding to_le_bytes from_le_bytes
from_le_bytes-to_le_bytes zero v h = omega arith
from_le_bytes-to_le_bytes (suc size) v h =
    let smaller : v / 256 < 256 ^ size = omega (arith, pow-suc 256 size) in
    omega (arith, from_le_bytes-to_le_bytes size (v / 256) smaller)

-- Reading the bytes of a value in range gives the value, in either byte order.
pub from_bytes-to_bytes :
    (e : Endian) (size v : ℕ) → v < 256 ^ size → from_bytes e (to_bytes e size v) ≡ v
unfolding to_bytes from_bytes
from_bytes-to_bytes big size v h = rw (reverse-reverse) (from_le_bytes-to_le_bytes size v h)
from_bytes-to_bytes little size v h = from_le_bytes-to_le_bytes size v h

from_le_bytes-lt : (bs : List ℕ) → All IsByte bs → from_le_bytes bs < 256 ^ length bs
unfolding from_le_bytes
from_le_bytes-lt [] h = omega arith
from_le_bytes-lt (b ∷ bs) h = omega (arith, pow-suc 256 (length bs), from_le_bytes-lt bs h.1, h.0)
