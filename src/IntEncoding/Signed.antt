-- ===== src/IntEncoding/Signed.antt =====
-- Signed integers of wincode/src/schema/int_encoding.rs: the casts and the zigzag map.
use native.Mathlib.Nat.{pow-suc, mod-eq_of_lt}
use wincode.Prelude.{
  ℕ, suc, ◌+◌, ◌-◌, ◌*◌, ◌/◌, ◌%◌, ◌^◌, ◌<◌, ◌≡◌, ◌∙◌, ℤ, pos, negsuc, length, arith, ◌⊎◌, inl, inr,
}
use wincode.IntEncoding.Format.{varint_bytes, varint_encode-Writes, varint_size_of-length}
use wincode.IntEncoding.RoundTrip.{varint_decode-Reads, fix_decode-Reads}
use wincode.Reader.Reads.{Reads, Reads-map, Reads-value}
use wincode.Writer.Writes.{Writes, Writes-write}
use wincode.IntEncoding.{
  Endian, UInt, size_in_bytes, as_unsigned, as_signed, zigzag, unzigzag, varint_encode_signed,
  varint_decode_signed, varint_size_of_signed, to_bytes, fix_encode_signed, fix_decode_signed,
  fix_encode,
}

-- The values of a signed type of `size` bytes.
abbrev pub InRange : ℕ → ℤ → Type 0
InRange size (pos n) = n < 256 ^ size / 2
InRange size (negsuc n) = n < 256 ^ size / 2

pub as_unsigned-lt : (size : ℕ) (z : ℤ) → InRange size z → as_unsigned size z < 256 ^ size
unfolding as_unsigned
as_unsigned-lt size (pos n) h = rw (mod-eq_of_lt fits) fits
  where
    fits : n < 256 ^ size
    fits = omega arith
as_unsigned-lt size (negsuc n) h = rw (mod-eq_of_lt fits) fits
  where
    fits : 256 ^ size - 1 - n < 256 ^ size
    fits = omega arith

-- Casting to unsigned and back keeps every value of the type.
pub as_signed-as_unsigned :
    (size : ℕ) (z : ℤ) → InRange size z → as_signed size (as_unsigned size z) ≡ z
unfolding as_signed as_unsigned
as_signed-as_unsigned size (pos n) h =
    let fits : n < 256 ^ size = omega arith in rw (mod-eq_of_lt fits) (ground arith)
as_signed-as_unsigned size (negsuc n) h =
    let fits : 256 ^ size - 1 - n < 256 ^ size = omega arith in
    rw (mod-eq_of_lt fits) (ground arith)

-- The map is 0, -1, 1, -2, 2, … ↦ 0, 1, 2, 3, 4, …, with no overflow.
pub zigzag-pos : (size n : ℕ) → InRange size (pos n) → zigzag size (pos n) ≡ 2 * n
unfolding zigzag as_unsigned
zigzag-pos size n h =
    let fits : n < 256 ^ size = omega arith in
    let double : n * 2 < 256 ^ size = omega arith in
    rw (mod-eq_of_lt fits) (mod-eq_of_lt double ∙ omega arith)

pub zigzag-negsuc : (size n : ℕ) → InRange size (negsuc n) → zigzag size (negsuc n) ≡ 2 * n + 1
unfolding zigzag as_unsigned
zigzag-negsuc size n h =
    let fits : 256 ^ size - 1 - n < 256 ^ size = omega arith in
    let back : 256 ^ size - 1 - (256 ^ size - 1 - n) ≡ n = omega arith in
    let double : n * 2 + 1 < 256 ^ size = omega arith in
    rw (mod-eq_of_lt fits) (rw back (mod-eq_of_lt double ∙ omega arith))

pub zigzag-lt : (size : ℕ) (z : ℤ) → InRange size z → zigzag size z < 256 ^ size
zigzag-lt size (pos n) h = omega (arith, zigzag-pos size n h)
zigzag-lt size (negsuc n) h = omega (arith, zigzag-negsuc size n h)

-- Every signed value in the range of a width is decoded from its own zigzag code.
pub unzigzag-zigzag : (size : ℕ) (z : ℤ) → InRange size z → unzigzag size (zigzag size z) ≡ z
unfolding unzigzag as_signed
unzigzag-zigzag size (pos n) h =
    let half : 2 * n / 2 ≡ n = omega arith in rw (zigzag-pos size n h) (rw half (ground arith))
unzigzag-zigzag size (negsuc n) h =
    let half : (2 * n + 1) / 2 ≡ n = omega arith in
    rw (zigzag-negsuc size n h) (rw half (ground arith))

even_case :
    (size n : ℕ)
    → n < 256 ^ suc size
    → n % 2 ≡ 0
    → (k : ℕ) × (unzigzag (suc size) n ≡ pos k) × InRange (suc size) (pos k) × (2 * k ≡ n)
unfolding unzigzag as_signed
even_case size n h e =
    let even : 256 ^ suc size ≡ 256 ^ size * 256 = pow-suc 256 size in
    (n / 2, rw e (ground (arith, even)), omega (arith, even), omega arith)

odd_case :
    (size n : ℕ)
    → n < 256 ^ suc size
    → n % 2 ≡ 1
    → (k : ℕ) × (unzigzag (suc size) n ≡ negsuc k) × InRange (suc size) (negsuc k) × (2 * k + 1 ≡ n)
unfolding unzigzag as_signed
odd_case size n h e =
    let even : 256 ^ suc size ≡ 256 ^ size * 256 = pow-suc 256 size in
    (n / 2, rw e (ground (arith, even)), omega (arith, even), omega arith)

-- Every code below the modulus of a width of at least one byte decodes to a signed value of that
-- width, and that value encodes to the same code.
pub zigzag-unzigzag :
    (size n : ℕ)
    → n < 256 ^ suc size
    → InRange (suc size) (unzigzag (suc size) n) × (zigzag (suc size) (unzigzag (suc size) n) ≡ n)
zigzag-unzigzag size n h = elim (parity n) [
  | inl e ↦ let (k, p, r, q) = even_case size n h e in rw p (r, zigzag-pos (suc size) k r ∙ q)
  | inr e ↦ let (k, p, r, q) = odd_case size n h e in rw p (r, zigzag-negsuc (suc size) k r ∙ q)
]
  where
    parity : (m : ℕ) → (m % 2 ≡ 0) ⊎ (m % 2 ≡ 1)
    parity m = grind arith

module _ (e : Endian) (t : UInt) (z : ℤ) (h : InRange (size_in_bytes t) z) where
  -- The signed encoder writes the format of the code, and the decoder reads the value back.
  pub varint_encode_signed-Writes :
      Writes (varint_encode_signed e t z) (varint_bytes e (zigzag (size_in_bytes t) z))
  unfolding varint_encode_signed
  varint_encode_signed-Writes =
      varint_encode-Writes e t (zigzag (size_in_bytes t) z) (zigzag-lt (size_in_bytes t) z h)

  -- The signed variable-length decoder of every width reads the format of the zigzag code of a
  -- value in range back as that value.
  pub varint_decode_signed-Reads :
      Reads (varint_decode_signed e t) (varint_bytes e (zigzag (size_in_bytes t) z)) z
  unfolding varint_decode_signed
  varint_decode_signed-Reads = Reads-value (unzigzag-zigzag (size_in_bytes t) z h) (
      Reads-map (unzigzag (size_in_bytes t))
        (varint_decode-Reads e t (zigzag (size_in_bytes t) z) (zigzag-lt (size_in_bytes t) z h)))

  pub varint_size_of_signed-length :
      varint_size_of_signed t z ≡ length (varint_bytes e (zigzag (size_in_bytes t) z))
  unfolding varint_size_of_signed
  varint_size_of_signed-length =
      varint_size_of-length e t (zigzag (size_in_bytes t) z) (zigzag-lt (size_in_bytes t) z h)

  pub fix_encode_signed-Writes :
      Writes
        (fix_encode_signed e (size_in_bytes t) z)
        (to_bytes e (size_in_bytes t) (as_unsigned (size_in_bytes t) z))
  unfolding fix_encode_signed fix_encode
  fix_encode_signed-Writes = Writes-write _

  pub fix_decode_signed-Reads :
      Reads
        (fix_decode_signed e (size_in_bytes t))
        (to_bytes e (size_in_bytes t) (as_unsigned (size_in_bytes t) z))
        z
  unfolding fix_decode_signed
  fix_decode_signed-Reads = Reads-value (as_signed-as_unsigned (size_in_bytes t) z h) (
      Reads-map (as_signed (size_in_bytes t)) (
        fix_decode-Reads e (size_in_bytes t) (as_unsigned (size_in_bytes t) z)
          (as_unsigned-lt (size_in_bytes t) z h)))
