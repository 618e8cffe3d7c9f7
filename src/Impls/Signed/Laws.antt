-- ===== src/Impls/Signed/Laws.antt =====
-- The laws of the signed integers of wincode/src/schema/impls.rs as schemas.
use wincode.Prelude.{ℕ, ◌^◌, ◌<◌, ◌≡◌, refl, ap, sym, ◌∙◌, true, ℤ, List, ok, if◌then◌else◌}
use wincode.Reader.{pure, ◌>>=◌}
use wincode.Reader.Reads.{Reads-map, Reads-value}
use wincode.Reader.Safe.{SafeStatic-pure}
use wincode.TypeMeta.{static, dynamic}
use wincode.IntEncoding
use wincode.IntEncoding.{
  IntEncoding, fix_int, var_int, Endian, little, big, UInt, size_in_bytes, is_static, is_zero_copy,
  to_le_bytes, from_le_bytes, as_unsigned, as_signed, zigzag, unzigzag, fix_encode_signed,
  fix_decode_signed, varint_encode_signed, varint_decode_signed, varint_size_of_signed,
}
use wincode.IntEncoding.Signed.{
  InRange, as_unsigned-lt, as_signed-as_unsigned, zigzag-lt, unzigzag-zigzag,
}
use wincode.Config.{Configuration, IntType, u8, wide}
use wincode.Ints.{size_of_type, int_meta, int_size_of, int_write, int_read}
use wincode.Ints.Laws.{bytes_of}
use wincode.Schema.Laws.{Laws}
use wincode.Schema.Derived.{SafeFor-check}
use wincode.Impls.Scalars.{int_schema}
use wincode.Impls.Scalars.Laws.{int_schema-Laws, int_safe, int_memory, from_memory-to_memory}
use wincode.Impls.Signed.{
  encode_signed, decode_signed, size_of_signed, signed_size_of, signed_write, signed_read,
  signed_schema,
}

-- The unsigned integer that stands for a signed one, and back.
abbrev code : IntEncoding → ℕ → ℤ → ℕ
code fix_int size z = as_unsigned size z
code var_int size z = zigzag size z

abbrev uncode : IntEncoding → ℕ → ℕ → ℤ
uncode fix_int size n = as_signed size n
uncode var_int size n = unzigzag size n

code-lt : (i : IntEncoding) (size : ℕ) (z : ℤ) → InRange size z → code i size z < 256 ^ size
code-lt fix_int size z h = as_unsigned-lt size z h
code-lt var_int size z h = zigzag-lt size z h

uncode-code :
    (i : IntEncoding) (size : ℕ) (z : ℤ) → InRange size z → uncode i size (code i size z) ≡ z
uncode-code fix_int size z h = as_signed-as_unsigned size z h
uncode-code var_int size z h = unzigzag-zigzag size z h

module _ (e : Endian) (t : UInt) where
  encode_signed-encode :
      (i : IntEncoding) (z : ℤ)
      → encode_signed i e t z ≡ IntEncoding.encode i e t (code i (size_in_bytes t) z)
  unfolding encode_signed IntEncoding.encode fix_encode_signed varint_encode_signed
  encode_signed-encode fix_int z = refl
  encode_signed-encode var_int z = refl

  decode_signed-decode :
      (i : IntEncoding)
      → decode_signed i e t
        ≡ (IntEncoding.decode i e t >>= (λ n. pure (uncode i (size_in_bytes t) n)))
  unfolding decode_signed IntEncoding.decode fix_decode_signed varint_decode_signed
  decode_signed-decode fix_int = refl
  decode_signed-decode var_int = refl

  size_of_signed-size_of :
      (i : IntEncoding) (z : ℤ)
      → size_of_signed i t z ≡ IntEncoding.size_of i t (code i (size_in_bytes t) z)
  unfolding size_of_signed IntEncoding.size_of varint_size_of_signed
  size_of_signed-size_of fix_int z = refl
  size_of_signed-size_of var_int z = refl

  code-raw :
      (i : IntEncoding) (size : ℕ) (z : ℤ)
      → (if is_static i then static (size_in_bytes t) (is_zero_copy i e) else dynamic)
        ≡ static size true
      → code i (size_in_bytes t) z ≡ as_unsigned (size_in_bytes t) z
  unfolding is_static
  code-raw fix_int size z h = refl
  code-raw var_int size z h = absurd cc

module _ (c : Configuration) where
  abbrev signed_code : IntType → ℤ → ℕ
  signed_code u8 z = as_unsigned 1 z
  signed_code (wide t) z = code c.int_encoding (size_in_bytes t) z

  abbrev signed_uncode : IntType → ℕ → ℤ
  signed_uncode u8 n = as_signed 1 n
  signed_uncode (wide t) n = uncode c.int_encoding (size_in_bytes t) n

  abbrev pub signed_bytes : IntType → ℤ → List ℕ
  signed_bytes t z = bytes_of c t (signed_code t z)

  signed_code-lt :
      (t : IntType) (z : ℤ) → InRange (size_of_type t) z → signed_code t z < 256 ^ size_of_type t
  signed_code-lt u8 z h = as_unsigned-lt 1 z h
  signed_code-lt (wide t) z h = code-lt c.int_encoding (size_in_bytes t) z h

  signed_uncode-code :
      (t : IntType) (z : ℤ) → InRange (size_of_type t) z → signed_uncode t (signed_code t z) ≡ z
  signed_uncode-code u8 z h = as_signed-as_unsigned 1 z h
  signed_uncode-code (wide t) z h = uncode-code c.int_encoding (size_in_bytes t) z h

  signed_write-int_write :
      (t : IntType) (z : ℤ) → signed_write c t z ≡ int_write c t (signed_code t z)
  unfolding signed_write int_write
  signed_write-int_write u8 z = refl
  signed_write-int_write (wide t) z = encode_signed-encode c.byte_order t c.int_encoding z

  signed_read-int_read :
      (t : IntType) → signed_read c t ≡ (int_read c t >>= (λ n. pure (signed_uncode t n)))
  unfolding signed_read int_read
  signed_read-int_read u8 = refl
  signed_read-int_read (wide t) = decode_signed-decode c.byte_order t c.int_encoding

  signed_size_of-int_size_of :
      (t : IntType) (z : ℤ) → signed_size_of c t z ≡ int_size_of c t (signed_code t z)
  unfolding signed_size_of int_size_of
  signed_size_of-int_size_of u8 z = refl
  signed_size_of-int_size_of (wide t) z =
      ap ok (size_of_signed-size_of c.byte_order t c.int_encoding z)

  signed_code-raw :
      (t : IntType) (size : ℕ) (z : ℤ)
      → int_meta c t ≡ static size true
      → signed_code t z ≡ as_unsigned (size_of_type t) z
  unfolding int_meta
  signed_code-raw u8 size z h = refl
  signed_code-raw (wide t) size z h = code-raw c.byte_order t c.int_encoding size z h

  module _ (t : IntType) where
    abbrev int_laws : Laws (int_schema c t) (λ v. v < 256 ^ size_of_type t) (bytes_of c t)
    int_laws = int_schema-Laws c t

    memory_bytes :
        (size : ℕ) (z : ℤ)
        → int_meta c t ≡ static size true
        → InRange (size_of_type t) z
        → to_le_bytes (size_of_type t) (as_unsigned (size_of_type t) z) ≡ signed_bytes t z
    memory_bytes size z e h =
        (int_memory c t size e).1 (as_unsigned (size_of_type t) z)
          (as_unsigned-lt (size_of_type t) z h)
        ∙ ap (bytes_of c t) (sym (signed_code-raw t size z e))

    -- Under every configuration the schema of every signed integer type keeps the schema laws on
    -- the values in its range: fixed-size integers are written in two's complement and
    -- variable-length ones through the zigzag code, the announced size is that of the format, every
    -- value is read back, the memory layout agrees where it is copied, and reading is memory safe.
    pub signed_schema-Laws : Laws (signed_schema c t) (InRange (size_of_type t)) (signed_bytes t)
    unfolding signed_schema int_schema
    signed_schema-Laws = record {
      writes = λ z h.
          rw (signed_write-int_write t z)
            (int_laws.writes (signed_code t z) (signed_code-lt t z h));
      sizes = λ z h.
          signed_size_of-int_size_of t z ∙ int_laws.sizes (signed_code t z) (signed_code-lt t z h);
      reads = λ z h. rw (signed_read-int_read t) (
          Reads-value (signed_uncode-code t z h) (
            Reads-map (signed_uncode t) (int_laws.reads (signed_code t z) (signed_code-lt t z h))));
      safe = rw (signed_read-int_read t) (
          SafeFor-check (int_meta c t) (int_read c t) (λ n. pure (signed_uncode t n)) (int_safe c t)
            (λ n. SafeStatic-pure _));
      write_static =
          λ size x e z h. int_laws.write_static size x e (signed_code t z) (signed_code-lt t z h);
      read_static =
          λ size x e z h. int_laws.read_static size x e (signed_code t z) (signed_code-lt t z h);
      write_raw = λ size e. (
        λ z. to_le_bytes (size_of_type t) (as_unsigned (size_of_type t) z),
        refl,
        λ z h. memory_bytes size z e h,
      );
      read_raw = λ size e. (
        λ bytes. as_signed (size_of_type t) (from_le_bytes bytes),
        refl,
        (int_memory c t size e).0,
        λ z h.
            ap (λ bytes. as_signed (size_of_type t) (from_le_bytes bytes))
              (sym (memory_bytes size z e h))
            ∙ ap (as_signed (size_of_type t)) (
                from_memory-to_memory (size_of_type t) (as_unsigned (size_of_type t) z)
                  (as_unsigned-lt (size_of_type t) z h))
            ∙ as_signed-as_unsigned (size_of_type t) z h,
      );
    }
