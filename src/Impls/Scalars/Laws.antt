-- ===== src/Impls/Scalars/Laws.antt =====
-- The laws of the schemas of the integers, `bool` and `()` in wincode/src/schema/impls.rs.
use wincode.Prelude.{
  ℕ, ◌^◌, ◌<◌, ◌≡◌, refl, sym, ap, ◌∙◌, Bool, true, false, [], ◌∷◌, length, if◌then◌else◌, arith,
}
use wincode.Reader.Reads.{Reads, Reads-pure, Reads-bind, Reads-byte}
use wincode.Reader.Safe.{
  SafeStatic, SafeStatic-byte, SafeStatic-pure, SafeStatic-bind, SafeStatic-raise, SafeStatic-if,
}
use wincode.Writer.Writes.{Writes-write, Writes-done}
use wincode.TypeMeta.{TypeMeta, static, dynamic}
use wincode.IntEncoding.{
  Endian, big, little, IntEncoding, fix_int, var_int, UInt, size_in_bytes, is_static, is_zero_copy,
  to_le_bytes, from_le_bytes, to_bytes, from_bytes, decode,
}
use wincode.IntEncoding.Bytes.{length-to_bytes, from_bytes-to_bytes}
use wincode.IntEncoding.Format.{int_bytes}
use wincode.IntEncoding.RoundTrip.{decode-SafeStatic, decode-SafeDynamic}
use wincode.Config.{Configuration, IntType, u8, wide}
use wincode.Schema.Laws.{Laws, SafeFor}
use wincode.Ints.{size_of_type, int_meta, int_read}
use wincode.Ints.Laws.{bytes_of, int_write-Writes, int_size_of-length, int_read-Reads}
use wincode.Impls.Scalars.{int_schema, bool_byte, bool_from_byte, bool_schema, unit_schema}

-- The metadata of a wider integer, by the two choices of the configuration.
abbrev wide_meta : IntEncoding → Endian → UInt → TypeMeta
wide_meta i e t = if is_static i then static (size_in_bytes t) (is_zero_copy i e) else dynamic

module _ (t : UInt) where
  wide_length :
      (i : IntEncoding) (e : Endian) (size : ℕ) (z : Bool)
      → wide_meta i e t ≡ static size z
      → (v : ℕ) → length (int_bytes i e t v) ≡ size
  unfolding is_static
  wide_length fix_int e size z h v =
      let same : size_in_bytes t ≡ size = cc in length-to_bytes e (size_in_bytes t) v ∙ same
  wide_length var_int e size z h v = absurd cc

  wide_memory :
      (i : IntEncoding) (e : Endian) (size : ℕ)
      → wide_meta i e t ≡ static size true
      → (size_in_bytes t ≡ size) × ((v : ℕ) → to_le_bytes (size_in_bytes t) v ≡ int_bytes i e t v)
  unfolding is_static is_zero_copy to_bytes
  wide_memory fix_int little size h = (cc, λ v. refl)
  wide_memory fix_int big size h = absurd cc
  wide_memory var_int e size h = absurd cc

  wide_safe : (i : IntEncoding) (e : Endian) → SafeFor (wide_meta i e t) (decode i e t)
  unfolding is_static
  wide_safe fix_int e = decode-SafeStatic e t
  wide_safe var_int e = decode-SafeDynamic var_int e t

pub from_memory-to_memory : (size v : ℕ) → v < 256 ^ size → from_le_bytes (to_le_bytes size v) ≡ v
unfolding to_bytes from_bytes
from_memory-to_memory size v h = from_bytes-to_bytes little size v h

module _ (c : Configuration) where
  pub int_length :
      (t : IntType) (size : ℕ) (z : Bool)
      → int_meta c t ≡ static size z
      → (v : ℕ) → length (bytes_of c t v) ≡ size
  unfolding int_meta
  int_length u8 size z h v = cc
  int_length (wide t) size z h v = wide_length t c.int_encoding c.byte_order size z h v

  pub int_memory :
      (t : IntType) (size : ℕ)
      → int_meta c t ≡ static size true
      → (size_of_type t ≡ size)
        × ((v : ℕ) → v < 256 ^ size_of_type t → to_le_bytes (size_of_type t) v ≡ bytes_of c t v)
  unfolding int_meta to_le_bytes
  int_memory u8 size h = (cc, λ v k. ap (λ b. b ∷ []) (omega arith))
  int_memory (wide t) size h =
      let (same, bytes) = wide_memory t c.int_encoding c.byte_order size h in (same, λ v k. bytes v)

  pub int_safe : (t : IntType) → SafeFor (int_meta c t) (int_read c t)
  unfolding int_meta int_read
  int_safe u8 = SafeStatic-byte
  int_safe (wide t) = wide_safe t c.int_encoding c.byte_order

  -- Under every configuration the schema of every unsigned integer type keeps the schema laws on
  -- the values that fit the type: its metadata, announced size, writing, reading and memory layout
  -- agree on one format, and reading is memory safe.
  pub int_schema-Laws :
      (t : IntType) → Laws (int_schema c t) (λ v. v < 256 ^ size_of_type t) (bytes_of c t)
  unfolding int_schema
  int_schema-Laws t = record {
    writes = int_write-Writes c t;
    sizes = int_size_of-length c t;
    reads = int_read-Reads c t;
    safe = int_safe t;
    write_static = λ size z e v h. int_length t size z e v;
    read_static = λ size z e v h. int_length t size z e v;
    write_raw = λ size e. (to_le_bytes (size_of_type t), refl, (int_memory t size e).1);
    read_raw = λ size e. (
      from_le_bytes,
      refl,
      (int_memory t size e).0,
      λ v h.
          ap from_le_bytes (sym ((int_memory t size e).1 v h))
          ∙ from_memory-to_memory (size_of_type t) v h,
    );
  }

bool_from_byte-bool_byte : (b : Bool) → Reads (bool_from_byte (bool_byte b)) [] b
unfolding bool_from_byte bool_byte
bool_from_byte-bool_byte true = Reads-pure true
bool_from_byte-bool_byte false = Reads-pure false

bool_from_byte-SafeStatic : (byte : ℕ) → SafeStatic 0 (bool_from_byte byte)
unfolding bool_from_byte
bool_from_byte-SafeStatic byte =
    SafeStatic-if _ (SafeStatic-pure false)
      (SafeStatic-if _ (SafeStatic-pure true) (SafeStatic-raise 0 _))

-- `bool` keeps the schema laws on both values: one byte, written from memory as it is, and read
-- back through a check of the byte that is memory safe on every input.
pub bool_schema-Laws : Laws bool_schema (λ b. Unit) (λ b. bool_byte b ∷ [])
unfolding bool_schema
bool_schema-Laws = record {
  writes = λ b h. Writes-write _;
  sizes = λ b h. refl;
  reads = λ b h. Reads-bind bool_from_byte (Reads-byte (bool_byte b)) (bool_from_byte-bool_byte b);
  safe = SafeStatic-bind {k = 0} SafeStatic-byte bool_from_byte-SafeStatic;
  write_static = λ size z e b h. cc;
  read_static = λ size z e b h. cc;
  write_raw = λ size e. ((λ b. bool_byte b ∷ []), refl, λ b h. refl);
  read_raw = λ size e. absurd cc;
}

pub unit_schema-Laws : Laws {A = Unit {0}} unit_schema (λ u. Unit) (λ u. [])
unfolding unit_schema
unit_schema-Laws = record {
  writes = λ u h. Writes-done;
  sizes = λ u h. refl;
  reads = λ u h. Reads-pure tt;
  safe = SafeStatic-pure tt;
  write_static = λ size z e u h. cc;
  read_static = λ size z e u h. cc;
  write_raw = λ size e. ((λ u. []), refl, λ u h. refl);
  read_raw = λ size e. ((λ bytes. tt), refl, cc, λ u h. refl);
}
