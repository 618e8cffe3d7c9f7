-- ===== src/Ints/Laws.antt =====
-- The integer schemas of wincode/src/schema/impls.rs: what they write, read back and announce.
use wincode.Prelude.{ℕ, ◌^◌, ◌<◌, ◌≡◌, refl, ap, List, [], ◌∷◌, length, ok}
use wincode.Reader.Reads.{Reads, Reads-byte}
use wincode.Reader.Safe.{SafeDynamic, SafeStatic-byte, SafeStatic-dynamic}
use wincode.Writer.Writes.{Writes, Writes-write}
use wincode.IntEncoding.Format.{int_bytes, encode-Writes, size_of-length}
use wincode.IntEncoding.RoundTrip.{decode-Reads, decode-SafeDynamic}
use wincode.Config.{Configuration, IntType, u8, wide}
use wincode.Ints.{size_of_type, int_size_of, int_write, int_read}

-- The bytes of an integer under a configuration.
abbrev pub bytes_of : Configuration → IntType → ℕ → List ℕ
bytes_of c u8 v = v ∷ []
bytes_of c (wide t) v = int_bytes c.int_encoding c.byte_order t v

module _ (c : Configuration) where
  pub int_write-Writes :
      (t : IntType) (v : ℕ) → v < 256 ^ size_of_type t → Writes (int_write c t v) (bytes_of c t v)
  unfolding int_write
  int_write-Writes u8 v h = Writes-write (v ∷ [])
  int_write-Writes (wide t) v h = encode-Writes c.int_encoding c.byte_order t v h

  pub int_size_of-length :
      (t : IntType) (v : ℕ)
      → v < 256 ^ size_of_type t
      → int_size_of c t v ≡ ok (length (bytes_of c t v))
  unfolding int_size_of
  int_size_of-length u8 v h = refl
  int_size_of-length (wide t) v h = ap ok (size_of-length c.int_encoding c.byte_order t v h)

  pub int_read-Reads :
      (t : IntType) (v : ℕ) → v < 256 ^ size_of_type t → Reads (int_read c t) (bytes_of c t v) v
  unfolding int_read
  int_read-Reads u8 v h = Reads-byte v
  int_read-Reads (wide t) v h = decode-Reads c.int_encoding c.byte_order t v h

  pub int_read-SafeDynamic : (t : IntType) → SafeDynamic (int_read c t)
  unfolding int_read
  int_read-SafeDynamic u8 = SafeStatic-dynamic SafeStatic-byte
  int_read-SafeDynamic (wide t) = decode-SafeDynamic c.int_encoding c.byte_order t
