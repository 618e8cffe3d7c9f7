-- ===== src/Impls/Chars/Laws.antt =====
-- The laws of `char` of wincode/src/schema/impls.rs as a schema.
use wincode.Prelude.{
  ℕ, ◌+◌, ◌/◌, ◌%◌, ◌≤◌, ◌<◌, ◌≡◌, refl, inl, inr, Bool, true, false, ◌||◌, not, List, [], ◌∷◌, leb,
  ltb-cases, le→leb, lt→leb_false, arith,
}
use wincode.Reader.{◌>>=◌, take_byte, take_array}
use wincode.Reader.Reads.{Reads, Reads-pure, Reads-bind, Reads-byte, Reads-copy}
use wincode.Reader.Safe.{
  SafeDynamic, SafeDynamic-bind, SafeDynamic-pure, SafeDynamic-raise, SafeDynamic-if,
  SafeDynamic-test, SafeStatic-dynamic, SafeStatic-byte, SafeStatic-copy,
}
use wincode.Writer.Writes.{Writes-write}
use wincode.Schema.Laws.{Laws}
use wincode.Impls.Chars.{
  is_scalar, encode_utf8, continuation, within, byte_at, from_code_point, bad_three, bad_four,
  utf8_error, decode_two, decode_three, decode_four, char_from_lead, char_read, char_schema,
}
use wincode.Impls.Chars.Utf8.{IsScalar, IsUtf8, two_refused, three_refused, four_refused}

from_code_point-SafeDynamic : (n : ℕ) → SafeDynamic (from_code_point n)
unfolding from_code_point
from_code_point-SafeDynamic n = SafeDynamic-if _ (SafeDynamic-pure n) (SafeDynamic-raise _)

from_code_point-Reads : (n m : ℕ) → IsScalar n → m ≡ n → Reads (from_code_point m) [] n
unfolding from_code_point
from_code_point-Reads n m h e = rw (e, h) (Reads-pure n)

module _ (is_utf8 : List ℕ → Bool) where
  -- The four lengths of an encoding.
  read_one : (n : ℕ) → n < 128 → Reads (char_read is_utf8) (n ∷ []) n
  unfolding char_read char_from_lead
  read_one n h =
      let small : leb n 127 ≡ true = le→leb _ _ (omega arith) in
      Reads-bind (char_from_lead is_utf8) (Reads-byte n) (rw (small, char_from_lead) (Reads-pure n))

  lead_two :
      (b0 : ℕ)
      → 194 ≤ b0
      → b0 ≤ 223
      → char_from_lead is_utf8 b0 ≡ (take_byte >>= decode_two is_utf8 b0)
  unfolding char_from_lead within
  lead_two b0 h k =
      rw (lt→leb_false b0 127 (omega arith), le→leb 194 b0 h, le→leb b0 223 k, char_from_lead) refl

  decode_two-Reads :
      (n : ℕ)
      → IsScalar n
      → 128 ≤ n
      → n < 2048
      → Reads (decode_two is_utf8 (192 + n / 64) (128 + n % 64)) [] n
  unfolding decode_two continuation
  decode_two-Reads n h low high =
      let good : not (continuation (128 + n % 64)) ≡ false = ground arith in
      rw (good, decode_two) (from_code_point-Reads n _ h (omega arith))

  lead_three :
      (b0 : ℕ)
      → 224 ≤ b0
      → b0 ≤ 239
      → char_from_lead is_utf8 b0
        ≡ (take_array 2 >>= (λ bs. decode_three is_utf8 b0 (byte_at 0 bs) (byte_at 1 bs)))
  unfolding char_from_lead within
  lead_three b0 h k =
      rw
        (
          lt→leb_false b0 127 (omega arith),
          le→leb 194 b0 (omega arith),
          lt→leb_false b0 223 (omega arith),
          le→leb 224 b0 h,
          le→leb b0 239 k,
          char_from_lead,
        )
        refl

  lead_four :
      (b0 : ℕ)
      → 240 ≤ b0
      → b0 ≤ 244
      → char_from_lead is_utf8 b0 ≡ (
          take_array 3
          >>= (λ bs. decode_four is_utf8 b0 (byte_at 0 bs) (byte_at 1 bs) (byte_at 2 bs)))
  unfolding char_from_lead within
  lead_four b0 h k =
      rw
        (
          lt→leb_false b0 127 (omega arith),
          le→leb 194 b0 (omega arith),
          lt→leb_false b0 223 (omega arith),
          le→leb 224 b0 (omega arith),
          lt→leb_false b0 239 (omega arith),
          le→leb 240 b0 h,
          le→leb b0 244 k,
          char_from_lead,
        )
        refl

  decode_three-Reads :
      (n : ℕ)
      → IsScalar n
      → 2048 ≤ n
      → n < 65536
      → Reads (decode_three is_utf8 (224 + n / 4096) (128 + n / 64 % 64) (128 + n % 64)) [] n
  unfolding decode_three continuation bad_three is_scalar
  decode_three-Reads n h low high =
      let good : (not (continuation (128 + n / 64 % 64)) || not (continuation (128 + n % 64)))
          ≡ false =
        ground arith in
      let allowed : bad_three (224 + n / 4096) (128 + n / 64 % 64) ≡ false = ground arith in
      rw (good, allowed, decode_three) (from_code_point-Reads n _ h (omega arith))

  decode_four-Reads :
      (n : ℕ)
      → IsScalar n
      → 65536 ≤ n
      → n ≤ 1114111
      → Reads
          (decode_four is_utf8
            (240 + n / 262144)
            (128 + n / 4096 % 64)
            (128 + n / 64 % 64)
            (128 + n % 64))
          []
          n
  unfolding decode_four continuation bad_four
  decode_four-Reads n h low high =
      let good : (not (continuation (128 + n / 4096 % 64))
            || (not (continuation (128 + n / 64 % 64)) || not (continuation (128 + n % 64))))
          ≡ false =
        ground arith in
      let allowed : bad_four (240 + n / 262144) (128 + n / 4096 % 64) ≡ false = ground arith in
      rw (good, allowed, decode_four) (from_code_point-Reads n _ h (omega arith))

  two_bytes :
      (n : ℕ)
      → IsScalar n
      → 128 ≤ n
      → n < 2048
      → Reads (char_read is_utf8) ((192 + n / 64) ∷ (128 + n % 64) ∷ []) n
  unfolding char_read
  two_bytes n h low high = Reads-bind (char_from_lead is_utf8) (Reads-byte (192 + n / 64)) (
      rw (lead_two (192 + n / 64) (omega arith) (omega arith))
        (Reads-bind _ (Reads-byte (128 + n % 64)) (decode_two-Reads n h low high)))

  three_bytes :
      (n : ℕ)
      → IsScalar n
      → 2048 ≤ n
      → n < 65536
      → Reads (char_read is_utf8) ((224 + n / 4096) ∷ (128 + n / 64 % 64) ∷ (128 + n % 64) ∷ []) n
  unfolding char_read
  three_bytes n h low high = Reads-bind (char_from_lead is_utf8) (Reads-byte (224 + n / 4096)) (
      rw (lead_three (224 + n / 4096) (omega arith) (omega arith)) (
        Reads-bind _ (Reads-copy ((128 + n / 64 % 64) ∷ (128 + n % 64) ∷ []))
          (decode_three-Reads n h low high)))

  four_bytes :
      (n : ℕ)
      → IsScalar n
      → 65536 ≤ n
      → n ≤ 1114111
      → Reads
          (char_read is_utf8)
          ((240 + n / 262144) ∷ (128 + n / 4096 % 64) ∷ (128 + n / 64 % 64) ∷ (128 + n % 64) ∷ [])
          n
  unfolding char_read
  four_bytes n h low high = Reads-bind (char_from_lead is_utf8) (Reads-byte (240 + n / 262144)) (
      rw (lead_four (240 + n / 262144) (omega arith) (omega arith)) (
        Reads-bind _
          (Reads-copy ((128 + n / 4096 % 64) ∷ (128 + n / 64 % 64) ∷ (128 + n % 64) ∷ []))
          (decode_four-Reads n h low high)))

  scalar_high : (n : ℕ) → IsScalar n → n ≤ 1114111
  unfolding is_scalar
  scalar_high n h = ground arith

  -- The encoding of every code point is read back as that code point.
  pub char_read-Reads : (n : ℕ) → IsScalar n → Reads (char_read is_utf8) (encode_utf8 n) n
  unfolding encode_utf8
  char_read-Reads n h = elim (ltb-cases n 128) [
    | inl (a, e) ↦ rw (e, encode_utf8) (read_one n a)
    | inr (a, e) ↦ elim (ltb-cases n 2048) [
      | inl (b, f) ↦ rw (e, f, encode_utf8) (two_bytes n h a b)
      | inr (b, f) ↦ elim (ltb-cases n 65536) [
        | inl (d, g) ↦ rw (e, f, g, encode_utf8) (three_bytes n h b d)
        | inr (d, g) ↦ rw (e, f, g, encode_utf8) (four_bytes n h d (scalar_high n h))
      ]
    ]
  ]

  module _ (utf8 : IsUtf8 is_utf8) where
    utf8_error-SafeDynamic :
        (buf : List ℕ) → is_utf8 buf ≡ false → SafeDynamic (utf8_error is_utf8 buf)
    unfolding utf8_error
    utf8_error-SafeDynamic buf e = rw (e, utf8_error) (SafeDynamic-raise _)

    decode_two-SafeDynamic :
        (b0 b1 : ℕ) → within 194 223 b0 ≡ true → SafeDynamic (decode_two is_utf8 b0 b1)
    unfolding decode_two
    decode_two-SafeDynamic b0 b1 h =
        SafeDynamic-test _ (λ bad. utf8_error-SafeDynamic _ (two_refused is_utf8 utf8 b0 b1 h bad))
          (λ good. from_code_point-SafeDynamic _)

    decode_three-SafeDynamic :
        (b0 b1 b2 : ℕ) → within 224 239 b0 ≡ true → SafeDynamic (decode_three is_utf8 b0 b1 b2)
    unfolding decode_three
    decode_three-SafeDynamic b0 b1 b2 h =
        SafeDynamic-test _
          (λ bad. utf8_error-SafeDynamic _ (three_refused is_utf8 utf8 b0 b1 b2 h (inl bad)))
          (λ _.
            SafeDynamic-test _
              (λ bad. utf8_error-SafeDynamic _ (three_refused is_utf8 utf8 b0 b1 b2 h (inr bad)))
              (λ good. from_code_point-SafeDynamic _))

    decode_four-SafeDynamic :
        (b0 b1 b2 b3 : ℕ) → within 240 244 b0 ≡ true → SafeDynamic (decode_four is_utf8 b0 b1 b2 b3)
    unfolding decode_four
    decode_four-SafeDynamic b0 b1 b2 b3 h =
        SafeDynamic-test _
          (λ bad. utf8_error-SafeDynamic _ (four_refused is_utf8 utf8 b0 b1 b2 b3 h (inl bad)))
          (λ _.
            SafeDynamic-test _
              (λ bad. utf8_error-SafeDynamic _ (four_refused is_utf8 utf8 b0 b1 b2 b3 h (inr bad)))
              (λ good. from_code_point-SafeDynamic _))

    char_from_lead-SafeDynamic : (b0 : ℕ) → SafeDynamic (char_from_lead is_utf8 b0)
    unfolding char_from_lead
    char_from_lead-SafeDynamic b0 = SafeDynamic-if _ (SafeDynamic-pure b0) (
        SafeDynamic-test _
          (λ two.
            SafeDynamic-bind (SafeStatic-dynamic SafeStatic-byte)
              (λ b1. decode_two-SafeDynamic b0 b1 two))
          (λ _.
            SafeDynamic-test _
              (λ three.
                SafeDynamic-bind (SafeStatic-dynamic (SafeStatic-copy 2))
                  (λ bs. decode_three-SafeDynamic b0 _ _ three))
              (λ _.
                SafeDynamic-test _
                  (λ four.
                    SafeDynamic-bind (SafeStatic-dynamic (SafeStatic-copy 3))
                      (λ bs. decode_four-SafeDynamic b0 _ _ _ four))
                  (λ _. SafeDynamic-raise _))))

    pub char_read-SafeDynamic : SafeDynamic (char_read is_utf8)
    unfolding char_read
    char_read-SafeDynamic =
        SafeDynamic-bind (SafeStatic-dynamic SafeStatic-byte) char_from_lead-SafeDynamic

    -- With a test of text that passes only the encodings of sequences of Unicode scalar values,
    -- `char` keeps the schema laws on the scalar values: it writes the encoding of one to four
    -- bytes, announces its length, reads it back on every reader, and on every input is memory safe
    -- and never takes the error of a test that passes.
    pub char_schema-Laws : Laws (char_schema is_utf8) IsScalar encode_utf8
    unfolding char_schema
    char_schema-Laws = record {
      writes = λ n h. Writes-write _;
      sizes = λ n h. refl;
      reads = char_read-Reads;
      safe = char_read-SafeDynamic;
      write_static = λ size z e. cc;
      read_static = λ size z e. cc;
      write_raw = λ size e. absurd cc;
      read_raw = λ size e. absurd cc;
    }
