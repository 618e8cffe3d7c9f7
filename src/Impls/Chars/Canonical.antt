-- ===== src/Impls/Chars/Canonical.antt =====
-- The decoder of `char` in wincode/src/schema/impls.rs accepts nothing but UTF-8.
use wincode.Prelude.{
  ℕ, ◌+◌, ◌*◌, ◌%◌, ◌≡◌, refl, ap, ◌∙◌, Bool, true, false, ◌||◌, not, List, [], ◌∷◌, ◌++◌,
  append-nil, length, leb, if◌then◌else◌, ok, fault, arith,
}
use wincode.Error.{ReadError}
use wincode.Reader.{Reader, raise, ◌>>=◌, take_byte, take_array}
use wincode.Reader.Parses.{
  Parses, Parses-pure, Parses-raise, Parses-test, Parses-bind, Parses-copy, Parses-byte,
}
use wincode.Impls.Chars.{
  is_scalar, encode_utf8, continuation, within, byte_at, from_code_point, bad_three, bad_four,
  utf8_error, decode_two, decode_three, decode_four, char_from_lead, char_read,
}
use wincode.Impls.Chars.Utf8.{IsScalar}

-- A code point and its encoding.
abbrev pub IsEncoding : ℕ → List ℕ → Type 0
IsEncoding n bs = IsScalar n × (bs ≡ encode_utf8 n)

one_byte : (b : ℕ) → leb b 127 ≡ true → IsEncoding b (b ∷ [])
unfolding is_scalar encode_utf8
one_byte b h = (ground arith, ground arith)

two_bytes :
    (b0 b1 : ℕ)
    → within 194 223 b0 ≡ true
    → continuation b1 ≡ true
    → b0 ∷ b1 ∷ [] ≡ encode_utf8 ((b0 % 32) * 64 + b1 % 64)
unfolding encode_utf8 within continuation
two_bytes b0 b1 h k = grind arith

three_bytes :
    (b0 b1 b2 : ℕ)
    → within 224 239 b0 ≡ true
    → continuation b1 ≡ true
    → continuation b2 ≡ true
    → bad_three b0 b1 ≡ false
    → b0 ∷ b1 ∷ b2 ∷ [] ≡ encode_utf8 ((b0 % 16) * 4096 + (b1 % 64) * 64 + b2 % 64)
unfolding encode_utf8 within continuation bad_three
three_bytes b0 b1 b2 h k l g = grind arith

four_bytes :
    (b0 b1 b2 b3 : ℕ)
    → within 240 244 b0 ≡ true
    → continuation b1 ≡ true
    → continuation b2 ≡ true
    → continuation b3 ≡ true
    → bad_four b0 b1 ≡ false
    → b0 ∷ b1 ∷ b2 ∷ b3 ∷ []
      ≡ encode_utf8 ((b0 % 8) * 262144 + (b1 % 64) * 4096 + (b2 % 64) * 64 + b3 % 64)
unfolding encode_utf8 within continuation bad_four
four_bytes b0 b1 b2 b3 h k l m g = grind arith

-- A code point whose encoding starts with given bytes, and the bytes after those.
abbrev Completes : List ℕ → ℕ → List ℕ → Type 0
Completes start n bs = IsScalar n × (start ++ bs ≡ encode_utf8 n)

from_code_point-Completes :
    (start : List ℕ) (n : ℕ) → start ≡ encode_utf8 n → Parses (from_code_point n) (Completes start)
unfolding from_code_point
from_code_point-Completes start n e =
    Parses-test (Completes start) (is_scalar n)
      (λ h. Parses-pure (Completes start) n (h, append-nil start ∙ e))
      (λ h. Parses-raise (Completes start) (ReadError.invalid_utf8_code n))

two_of : (bs : List ℕ) → length bs ≡ 2 → bs ≡ byte_at 0 bs ∷ byte_at 1 bs ∷ []
two_of [] h = absurd (omega arith)
two_of (x ∷ []) h = absurd (omega arith)
two_of (x ∷ y ∷ []) h = refl
two_of (x ∷ y ∷ z ∷ bs) h = absurd (omega arith)

three_of : (bs : List ℕ) → length bs ≡ 3 → bs ≡ byte_at 0 bs ∷ byte_at 1 bs ∷ byte_at 2 bs ∷ []
three_of [] h = absurd (omega arith)
three_of (x ∷ []) h = absurd (omega arith)
three_of (x ∷ y ∷ []) h = absurd (omega arith)
three_of (x ∷ y ∷ z ∷ []) h = refl
three_of (x ∷ y ∷ z ∷ t ∷ bs) h = absurd (omega arith)

module _ (is_utf8 : List ℕ → Bool) where
  utf8_error-Parses : (buf : List ℕ) (R : ℕ → List ℕ → Type 0) → Parses (utf8_error is_utf8 buf) R
  unfolding utf8_error
  utf8_error-Parses buf R = record { at = λ r c n r' e. absurd (never (is_utf8 buf) r n r' e) }
    where
      never :
          (b : Bool) (r : Reader) (n : ℕ) (r' : Reader)
          → (if b then (fault, r) else raise ReadError.invalid_utf8_encoding r) ≡ (ok n, r')
          → ⊥
      never true r n r' e = cc
      never false r n r' e = cc

  both_hold : (x y : Bool) → (not x || not y) ≡ false → (x ≡ true) × (y ≡ true)
  both_hold x y h = grind arith

  all_hold :
      (x y z : Bool) → (not x || (not y || not z)) ≡ false → (x ≡ true) × (y ≡ true) × (z ≡ true)
  all_hold x y z h = grind arith

  decode_two-Completes :
      (b0 b1 : ℕ)
      → within 194 223 b0 ≡ true
      → Parses (decode_two is_utf8 b0 b1) (Completes (b0 ∷ b1 ∷ []))
  unfolding decode_two
  decode_two-Completes b0 b1 h =
      Parses-test _ (not (continuation b1)) (λ bad. utf8_error-Parses _ _)
        (λ good.
          from_code_point-Completes _ _
            (two_bytes b0 b1 h (both_hold (continuation b1) true (grind arith)).0))

  decode_three-Completes :
      (b0 b1 b2 : ℕ)
      → within 224 239 b0 ≡ true
      → Parses (decode_three is_utf8 b0 b1 b2) (Completes (b0 ∷ b1 ∷ b2 ∷ []))
  unfolding decode_three
  decode_three-Completes b0 b1 b2 h =
      Parses-test _ (not (continuation b1) || not (continuation b2)) (λ bad. utf8_error-Parses _ _)
        (λ good.
          Parses-test _ (bad_three b0 b1) (λ bad. utf8_error-Parses _ _)
            (λ allowed.
              let (k, l) = both_hold (continuation b1) (continuation b2) good in
              from_code_point-Completes _ _ (three_bytes b0 b1 b2 h k l allowed)))

  decode_four-Completes :
      (b0 b1 b2 b3 : ℕ)
      → within 240 244 b0 ≡ true
      → Parses (decode_four is_utf8 b0 b1 b2 b3) (Completes (b0 ∷ b1 ∷ b2 ∷ b3 ∷ []))
  unfolding decode_four
  decode_four-Completes b0 b1 b2 b3 h =
      Parses-test _ (not (continuation b1) || (not (continuation b2) || not (continuation b3)))
        (λ bad. utf8_error-Parses _ _)
        (λ good.
          Parses-test _ (bad_four b0 b1) (λ bad. utf8_error-Parses _ _)
            (λ allowed.
              let (k, l, m) = all_hold (continuation b1) (continuation b2) (continuation b3) good in
              from_code_point-Completes _ _ (four_bytes b0 b1 b2 b3 h k l m allowed)))

  lead_two :
      (b0 : ℕ)
      → within 194 223 b0 ≡ true
      → Parses (take_byte >>= decode_two is_utf8 b0) (Completes (b0 ∷ []))
  lead_two b0 h =
      Parses-bind (decode_two is_utf8 b0) (λ b1. Completes (b0 ∷ b1 ∷ [])) Parses-byte
        (λ b1. decode_two-Completes b0 b1 h)
        (λ b1 n bs cs k l. (l.0, ap (λ t. b0 ∷ (t ++ cs)) k ∙ l.1))

  lead_three :
      (b0 : ℕ)
      → within 224 239 b0 ≡ true
      → Parses
          (take_array 2 >>= (λ bs. decode_three is_utf8 b0 (byte_at 0 bs) (byte_at 1 bs)))
          (Completes (b0 ∷ []))
  lead_three b0 h =
      Parses-bind (λ bs. decode_three is_utf8 b0 (byte_at 0 bs) (byte_at 1 bs))
        (λ bs. Completes (b0 ∷ byte_at 0 bs ∷ byte_at 1 bs ∷ [])) (Parses-copy 2)
        (λ bs. decode_three-Completes b0 (byte_at 0 bs) (byte_at 1 bs) h)
        (λ bs n xs cs k l. (l.0, ap (λ t. b0 ∷ (t ++ cs)) (k.0 ∙ two_of bs k.1) ∙ l.1))

  lead_four :
      (b0 : ℕ)
      → within 240 244 b0 ≡ true
      → Parses
          (take_array 3
            >>= (λ bs. decode_four is_utf8 b0 (byte_at 0 bs) (byte_at 1 bs) (byte_at 2 bs)))
          (Completes (b0 ∷ []))
  lead_four b0 h =
      Parses-bind (λ bs. decode_four is_utf8 b0 (byte_at 0 bs) (byte_at 1 bs) (byte_at 2 bs))
        (λ bs. Completes (b0 ∷ byte_at 0 bs ∷ byte_at 1 bs ∷ byte_at 2 bs ∷ [])) (Parses-copy 3)
        (λ bs. decode_four-Completes b0 (byte_at 0 bs) (byte_at 1 bs) (byte_at 2 bs) h)
        (λ bs n xs cs k l. (l.0, ap (λ t. b0 ∷ (t ++ cs)) (k.0 ∙ three_of bs k.1) ∙ l.1))

  char_from_lead-Completes : (b0 : ℕ) → Parses (char_from_lead is_utf8 b0) (Completes (b0 ∷ []))
  unfolding char_from_lead
  char_from_lead-Completes b0 =
      Parses-test _ (leb b0 127) (λ h. Parses-pure _ b0 (one_byte b0 h))
        (λ _. Parses-test _ (within 194 223 b0) (lead_two b0) (λ _.
          Parses-test _ (within 224 239 b0) (lead_three b0)
            (λ _. Parses-test _ (within 240 244 b0) (lead_four b0) (λ _. Parses-raise _ _))))

  -- On every checked reader: if reading a `char` succeeds, its value is a Unicode scalar value, and
  -- the bytes that were taken are exactly the encoding that writing that value gives: overlong
  -- forms, surrogates and bytes that do not continue are never accepted.
  pub char_read-canonical : Parses (char_read is_utf8) IsEncoding
  unfolding char_read
  char_read-canonical =
      Parses-bind (char_from_lead is_utf8) (λ b0. Completes (b0 ∷ [])) Parses-byte
        char_from_lead-Completes (λ b0 n bs cs k l. (l.0, ap (λ t. t ++ cs) k ∙ l.1))
