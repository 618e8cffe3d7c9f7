-- ===== src/Impls/Chars/Utf8.antt =====
-- The checks of the decoder of `char` in wincode/src/schema/impls.rs against UTF-8.
use wincode.Prelude.{
  ℕ, ◌+◌, ◌/◌, ◌%◌, ◌≤◌, ◌≡◌, ◌≢◌, sym, ◌⊎◌, inl, inr, Bool-cases, Bool, true, false, ◌||◌, not,
  List, [], ◌∷◌, ◌++◌, All, arith,
}
use wincode.Elements.Bytes.{concat_bytes}
use wincode.Impls.Chars.{is_scalar, encode_utf8, continuation, within, bad_three, bad_four}

abbrev pub IsScalar : ℕ → Type 0
IsScalar n = is_scalar n ≡ true

-- Text is well-formed when it is the encodings of code points.
abbrev pub IsUtf8 : (List ℕ → Bool) → Type 0
IsUtf8 is_utf8 =
    (bs : List ℕ)
    → is_utf8 bs ≡ true
    → (points : List ℕ) × All IsScalar points × (concat_bytes encode_utf8 points ≡ bs)

-- A code point and the bytes after it, where a lead byte of two is first.
two_continued :
    (n b0 b1 : ℕ) (rest : List ℕ)
    → within 194 223 b0 ≡ true
    → encode_utf8 n ++ rest ≡ b0 ∷ b1 ∷ []
    → continuation b1 ≡ true
unfolding encode_utf8 within continuation
two_continued n b0 b1 rest h e = grind arith

three_continued :
    (n b0 b1 b2 : ℕ) (rest : List ℕ)
    → within 224 239 b0 ≡ true
    → encode_utf8 n ++ rest ≡ b0 ∷ b1 ∷ b2 ∷ []
    → is_scalar n ≡ true
    → (continuation b1 ≡ true) × (continuation b2 ≡ true) × (bad_three b0 b1 ≡ false)
unfolding encode_utf8 within continuation bad_three is_scalar
three_continued n b0 b1 b2 rest h e k = grind arith

four_shape :
    (n b0 b1 b2 b3 : ℕ) (rest : List ℕ)
    → 240 ≤ b0
    → encode_utf8 n ++ rest ≡ b0 ∷ b1 ∷ b2 ∷ b3 ∷ []
    → is_scalar n ≡ true
    → (b0 ≡ 240 + n / 262144)
      × (b1 ≡ 128 + n / 4096 % 64)
      × (b2 ≡ 128 + n / 64 % 64)
      × (b3 ≡ 128 + n % 64)
      × (65536 ≤ n)
      × (n ≤ 1114111)
unfolding encode_utf8 is_scalar
four_shape n b0 b1 b2 b3 rest h e k = grind arith

four_continued :
    (n b0 b1 b2 b3 : ℕ) (rest : List ℕ)
    → 240 ≤ b0
    → encode_utf8 n ++ rest ≡ b0 ∷ b1 ∷ b2 ∷ b3 ∷ []
    → is_scalar n ≡ true
    → (continuation b1 ≡ true)
      × (continuation b2 ≡ true)
      × (continuation b3 ≡ true)
      × (bad_four b0 b1 ≡ false)
unfolding continuation bad_four
four_continued n b0 b1 b2 b3 rest h e k =
    let (e0, e1, e2, e3, low, high) = four_shape n b0 b1 b2 b3 rest h e k in
    (ground arith, ground arith, ground arith, ground arith)

module _ (is_utf8 : List ℕ → Bool) (utf8 : IsUtf8 is_utf8) where
  -- Bytes that would be well-formed only as text with some property, and do not have it.
  refused :
      (buf : List ℕ) (P : Type 0)
      → ((n : ℕ) (rest : List ℕ) → encode_utf8 n ++ rest ≡ buf → is_scalar n ≡ true → P)
      → buf ≢ []
      → (P → ⊥)
      → is_utf8 buf ≡ false
  refused buf P step full none = elim (Bool-cases (is_utf8 buf)) [
    | inl e ↦ let (points, all, same) = utf8 buf e in absurd (none (head_first points all same))
    | inr e ↦ e
  ]
    where
      head_first :
          (points : List ℕ) → All IsScalar points → concat_bytes encode_utf8 points ≡ buf → P
      head_first [] all same = absurd (full (sym same))
      head_first (n ∷ points) (p, all) same = step n (concat_bytes encode_utf8 points) same p

  pub two_refused :
      (b0 b1 : ℕ)
      → within 194 223 b0 ≡ true
      → not (continuation b1) ≡ true
      → is_utf8 (b0 ∷ b1 ∷ []) ≡ false
  two_refused b0 b1 h bad =
      refused (b0 ∷ b1 ∷ []) (continuation b1 ≡ true) (λ n rest e k. two_continued n b0 b1 rest h e)
        (λ e. absurd cc) (λ e. grind arith)

  pub three_refused :
      (b0 b1 b2 : ℕ)
      → within 224 239 b0 ≡ true
      → ((not (continuation b1) || not (continuation b2)) ≡ true) ⊎ (bad_three b0 b1 ≡ true)
      → is_utf8 (b0 ∷ b1 ∷ b2 ∷ []) ≡ false
  three_refused b0 b1 b2 h bad =
      refused (b0 ∷ b1 ∷ b2 ∷ [])
        ((continuation b1 ≡ true) × (continuation b2 ≡ true) × (bad_three b0 b1 ≡ false))
        (λ n rest e k. three_continued n b0 b1 b2 rest h e k) (λ e. absurd cc) (λ e. grind arith)

  pub four_refused :
      (b0 b1 b2 b3 : ℕ)
      → within 240 244 b0 ≡ true
      → ((not (continuation b1) || (not (continuation b2) || not (continuation b3))) ≡ true)
        ⊎ (bad_four b0 b1 ≡ true)
      → is_utf8 (b0 ∷ b1 ∷ b2 ∷ b3 ∷ []) ≡ false
  unfolding within
  four_refused b0 b1 b2 b3 h bad =
      refused (b0 ∷ b1 ∷ b2 ∷ b3 ∷ [])
        ((continuation b1 ≡ true)
          × (continuation b2 ≡ true)
          × (continuation b3 ≡ true)
          × (bad_four b0 b1 ≡ false))
        (λ n rest e k. four_continued n b0 b1 b2 b3 rest (ground arith) e k) (λ e. absurd cc)
        (λ e. grind arith)
