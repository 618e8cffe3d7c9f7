-- ===== src/IntEncoding/Format.antt =====
-- The variable-length format that the documentation of `VarInt` states, and that the encoders of
-- wincode/src/schema/int_encoding.rs write it.
use wincode.Prelude.{
  ℕ, ◌+◌, ◌%◌, ◌^◌, ◌≤◌, ◌<◌, ◌≡◌, sym, ap, ◌∙◌, List, [], ◌∷◌, append-nil, length, leb, ltb,
  leb→le, leb_false→lt, if◌then◌else◌, arith,
}
use wincode.Writer.{Write, write}
use wincode.Writer.Writes.{
  Writes, Writes-write, Writes-done, Writes-seq, Writes-cast, Writes-if, Writes-window,
}
use wincode.IntEncoding.{
  Endian, UInt, u16, u32, u64, u128, size_in_bytes, max_of, to_bytes, fix_encode, encode_tagged,
  encode_by_tags, encode_unsigned, varint_encode, varint_size_of, fix_size_of, IntEncoding, fix_int,
  var_int, encode, size_of,
}
use wincode.IntEncoding.Bytes.{length-to_bytes}

-- One byte below 251, or a tag byte and the least of the widths 2, 4, 8, 16 that holds the value.
-- The width of the type does not enter.
unfoldable pub varint_bytes : Endian → ℕ → List ℕ
varint_bytes e u =
    if ltb u 251
    then u ∷ []
    else if ltb u (2 ^ 16)
    then 251 ∷ to_bytes e 2 u
    else if ltb u (2 ^ 32)
    then 252 ∷ to_bytes e 4 u
    else if ltb u (2 ^ 64)
    then 253 ∷ to_bytes e 8 u
    else 254 ∷ to_bytes e 16 u

-- The bytes of an integer of either encoding.
abbrev pub int_bytes : IntEncoding → Endian → UInt → ℕ → List ℕ
int_bytes fix_int e t v = to_bytes e (size_in_bytes t) v
int_bytes var_int e t v = varint_bytes e v

module _ (e : Endian) (u : ℕ) where
  pub bytes_single : u ≤ 250 → varint_bytes e u ≡ u ∷ []
  unfolding varint_bytes
  bytes_single h = ground arith

  pub bytes_two : 250 < u → u ≤ max_of 2 → varint_bytes e u ≡ 251 ∷ to_bytes e 2 u
  unfolding varint_bytes
  bytes_two h k = ground arith

  pub bytes_four : max_of 2 < u → u ≤ max_of 4 → varint_bytes e u ≡ 252 ∷ to_bytes e 4 u
  unfolding varint_bytes
  bytes_four h k = ground arith

  pub bytes_eight : max_of 4 < u → u ≤ max_of 8 → varint_bytes e u ≡ 253 ∷ to_bytes e 8 u
  unfolding varint_bytes
  bytes_eight h k = ground arith

  pub bytes_sixteen : max_of 8 < u → varint_bytes e u ≡ 254 ∷ to_bytes e 16 u
  unfolding varint_bytes
  bytes_sixteen h = ground arith

  tagged :
      (tag size : ℕ)
      → u % 256 ^ size ≡ u
      → varint_bytes e u ≡ tag ∷ to_bytes e size u
      → Writes (encode_tagged e tag size u) (varint_bytes e u)
  unfolding encode_tagged
  tagged tag size fits spec =
      Writes-window (size + 1) (rw spec (omega (arith, length-to_bytes e size u))) (
        Writes-cast (append-nil _ ∙ ap (λ v. tag ∷ to_bytes e size v) fits ∙ sym spec)
          (Writes-seq (Writes-seq (Writes-write (tag ∷ [])) (Writes-write _)) Writes-done))

  single : u ≤ 250 → Writes (write (u % 256 ∷ [])) (varint_bytes e u)
  single h =
      let fits : u % 256 ≡ u = omega arith in
      Writes-cast (ap (λ v. v ∷ []) fits ∙ sym (bytes_single h)) (Writes-write (u % 256 ∷ []))

  tagged_two : 250 < u → u ≤ max_of 2 → Writes (encode_tagged e 251 2 u) (varint_bytes e u)
  tagged_two h k = tagged 251 2 (omega arith) (bytes_two h k)

  tagged_four : max_of 2 < u → u ≤ max_of 4 → Writes (encode_tagged e 252 4 u) (varint_bytes e u)
  tagged_four h k = tagged 252 4 (omega arith) (bytes_four h k)

  tagged_eight : max_of 4 < u → u ≤ max_of 8 → Writes (encode_tagged e 253 8 u) (varint_bytes e u)
  tagged_eight h k = tagged 253 8 (omega arith) (bytes_eight h k)

  tagged_sixteen :
      max_of 8 < u → u ≤ max_of 16 → Writes (encode_tagged e 254 16 u) (varint_bytes e u)
  tagged_sixteen h k = tagged 254 16 (omega arith) (bytes_sixteen h)

  below :
      (k : ℕ) {m n : Write}
      → (u ≤ k → Writes m (varint_bytes e u))
      → (k < u → Writes n (varint_bytes e u))
      → Writes (if leb u k then m else n) (varint_bytes e u)
  below k hm hn = Writes-if (leb u k) (λ h. hm (leb→le u k h)) (λ h. hn (leb_false→lt u k h))

-- The variable-length encoder of every width writes exactly the documented format of every value
-- that fits its width, in both byte orders and on every writer whose position is not past its end.
pub varint_encode-Writes :
    (e : Endian) (t : UInt) (u : ℕ)
    → u < 256 ^ size_in_bytes t
    → Writes (varint_encode e t u) (varint_bytes e u)
unfolding varint_encode encode_unsigned encode_by_tags
varint_encode-Writes e u16 u h = below e u 250 (single e u) (λ a. tagged_two e u a (omega arith))
varint_encode-Writes e u32 u h =
    below e u 250 (single e u)
      (λ a. below e u (max_of 2) (tagged_two e u a) (λ b. tagged_four e u b (omega arith)))
varint_encode-Writes e u64 u h = below e u 250 (single e u) (λ a.
    below e u (max_of 2) (tagged_two e u a)
      (λ b. below e u (max_of 4) (tagged_four e u b) (λ c. tagged_eight e u c (omega arith))))
varint_encode-Writes e u128 u h = below e u 250 (single e u) (λ a.
    below e u (max_of 2) (tagged_two e u a) (λ b.
      below e u (max_of 4) (tagged_four e u b)
        (λ c. below e u (max_of 8) (tagged_eight e u c) (λ d. tagged_sixteen e u d (omega arith)))))

-- `size_of` of the variable-length encoding is the length of the documented format, for every value
-- that fits the width.
pub varint_size_of-length :
    (e : Endian) (t : UInt) (u : ℕ)
    → u < 256 ^ size_in_bytes t
    → varint_size_of t u ≡ length (varint_bytes e u)
unfolding varint_size_of varint_bytes
varint_size_of-length e u16 u h = ground (arith, length-to_bytes e 2 u)
varint_size_of-length e u32 u h = ground (arith, length-to_bytes e 2 u, length-to_bytes e 4 u)
varint_size_of-length e u64 u h =
    ground (arith, length-to_bytes e 2 u, length-to_bytes e 4 u, length-to_bytes e 8 u)
varint_size_of-length e u128 u h = ground (
  arith,
  length-to_bytes e 2 u,
  length-to_bytes e 4 u,
  length-to_bytes e 8 u,
  length-to_bytes e 16 u,
)

-- Either encoding writes its bytes, and `size_of` counts them.
pub encode-Writes :
    (i : IntEncoding) (e : Endian) (t : UInt) (v : ℕ)
    → v < 256 ^ size_in_bytes t
    → Writes (encode i e t v) (int_bytes i e t v)
unfolding encode fix_encode
encode-Writes fix_int e t v h = Writes-write (to_bytes e (size_in_bytes t) v)
encode-Writes var_int e t v h = varint_encode-Writes e t v h

pub size_of-length :
    (i : IntEncoding) (e : Endian) (t : UInt) (v : ℕ)
    → v < 256 ^ size_in_bytes t
    → size_of i t v ≡ length (int_bytes i e t v)
unfolding size_of fix_size_of
size_of-length fix_int e t v h = sym (length-to_bytes e (size_in_bytes t) v)
size_of-length var_int e t v h = varint_size_of-length e t v h

-- No integer takes more than a tag byte and 16 bytes.
pub size_of-small : (i : IntEncoding) (t : UInt) (v : ℕ) → size_of i t v ≤ 17
unfolding size_of fix_size_of varint_size_of
size_of-small fix_int u16 v = omega arith
size_of-small fix_int u32 v = omega arith
size_of-small fix_int u64 v = omega arith
size_of-small fix_int u128 v = omega arith
size_of-small var_int u16 v = ground arith
size_of-small var_int u32 v = ground arith
size_of-small var_int u64 v = ground arith
size_of-small var_int u128 v = ground arith
