-- ===== src/IntEncoding/RoundTrip.antt =====
-- The decoders of wincode/src/schema/int_encoding.rs read back what the encoders write, and are
-- memory safe on every input.
use wincode.Prelude.{ℕ, ◌^◌, ◌≤◌, ◌<◌, sym, inl, inr, List, [], ◌∷◌, le→leb, leb-cases, arith}
use wincode.Reader.Reads.{
  Reads, Reads-pure, Reads-bind, Reads-map, Reads-byte, Reads-copy_length, Reads-cast, Reads-value,
}
use wincode.Reader.Safe.{
  SafeStatic, SafeDynamic, SafeStatic-copy, SafeStatic-byte, SafeStatic-pure, SafeStatic-bind,
  SafeStatic-cast, SafeStatic-dynamic, SafeDynamic-bind, SafeDynamic-pure, SafeDynamic-raise,
  SafeDynamic-if,
}
use wincode.IntEncoding.{
  Endian, UInt, u16, u32, u64, u128, size_in_bytes, max_of, to_bytes, from_bytes, fix_decode,
  endian_bytes, decode_tag, varint_decode, IntEncoding, fix_int, var_int, decode,
}
use wincode.IntEncoding.Bytes.{length-to_bytes, from_bytes-to_bytes}
use wincode.IntEncoding.Format.{
  varint_bytes, int_bytes, bytes_single, bytes_two, bytes_four, bytes_eight, bytes_sixteen,
}

module _ (e : Endian) (size v : ℕ) (h : v < 256 ^ size) where
  pub fix_decode-Reads : Reads (fix_decode e size) (to_bytes e size v) v
  unfolding fix_decode
  fix_decode-Reads =
      Reads-value (from_bytes-to_bytes e size v h)
        (Reads-map (from_bytes e) (Reads-copy_length size _ (length-to_bytes e size v)))

  payload : Reads (endian_bytes e size) (to_bytes e size v) v
  unfolding endian_bytes
  payload =
      Reads-value (from_bytes-to_bytes e size v h)
        (Reads-map (from_bytes e) (Reads-copy_length size _ (length-to_bytes e size v)))

module _ (e : Endian) (t : UInt) where
  -- The tag byte and then its payload.
  after_tag :
      (tag : ℕ) {bs : List ℕ} {v : ℕ}
      → Reads (decode_tag e t tag) bs v
      → Reads (varint_decode e t) (tag ∷ bs) v
  unfolding varint_decode
  after_tag tag h = Reads-bind (decode_tag e t) (Reads-byte tag) h

  one_byte :
      (v : ℕ)
      → v ≤ 250
      → Reads (decode_tag e t v) [] v
      → Reads (varint_decode e t) (varint_bytes e v) v
  one_byte v h r = Reads-cast (sym (bytes_single e v h)) (after_tag v r)

single : (e : Endian) (t : UInt) (v : ℕ) → v ≤ 250 → Reads (varint_decode e t) (varint_bytes e v) v
unfolding decode_tag
single e u16 v h = one_byte e u16 v h (rw (le→leb v 250 h) (Reads-pure v))
single e u32 v h = one_byte e u32 v h (rw (le→leb v 250 h) (Reads-pure v))
single e u64 v h = one_byte e u64 v h (rw (le→leb v 250 h) (Reads-pure v))
single e u128 v h = one_byte e u128 v h (rw (le→leb v 250 h) (Reads-pure v))

two :
    (e : Endian) (t : UInt) (v : ℕ)
    → 250 < v
    → v ≤ max_of 2
    → Reads (varint_decode e t) (varint_bytes e v) v
unfolding decode_tag
two e u16 v h k = rw (bytes_two e v h k) (after_tag e u16 251 (payload e 2 v (omega arith)))
two e u32 v h k = rw (bytes_two e v h k) (after_tag e u32 251 (payload e 2 v (omega arith)))
two e u64 v h k = rw (bytes_two e v h k) (after_tag e u64 251 (payload e 2 v (omega arith)))
two e u128 v h k = rw (bytes_two e v h k) (after_tag e u128 251 (payload e 2 v (omega arith)))

four :
    (e : Endian) (t : UInt) (v : ℕ)
    → max_of 2 < v
    → v ≤ max_of 4
    → v < 256 ^ size_in_bytes t
    → Reads (varint_decode e t) (varint_bytes e v) v
unfolding decode_tag
four e u16 v h k f = absurd (omega arith)
four e u32 v h k f = rw (bytes_four e v h k) (after_tag e u32 252 (payload e 4 v (omega arith)))
four e u64 v h k f = rw (bytes_four e v h k) (after_tag e u64 252 (payload e 4 v (omega arith)))
four e u128 v h k f = rw (bytes_four e v h k) (after_tag e u128 252 (payload e 4 v (omega arith)))

eight :
    (e : Endian) (t : UInt) (v : ℕ)
    → max_of 4 < v
    → v ≤ max_of 8
    → v < 256 ^ size_in_bytes t
    → Reads (varint_decode e t) (varint_bytes e v) v
unfolding decode_tag
eight e u16 v h k f = absurd (omega arith)
eight e u32 v h k f = absurd (omega arith)
eight e u64 v h k f = rw (bytes_eight e v h k) (after_tag e u64 253 (payload e 8 v (omega arith)))
eight e u128 v h k f = rw (bytes_eight e v h k) (after_tag e u128 253 (payload e 8 v (omega arith)))

sixteen :
    (e : Endian) (t : UInt) (v : ℕ)
    → max_of 8 < v
    → v < 256 ^ size_in_bytes t
    → Reads (varint_decode e t) (varint_bytes e v) v
unfolding decode_tag
sixteen e u16 v h f = absurd (omega arith)
sixteen e u32 v h f = absurd (omega arith)
sixteen e u64 v h f = absurd (omega arith)
sixteen e u128 v h f = rw (bytes_sixteen e v h) (after_tag e u128 254 (payload e 16 v f))

-- The variable-length decoder of every width, in both byte orders, reads the format of every value
-- that fits its width back as that value, on every reader, and takes exactly those bytes.
pub varint_decode-Reads :
    (e : Endian) (t : UInt) (v : ℕ)
    → v < 256 ^ size_in_bytes t
    → Reads (varint_decode e t) (varint_bytes e v) v
varint_decode-Reads e t v f = elim (leb-cases v 250) [
  | inl (h, _) ↦ single e t v h
  | inr (a, _) ↦ elim (leb-cases v (max_of 2)) [
    | inl (h, _) ↦ two e t v a h
    | inr (b, _) ↦ elim (leb-cases v (max_of 4)) [
      | inl (h, _) ↦ four e t v b h f
      | inr (c, _) ↦ elim (leb-cases v (max_of 8)) [
        | inl (h, _) ↦ eight e t v c h f
        | inr (d, _) ↦ sixteen e t v d f
      ]
    ]
  ]
]

pub decode-Reads :
    (i : IntEncoding) (e : Endian) (t : UInt) (v : ℕ)
    → v < 256 ^ size_in_bytes t
    → Reads (decode i e t) (int_bytes i e t v) v
unfolding decode
decode-Reads fix_int e t v h = fix_decode-Reads e (size_in_bytes t) v h
decode-Reads var_int e t v h = varint_decode-Reads e t v h

pub fix_decode-SafeStatic : (e : Endian) (size : ℕ) → SafeStatic size (fix_decode e size)
unfolding fix_decode
fix_decode-SafeStatic e size =
    SafeStatic-cast (omega arith)
      (SafeStatic-bind {k = 0} (SafeStatic-copy size) (λ bs. SafeStatic-pure _))

endian_bytes-SafeDynamic : (e : Endian) (size : ℕ) → SafeDynamic (endian_bytes e size)
unfolding endian_bytes
endian_bytes-SafeDynamic e size =
    SafeDynamic-bind (SafeStatic-dynamic (SafeStatic-copy size)) (λ bs. SafeDynamic-pure _)

ruleset decoder_rules =
    (SafeDynamic-pure, SafeDynamic-raise, SafeDynamic-if, endian_bytes-SafeDynamic)

decode_tag-SafeDynamic : (e : Endian) (t : UInt) (b : ℕ) → SafeDynamic (decode_tag e t b)
unfolding decode_tag
decode_tag-SafeDynamic e u16 b = search decoder_rules
decode_tag-SafeDynamic e u32 b = search decoder_rules
decode_tag-SafeDynamic e u64 b = search decoder_rules depth 8
decode_tag-SafeDynamic e u128 b = search decoder_rules depth 9

pub varint_decode-SafeDynamic : (e : Endian) (t : UInt) → SafeDynamic (varint_decode e t)
unfolding varint_decode
varint_decode-SafeDynamic e t =
    SafeDynamic-bind (SafeStatic-dynamic SafeStatic-byte) (decode_tag-SafeDynamic e t)

pub decode-SafeStatic : (e : Endian) (t : UInt) → SafeStatic (size_in_bytes t) (decode fix_int e t)
unfolding decode
decode-SafeStatic e t = fix_decode-SafeStatic e (size_in_bytes t)

-- Decoding never leaves the input, in either encoding.
pub decode-SafeDynamic : (i : IntEncoding) (e : Endian) (t : UInt) → SafeDynamic (decode i e t)
unfolding decode
decode-SafeDynamic fix_int e t = SafeStatic-dynamic (fix_decode-SafeStatic e (size_in_bytes t))
decode-SafeDynamic var_int e t = varint_decode-SafeDynamic e t
