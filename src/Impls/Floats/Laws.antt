-- ===== src/Impls/Floats/Laws.antt =====
-- The laws of the floating-point types of wincode/src/schema/impls.rs as schemas.
use wincode.Prelude.{ℕ, ◌^◌, ◌<◌, ◌≡◌, refl, sym, ap, ◌∙◌, true, List, ◌+◌, ok, arith}
use wincode.Reader.Reads.{Reads-map, Reads-value, Reads-copy_length}
use wincode.Reader.Safe.{SafeStatic-cast, SafeStatic-bind, SafeStatic-pure, SafeStatic-copy}
use wincode.Writer.Writes.{Writes-write}
use wincode.IntEncoding.{Endian, little, big, to_bytes, from_bytes, to_le_bytes, from_le_bytes}
use wincode.IntEncoding.Bytes.{length-to_bytes, from_bytes-to_bytes}
use wincode.Config.{Configuration}
use wincode.Schema.Laws.{Laws}
use wincode.Impls.Floats.{matches_little, float_schema}

-- Where the byte order is the platform's, the bits in memory are their encoding.
little_bytes :
    (e : Endian) (size v : ℕ)
    → matches_little e ≡ true
    → (to_le_bytes size v ≡ to_bytes e size v)
      × (from_le_bytes (to_bytes e size v) ≡ from_bytes e (to_bytes e size v))
unfolding matches_little to_bytes from_bytes
little_bytes little size v h = (refl, refl)
little_bytes big size v h = absurd cc

module _ (c : Configuration) (size : ℕ) where
  abbrev pub float_bytes : ℕ → List ℕ
  float_bytes bits = to_bytes c.byte_order size bits

  pub float_schema-Laws : Laws (float_schema c size) (λ bits. bits < 256 ^ size) float_bytes
  unfolding float_schema
  float_schema-Laws = record {
    writes = λ v h. Writes-write _;
    sizes = λ v h. ap ok (sym (length-to_bytes c.byte_order size v));
    reads = λ v h.
        Reads-value (from_bytes-to_bytes c.byte_order size v h)
          (Reads-map _ (Reads-copy_length size _ (length-to_bytes c.byte_order size v)));
    safe =
        SafeStatic-cast {j = size + 0} (omega arith)
          (SafeStatic-bind (SafeStatic-copy size) (λ bs. SafeStatic-pure _));
    write_static =
        λ k z e v h. let same : size ≡ k = cc in length-to_bytes c.byte_order size v ∙ same;
    read_static =
        λ k z e v h. let same : size ≡ k = cc in length-to_bytes c.byte_order size v ∙ same;
    write_raw = λ k e.
        let flag : matches_little c.byte_order ≡ true = cc in
        (to_le_bytes size, refl, λ v h. (little_bytes c.byte_order size v flag).0);
    read_raw = λ k e.
        let flag : matches_little c.byte_order ≡ true = cc in
        (
          from_le_bytes,
          refl,
          cc,
          λ v h.
              (little_bytes c.byte_order size v flag).1 ∙ from_bytes-to_bytes c.byte_order size v h,
        );
  }
