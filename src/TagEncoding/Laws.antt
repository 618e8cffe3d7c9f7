-- ===== src/TagEncoding/Laws.antt =====
-- The discriminants of wincode/src/schema/tag_encoding.rs: round trip, size, and refusals.
use wincode.Prelude.{
  inl, inr, leb-cases, ◌+◌, ◌≤◌, ℕ, ◌^◌, ◌<◌, ◌≡◌, length, append-nil, ok, le→leb, arith,
}
use wincode.Reader.Reads.{Reads, Reads-pure, Reads-bind, Reads-cast}
use wincode.Writer.Writes.{Writes}
use wincode.IntEncoding.{max_of, u16, u32, u64, u128}
use wincode.TypeMeta.{TypeMeta, static, dynamic}
use wincode.Schema.Laws.{SafeFor}
use wincode.Reader.Safe.{
  SafeStatic, SafeStatic-pure, SafeStatic-raise, SafeStatic-bind, SafeStatic-cast,
  SafeStatic-dynamic, SafeDynamic-bind,
}
use wincode.Config.{Configuration, IntType, u8, wide}
use wincode.Ints.{size_of_type, int_read}
use wincode.Ints.Laws.{bytes_of, int_write-Writes, int_size_of-length, int_read-Reads}
use wincode.TagEncoding.{
  try_from_u32, try_into_u32, lift_tag, size_of_from_u32, write_from_u32, read_tag,
}

-- A `u32` that the tag encoding can hold.
abbrev pub IsTag : IntType → ℕ → Type 0
IsTag t v = (v < 256 ^ size_of_type t) × (v < 2 ^ 32)

try_from-fits : (t : IntType) (v : ℕ) → IsTag t v → try_from_u32 t v ≡ ok v
unfolding try_from_u32
try_from-fits t v h = rw (le→leb v (max_of (size_of_type t)) (omega arith))

try_into-fits : (t : IntType) (v : ℕ) → IsTag t v → try_into_u32 t v ≡ ok v
unfolding try_into_u32
try_into-fits t v h = rw (le→leb v (max_of 4) (omega arith))

module _ (c : Configuration) (v : ℕ) (h : IsTag c.tag_encoding v) where
  pub write_from_u32-Writes : Writes (write_from_u32 c v) (bytes_of c c.tag_encoding v)
  unfolding write_from_u32
  write_from_u32-Writes =
      rw (try_from-fits c.tag_encoding v h, write_from_u32)
        (int_write-Writes c c.tag_encoding v h.0)

  pub size_of_from_u32-length : size_of_from_u32 c v ≡ ok (length (bytes_of c c.tag_encoding v))
  unfolding size_of_from_u32
  size_of_from_u32-length =
      rw (try_from-fits c.tag_encoding v h) (int_size_of-length c c.tag_encoding v h.0)

  pub read_tag-Reads : Reads (read_tag c) (bytes_of c c.tag_encoding v) v
  unfolding read_tag
  read_tag-Reads = Reads-cast (append-nil _) (
      Reads-bind (λ x. lift_tag (try_into_u32 c.tag_encoding x))
        (int_read-Reads c c.tag_encoding v h.0)
        (rw (try_into-fits c.tag_encoding v h) (Reads-pure v)))

  -- For a tag that is a `u32` and that the tag encoding can hold, the announced size is the length
  -- of its bytes, writing writes those bytes, and reading reads them back as the tag.
  pub tag-round_trip :
      (size_of_from_u32 c v ≡ ok (length (bytes_of c c.tag_encoding v)))
      × Writes (write_from_u32 c v) (bytes_of c c.tag_encoding v)
      × Reads (read_tag c) (bytes_of c c.tag_encoding v) v
  tag-round_trip = (size_of_from_u32-length, write_from_u32-Writes, read_tag-Reads)

module _ (c : Configuration) where
  lift_tag-SafeStatic : (x : ℕ) → SafeStatic 0 (lift_tag (try_into_u32 c.tag_encoding x))
  unfolding try_into_u32
  lift_tag-SafeStatic x = elim (leb-cases x (max_of 4)) [
    | inl (_, e) ↦ rw e (SafeStatic-pure x)
    | inr (_, e) ↦ rw e (SafeStatic-raise 0 _)
  ]

  -- Reading a tag is as safe as reading its integer, and takes as much.
  pub read_tag-SafeFor :
      (t : TypeMeta) → SafeFor t (int_read c c.tag_encoding) → SafeFor t (read_tag c)
  unfolding read_tag
  read_tag-SafeFor (static size z) h =
      SafeStatic-cast {j = size + 0} (omega arith) (SafeStatic-bind h lift_tag-SafeStatic)
  read_tag-SafeFor dynamic h = SafeDynamic-bind h (λ x. SafeStatic-dynamic (lift_tag-SafeStatic x))

  -- The discriminants of a type with at most 256 variants.
  pub few_variants : (v : ℕ) → v ≤ 255 → IsTag c.tag_encoding v
  few_variants v h = elim c.tag_encoding as (λ t. IsTag t v) [
    | u8 ↦ (omega arith, omega arith)
    | wide u16 ↦ (omega arith, omega arith)
    | wide u32 ↦ (omega arith, omega arith)
    | wide u64 ↦ (omega arith, omega arith)
    | wide u128 ↦ (omega arith, omega arith)
  ]
