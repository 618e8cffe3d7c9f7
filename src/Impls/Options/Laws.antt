-- ===== src/Impls/Options/Laws.antt =====
-- The laws of `Option<T>` of wincode/src/schema/impls.rs as a schema.
use wincode.Prelude.{
  ℕ, ◌+◌, ◌≤◌, ◌≡◌, refl, ap, ◌∙◌, Option, none, some, List, [], ◌∷◌, length, ok, max_usize,
  wrapping_add-fits, arith,
}
use wincode.Reader.{◌>>=◌, take_byte}
use wincode.Reader.Reads.{Reads, Reads-pure, Reads-bind, Reads-map, Reads-byte}
use wincode.Reader.Safe.{
  SafeDynamic, SafeDynamic-bind, SafeDynamic-pure, SafeDynamic-raise, SafeDynamic-if,
  SafeStatic-byte, SafeStatic-dynamic,
}
use wincode.Writer.Writes.{Writes, Writes-write, Writes-seq}
use wincode.Schema.{Schema}
use wincode.Schema.Laws.{Laws, SafeFor-SafeDynamic}
use wincode.Impls.Options.{option_from_variant, option_size_of, option_write, option_schema}

module _ {ℓ} {A : Type ℓ} (s : Schema A) {Valid : A → Type 0} {bytes : A → List ℕ}
    (laws : Laws s Valid bytes) where
  abbrev pub option_bytes : Option A → List ℕ
  option_bytes none = 0 ∷ []
  option_bytes (some v) = 1 ∷ bytes v

  abbrev pub IsOption : Option A → Type 0
  IsOption none = Unit
  IsOption (some v) = Valid v × (1 + length (bytes v) ≤ max_usize)

  option_write-Writes : (o : Option A) → IsOption o → Writes (option_write s o) (option_bytes o)
  unfolding option_write
  option_write-Writes none h = Writes-write (0 ∷ [])
  option_write-Writes (some v) (h, _) = Writes-seq (Writes-write (1 ∷ [])) (laws.writes v h)

  option_sizes : (o : Option A) → IsOption o → option_size_of s o ≡ ok (length (option_bytes o))
  unfolding option_size_of
  option_sizes none h = refl
  option_sizes (some v) (h, k) =
      rw (laws.sizes v h) (ap ok (wrapping_add-fits 1 (length (bytes v)) k ∙ omega arith))

  after_variant :
      (o : Option A) → IsOption o → Reads (take_byte >>= option_from_variant s) (option_bytes o) o
  unfolding option_from_variant
  after_variant none h = Reads-bind (option_from_variant s) (Reads-byte 0) (Reads-pure none)
  after_variant (some v) (h, _) =
      Reads-bind (option_from_variant s) (Reads-byte 1) (Reads-map some (laws.reads v h))

  option_safe : (variant : ℕ) → SafeDynamic (option_from_variant s variant)
  unfolding option_from_variant
  option_safe variant = SafeDynamic-if _ (SafeDynamic-pure none) (
      SafeDynamic-if _
        (SafeDynamic-bind (SafeFor-SafeDynamic s.read_meta laws.safe) (λ v. SafeDynamic-pure _))
        (SafeDynamic-raise _))

  -- Over a type that keeps the schema laws, `Option<T>` keeps them too, for values whose encoding
  -- is within `usize`: a byte 0 or 1 and the value, its announced size, reading back, and memory
  -- safety on every input.
  pub option_schema-Laws :
      (size_in_memory : ℕ) → Laws (option_schema s size_in_memory) IsOption option_bytes
  unfolding option_schema
  option_schema-Laws size_in_memory = record {
    writes = option_write-Writes;
    sizes = option_sizes;
    reads = after_variant;
    safe = SafeDynamic-bind (SafeStatic-dynamic SafeStatic-byte) option_safe;
    write_static = λ size z e. cc;
    read_static = λ size z e. cc;
    write_raw = λ size e. absurd cc;
    read_raw = λ size e. absurd cc;
  }
