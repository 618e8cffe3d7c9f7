-- ===== src/Schema/Laws.antt =====
-- What the documentation of `SchemaWrite` and `SchemaRead` in wincode/src/schema/mod.rs asks of an
-- implementation, and that it writes and reads one format.
use wincode.Prelude.{ℕ, ◌≡◌, true, Bool, List, length, some, ok}
use wincode.Reader.{Read}
use wincode.Reader.Reads.{Reads}
use wincode.Reader.Safe.{SafeStatic, SafeDynamic, SafeStatic-dynamic}
use wincode.Writer.Writes.{Writes}
use wincode.TypeMeta.{TypeMeta, static, dynamic}
use wincode.Schema.{Schema}

-- A read of a static size takes that many bytes, and may run in a trusted window.
abbrev pub SafeFor {ℓ} : {A : Type ℓ} → TypeMeta → Read A → Type ℓ
SafeFor (static size zero_copy) m = SafeStatic size m
SafeFor dynamic m = SafeDynamic m

-- `Valid` are the values that can be encoded, and `bytes` is their format.
pub record Laws {ℓ} {A : Type ℓ} (s : Schema A) (Valid : A → Type 0) (bytes : A → List ℕ)
    : Type ℓ where
  pub writes : (a : A) → Valid a → Writes (s.write a) (bytes a)
  pub sizes : (a : A) → Valid a → s.size_of a ≡ ok (length (bytes a))
  pub reads : (a : A) → Valid a → Reads s.get (bytes a) a
  pub safe : SafeFor s.read_meta s.get
  pub write_static :
      (size : ℕ) (z : Bool)
      → s.write_meta ≡ static size z
      → (a : A) → Valid a
      → length (bytes a) ≡ size
  pub read_static :
      (size : ℕ) (z : Bool)
      → s.read_meta ≡ static size z
      → (a : A) → Valid a
      → length (bytes a) ≡ size
  pub write_raw :
      (size : ℕ)
      → s.write_meta ≡ static size true
      → (f : A → List ℕ) × (s.to_memory ≡ some f) × ((a : A) → Valid a → f a ≡ bytes a)
  pub read_raw :
      (size : ℕ)
      → s.read_meta ≡ static size true
      → (f : List ℕ → A) × (s.from_memory ≡ some f)
        × (s.mem_size ≡ size)
        × ((a : A) → Valid a → f (bytes a) ≡ a)

module _ {ℓ} {A : Type ℓ} where
  pub SafeFor-SafeDynamic : (t : TypeMeta) {m : Read A} → SafeFor t m → SafeDynamic m
  SafeFor-SafeDynamic (static size z) h = SafeStatic-dynamic h
  SafeFor-SafeDynamic dynamic h = h
