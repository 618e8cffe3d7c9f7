-- ===== src/Schema.antt =====
-- wincode/src/schema/mod.rs: `SchemaWrite` and `SchemaRead` of one type, as one record.
pub mod Laws
pub mod Derived
use wincode.Prelude.{ℕ, Option, List, Outcome}
use wincode.Error.{WriteError}
use wincode.Reader.{Read}
use wincode.Writer.{Write}
use wincode.TypeMeta.{TypeMeta}

-- `SchemaWrite::TYPE_META`, `SchemaRead::TYPE_META`, `size_of::<T>()`, the bytes of a
-- value in memory and the value that bytes in memory are, where the type may be copied as plain
-- memory, and the methods.
pub record Schema {ℓ} (A : Type ℓ) : Type ℓ where
  pub write_meta : TypeMeta
  pub read_meta : TypeMeta
  pub mem_size : ℕ
  pub to_memory : Option (A → List ℕ)
  pub from_memory : Option (List ℕ → A)
  pub size_of : A → Outcome WriteError ℕ
  pub write : A → Write
  pub get : Read A
