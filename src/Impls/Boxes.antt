-- ===== src/Impls/Boxes.antt =====
-- `Box<T>`, `Rc<T>`, `Arc<T>` and `&T` of wincode/src/schema/impls.rs. A pointer is what it points to.
pub mod Laws
use wincode.Prelude.{ℕ, false, none}
use wincode.TypeMeta.{keep_zero_copy}
use wincode.Schema.{Schema}

-- `impl_heap_container!`; the pointer's own size in memory is the platform's.
unfoldable pub heap_schema {ℓ} : {A : Type ℓ} → Schema A → ℕ → Schema A
heap_schema s pointer_size = record {
  write_meta = keep_zero_copy false s.write_meta;
  read_meta = keep_zero_copy false s.read_meta;
  mem_size = pointer_size;
  to_memory = none;
  from_memory = none;
  size_of = s.size_of;
  write = s.write;
  get = s.get;
}
