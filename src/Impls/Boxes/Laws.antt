-- ===== src/Impls/Boxes/Laws.antt =====
-- The laws of the heap containers of wincode/src/schema/impls.rs as schemas.
use wincode.Prelude.{ℕ, ◌≡◌, Bool, true, false, List}
use wincode.Reader.{Read}
use wincode.TypeMeta.{TypeMeta, static, dynamic, keep_zero_copy}
use wincode.Schema.{Schema}
use wincode.Schema.Laws.{Laws, SafeFor}
use wincode.Impls.Boxes.{heap_schema}

pub keep_zero_copy-static :
    (t : TypeMeta) (size : ℕ) (z : Bool)
    → keep_zero_copy false t ≡ static size z
    → (y : Bool) × (t ≡ static size y) × (z ≡ false)
unfolding keep_zero_copy
keep_zero_copy-static (static k true) size z e = (true, cc, cc)
keep_zero_copy-static (static k false) size z e = (false, cc, cc)
keep_zero_copy-static dynamic size z e = absurd cc

pub keep_zero_copy-SafeFor {ℓ} :
    {A : Type ℓ} (m : Read A) (t : TypeMeta) → SafeFor t m → SafeFor (keep_zero_copy false t) m
unfolding keep_zero_copy
keep_zero_copy-SafeFor m (static k z) h = h
keep_zero_copy-SafeFor m dynamic h = h

pub never_raw : (t : TypeMeta) (size : ℕ) → keep_zero_copy false t ≡ static size true → ⊥
never_raw t size e = let (y, p, q) = keep_zero_copy-static t size true e in cc

module _ {ℓ} {A : Type ℓ} (s : Schema A) {Valid : A → Type 0} {bytes : A → List ℕ}
    (laws : Laws s Valid bytes) where
  -- Over a type that keeps the schema laws, a heap container of it keeps them too with the same
  -- values and format, and is never zero-copy.
  pub heap_schema-Laws : (pointer_size : ℕ) → Laws (heap_schema s pointer_size) Valid bytes
  unfolding heap_schema
  heap_schema-Laws pointer_size = record {
    writes = laws.writes;
    sizes = laws.sizes;
    reads = laws.reads;
    safe = keep_zero_copy-SafeFor s.get s.read_meta laws.safe;
    write_static = λ size z e.
        let (y, p, q) = keep_zero_copy-static s.write_meta size z e in laws.write_static size y p;
    read_static = λ size z e.
        let (y, p, q) = keep_zero_copy-static s.read_meta size z e in laws.read_static size y p;
    write_raw = λ size e. absurd (never_raw s.write_meta size e);
    read_raw = λ size e. absurd (never_raw s.read_meta size e);
  }
