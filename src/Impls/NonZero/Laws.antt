-- ===== src/Impls/NonZero/Laws.antt =====
-- The laws of the integers other than zero, of wincode/src/schema/impls.rs, as schemas.
use wincode.Prelude.{ℕ, ◌≡◌, Bool, true, false, List, []}
use wincode.Reader.{Read}
use wincode.Reader.Reads.{Reads, Reads-pure}
use wincode.Reader.Safe.{SafeStatic, SafeStatic-if, SafeStatic-pure, SafeStatic-raise}
use wincode.TypeMeta.{TypeMeta, static, dynamic}
use wincode.Schema.{Schema}
use wincode.Schema.Laws.{Laws, SafeFor}
use wincode.Schema.Derived.{SafeFor-check, Reads-check}
use wincode.Impls.NonZero.{nonzero_meta, nonzero_new, nonzero_schema}

nonzero_meta-static :
    (t : TypeMeta) (size : ℕ) (z : Bool)
    → nonzero_meta t ≡ static size z
    → (y : Bool) × (t ≡ static size y) × (z ≡ false)
unfolding nonzero_meta
nonzero_meta-static (static k y) size z e = (y, cc, cc)
nonzero_meta-static dynamic size z e = absurd cc

nonzero_meta-SafeFor {ℓ} :
    {A : Type ℓ} (m : Read A) (t : TypeMeta) → SafeFor t m → SafeFor (nonzero_meta t) m
unfolding nonzero_meta
nonzero_meta-SafeFor m (static k z) h = h
nonzero_meta-SafeFor m dynamic h = h

module _ {ℓ} {A : Type ℓ} (is_zero : A → Bool) (s : Schema A) {Valid : A → Type 0}
    {bytes : A → List ℕ} (laws : Laws s Valid bytes) where
  -- A value of the primitive type that is not zero.
  abbrev pub IsNonZero : A → Type 0
  IsNonZero a = Valid a × (is_zero a ≡ false)

  nonzero_new-SafeStatic : (a : A) → SafeStatic 0 (nonzero_new is_zero s a)
  unfolding nonzero_new
  nonzero_new-SafeStatic a = SafeStatic-if _ (SafeStatic-raise 0 _) (SafeStatic-pure a)

  nonzero_new-Reads : (a : A) → is_zero a ≡ false → Reads (nonzero_new is_zero s a) [] a
  unfolding nonzero_new
  nonzero_new-Reads a e = rw (e, nonzero_new) (Reads-pure a)

  pub nonzero_schema-Laws : Laws (nonzero_schema is_zero s) IsNonZero bytes
  unfolding nonzero_schema
  nonzero_schema-Laws = record {
    writes = λ a h. laws.writes a h.0;
    sizes = λ a h. laws.sizes a h.0;
    reads = λ a h. Reads-check _ (laws.reads a h.0) (nonzero_new-Reads a h.1);
    safe =
        nonzero_meta-SafeFor _ s.read_meta
          (SafeFor-check s.read_meta _ _ laws.safe nonzero_new-SafeStatic);
    write_static = λ size z e a h. laws.write_static size z e a h.0;
    read_static = λ size z e a h.
        let (y, p, q) = nonzero_meta-static s.read_meta size z e in laws.read_static size y p a h.0;
    write_raw = λ size e. let (f, p, q) = laws.write_raw size e in (f, p, λ a h. q a h.0);
    read_raw = λ size e. let (y, p, q) = nonzero_meta-static s.read_meta size true e in absurd cc;
  }
