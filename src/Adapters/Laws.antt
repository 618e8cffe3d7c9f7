-- ===== src/Adapters/Laws.antt =====
-- `FromInto` and `DefaultOnEmptyRead` of wincode/src/schema/adapter.rs.
use wincode.Prelude.{
  ℕ, ◌<◌, ◌≡◌, ◌≢◌, refl, sym, ap, ◌∙◌, false, List, length, Outcome, ok, err, fault, arith,
}
use wincode.Error.{ReadError, size_limit_read}
use wincode.Reader.{Reader, Read, pure, continue, ◌>>=◌, copy_into_slice}
use wincode.Reader.View.{view, IsChecked, copy-out_of_bounds}
use wincode.Reader.Reads.{Reads, Reads-map, Reads-value}
use wincode.Reader.Safe.{After, done, failed, SafeStatic-pure}
use wincode.TypeMeta.{TypeMeta, static, dynamic, keep_zero_copy}
use wincode.Schema.{Schema}
use wincode.Schema.Laws.{Laws, SafeFor-SafeDynamic}
use wincode.Schema.Derived.{SafeFor-check}
use wincode.Impls.Boxes.Laws.{keep_zero_copy-static, keep_zero_copy-SafeFor, never_raw}
use wincode.Adapters.{
  from_into_size_by_meta, from_into_schema, default_on_empty, default_on_empty_read,
  default_on_empty_schema,
}

module _ {W T : Type 0} (into : T → W) (from : W → T) (wire : Schema W) {Valid : W → Type 0}
    {bytes : W → List ℕ} (laws : Laws wire Valid bytes) where
  abbrev pub wire_bytes : T → List ℕ
  wire_bytes t = bytes (into t)

  from_into_size :
      (t : TypeMeta)
      → keep_zero_copy false wire.write_meta ≡ t
      → (a : T) → Valid (into a)
      → from_into_size_by_meta into from wire t a ≡ ok (length (wire_bytes a))
  unfolding from_into_size_by_meta
  from_into_size (static size z) e a h =
      let (y, p, q) = keep_zero_copy-static wire.write_meta size z e in
      ap ok (sym (laws.write_static size y p (into a) h))
  from_into_size dynamic e a h = laws.sizes (into a) h

  -- A target whose wire value can be encoded and leads back to it.
  abbrev pub IsTarget : T → Type 0
  IsTarget t = Valid (into t) × (from (into t) ≡ t)

  -- Over a wire type that keeps the schema laws, `FromInto` keeps them too, on the targets whose
  -- wire value can be encoded and leads back to them: it has the wire type's format, announces its
  -- size, and reads back through the conversion.
  pub from_into_schema-Laws :
      (size_in_memory : ℕ)
      → Laws (from_into_schema into from wire size_in_memory) IsTarget wire_bytes
  unfolding from_into_schema
  from_into_schema-Laws size_in_memory = record {
    writes = λ t h. laws.writes (into t) h.0;
    sizes = λ t h. from_into_size (keep_zero_copy false wire.write_meta) refl t h.0;
    reads = λ t h. Reads-value h.1 (Reads-map from (laws.reads (into t) h.0));
    safe =
        SafeFor-check (keep_zero_copy false wire.read_meta) wire.get (λ w. pure (from w))
          (keep_zero_copy-SafeFor wire.get wire.read_meta laws.safe) (λ w. SafeStatic-pure _);
    write_static = λ size z e t h.
        let (y, p, q) = keep_zero_copy-static wire.write_meta size z e in
        laws.write_static size y p (into t) h.0;
    read_static = λ size z e t h.
        let (y, p, q) = keep_zero_copy-static wire.read_meta size z e in
        laws.read_static size y p (into t) h.0;
    write_raw = λ size e. absurd (never_raw wire.write_meta size e);
    read_raw = λ size e. absurd (never_raw wire.read_meta size e);
  }

module _ {ℓ} {A : Type ℓ} (default : A) (s : Schema A) where
  default_read-Reads :
      (a : A) (bs : List ℕ) → Reads s.get bs a → Reads (default_on_empty_read default s) bs a
  unfolding default_on_empty_read default_on_empty
  default_read-Reads a bs h = record {
    at = λ r rest e. rw (h.at r rest e, default_on_empty_read) refl;
  }

  error-not_fault : (x : ReadError) → default_on_empty default s (err x) ≢ fault
  unfolding default_on_empty
  error-not_fault x e = grind arith

  not_fault :
      {r : Reader} {P : ℕ → Type 0} {p : Outcome ReadError A × Reader}
      → After P r p
      → default_on_empty default s p.0 ≢ fault
  unfolding default_on_empty
  not_fault (done a n q le) e = cc
  not_fault (failed x r') e = error-not_fault x e

  -- Under any configuration of the format, over a type that keeps the schema laws,
  -- `DefaultOnEmptyRead` reads every encoding of that type as its value, and on any checked reader
  -- it comes to a value or an error.
  pub default_on_empty_schema-Reads :
      {Valid : A → Type 0} {bytes : A → List ℕ}
      → Laws s Valid bytes
      → ((a : A) → Valid a → Reads (default_on_empty_schema default s).get (bytes a) a)
        × ((r : Reader) → IsChecked r → ((default_on_empty_schema default s).get r).0 ≢ fault)
  unfolding default_on_empty_schema default_on_empty_read
  default_on_empty_schema-Reads laws = (
    λ a h. default_read-Reads a _ (laws.reads a h),
    λ r c. not_fault ((SafeFor-SafeDynamic s.read_meta laws.safe).at r c),
  )

  -- Where a type starts by copying a number of bytes that a checked reader does not have,
  -- `DefaultOnEmptyRead` reads the default.
  pub default_on_empty_schema-short :
      (n : ℕ) (f : List ℕ → Read A) (r : Reader)
      → s.get ≡ (copy_into_slice n >>= f)
      → IsChecked r
      → length (view r) < n
      → ((default_on_empty_schema default s).get r).0 ≡ ok default
  unfolding default_on_empty_schema default_on_empty_read default_on_empty
  default_on_empty_schema-short n f r e c h =
      let answer : (s.get r).0 ≡ err (size_limit_read n) =
        ap (λ m. (m r).0) e ∙ failing (copy_into_slice n r) (copy-out_of_bounds n r c h) in
      ap (default_on_empty default s) answer
    where
      failing :
          (p : Outcome ReadError (List ℕ) × Reader)
          → p.0 ≡ err (size_limit_read n)
          → (continue p.0 f p.1).0 ≡ err (size_limit_read n)
      failing p e = rw e refl
