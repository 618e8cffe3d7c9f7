-- ===== src/Impls/Arrays/Laws.antt =====
-- The laws of `[T; N]` of wincode/src/schema/impls.rs as a schema.
use mathlib.Core.Path.{subst}
use wincode.Prelude.{
  ℕ, ◌*◌, ◌≤◌, ◌≡◌, refl, sym, ap, ◌∙◌, Bool, true, false, some, List, length, All, ok, max_usize,
  arith,
}
use wincode.Reader.Reads.{Reads}
use wincode.Writer.Writes.{Writes, Writes-write, Writes-window, Writes-cast}
use wincode.TypeMeta.{TypeMeta, static, dynamic, array_meta}
use wincode.Schema.{Schema}
use wincode.Schema.Laws.{Laws}
use wincode.Elements.{write_slice_t, slice_to_memory, slice_from_memory, decode_into_slice_t}
use wincode.Elements.Bytes.{
  concat_bytes, length-concat_bytes, slice_to_memory-concat, slice_from_memory-concat,
}
use wincode.Elements.Reading.{decode_into_slice_t-Reads, decode_into_slice_t-SafeFor}
use wincode.Elements.Writing.{write_items-Writes, fold_sizes-length}
use wincode.Impls.Arrays.{array_size_by_meta, array_write_by_meta, array_schema}

-- A static array has static elements.
array_static :
    (n : ℕ) (t : TypeMeta) (size : ℕ) (z : Bool)
    → array_meta n t ≡ static size z
    → (k : ℕ) × (t ≡ static k z) × (n * k ≡ size)
unfolding array_meta
array_static n (static k y) size z e = (k, cc, cc)
array_static n dynamic size z e = absurd cc

module _ {ℓ} {A : Type ℓ} (s : Schema A) {Valid : A → Type 0} {bytes : A → List ℕ}
    (laws : Laws s Valid bytes) (n : ℕ) where
  abbrev pub elements : List A → List ℕ
  elements vs = concat_bytes bytes vs

  abbrev pub IsArray : List A → Type 0
  IsArray vs = All Valid vs × (length vs ≡ n) × (length (elements vs) ≤ max_usize)

  module _ (vs : List A) (valid : IsArray vs) where
    static_length :
        (size : ℕ) (z : Bool)
        → ((k : ℕ) (y : Bool)
            → s.write_meta ≡ static k y
            → (a : A) → Valid a
            → length (bytes a) ≡ k)
        → array_meta n s.write_meta ≡ static size z
        → length (elements vs) ≡ size
    static_length size z fixed e =
        let (k, is_static, product) = array_static n s.write_meta size z e in
        length-concat_bytes bytes Valid k (fixed k z is_static) vs valid.0
        ∙ ap (λ m. m * k) valid.1
        ∙ product

    read_length :
        (size : ℕ) (z : Bool)
        → array_meta n s.read_meta ≡ static size z
        → length (elements vs) ≡ size
    read_length size z e =
        let (k, is_static, product) = array_static n s.read_meta size z e in
        length-concat_bytes bytes Valid k (laws.read_static k z is_static) vs valid.0
        ∙ ap (λ m. m * k) valid.1
        ∙ product

    array_sizes :
        (t : TypeMeta)
        → array_meta n s.write_meta ≡ t
        → array_size_by_meta s t vs ≡ ok (length (elements vs))
    unfolding array_size_by_meta
    array_sizes (static size z) e = ap ok (sym (static_length size z laws.write_static e))
    array_sizes dynamic e =
        let small : length (elements vs) ≤ max_usize = valid.2 in
        fold_sizes-length s laws 0 vs valid.0 (omega arith) ∙ ap ok (omega arith)

    raw-Writes :
        (k : ℕ) → s.write_meta ≡ static k true → Writes (write_slice_t s.to_memory vs) (elements vs)
    unfolding write_slice_t
    raw-Writes k e =
        let (f, is_raw, same) = laws.write_raw k e in
        rw (is_raw, write_slice_t)
          (Writes-cast (slice_to_memory-concat bytes Valid f same vs valid.0) (Writes-write _))

    array_write_by_meta-Writes :
        (t : TypeMeta)
        → array_meta n s.write_meta ≡ t
        → Writes (array_write_by_meta s t vs) (elements vs)
    unfolding array_write_by_meta
    array_write_by_meta-Writes (static size true) e =
        let (k, is_static, product) = array_static n s.write_meta size true e in
        raw-Writes k is_static
    array_write_by_meta-Writes (static size false) e =
        Writes-window size (sym (static_length size false laws.write_static e))
          (write_items-Writes s laws vs valid.0)
    array_write_by_meta-Writes dynamic e = write_items-Writes s laws vs valid.0

    array_reads : Reads (decode_into_slice_t s n) (elements vs) vs
    array_reads =
        subst (λ m. Reads (decode_into_slice_t s m) (elements vs) vs) valid.1
          (decode_into_slice_t-Reads s laws vs valid.0 valid.2)

  array_schema-to_memory :
      (size : ℕ)
      → array_meta n s.write_meta ≡ static size true
      → (f : List A → List ℕ) × ((array_schema s n).to_memory ≡ some f)
        × ((vs : List A) → IsArray vs → f vs ≡ elements vs)
  unfolding array_schema
  array_schema-to_memory size e =
      let (k, is_static, product) = array_static n s.write_meta size true e in
      let (f, is_raw, same) = laws.write_raw k is_static in
      (
        slice_to_memory f,
        rw (is_raw, array_schema) refl,
        λ vs h. slice_to_memory-concat bytes Valid f same vs h.0,
      )

  array_schema-from_memory :
      (size : ℕ)
      → array_meta n s.read_meta ≡ static size true
      → (f : List ℕ → List A) × ((array_schema s n).from_memory ≡ some f)
        × (n * s.mem_size ≡ size)
        × ((vs : List A) → IsArray vs → f (elements vs) ≡ vs)
  unfolding array_schema
  array_schema-from_memory size e =
      let (k, is_static, product) = array_static n s.read_meta size true e in
      let (f, is_raw, same, back) = laws.read_raw k is_static in
      let fixed : (a : A) → Valid a → length (bytes a) ≡ s.mem_size =
        λ a h. laws.read_static k true is_static a h ∙ sym same in
      (
        slice_from_memory f s.mem_size n,
        rw (is_raw, array_schema) refl,
        ap (λ m. n * m) same ∙ product,
        λ vs h.
            subst (λ m. slice_from_memory f s.mem_size m (elements vs) ≡ vs) h.1
              (slice_from_memory-concat bytes Valid f s.mem_size fixed back vs h.0),
      )

  -- Over elements that keep the schema laws, `[T; N]` keeps them too, for arrays of `n` such
  -- elements whose encoding is within `usize`: on the path that copies memory, on the path with a
  -- trusted window and on the loop, it writes the elements in order, announces that size, reads the
  -- array back, and its static size and zero-copy flag are sound.
  pub array_schema-Laws : Laws (array_schema s n) IsArray elements
  unfolding array_schema
  array_schema-Laws = record {
    writes = λ vs h. array_write_by_meta-Writes vs h (array_meta n s.write_meta) refl;
    sizes = λ vs h. array_sizes vs h (array_meta n s.write_meta) refl;
    reads = array_reads;
    safe = decode_into_slice_t-SafeFor s laws n;
    write_static = λ size z e vs h. static_length vs h size z laws.write_static e;
    read_static = λ size z e vs h. read_length vs h size z e;
    write_raw = array_schema-to_memory;
    read_raw = array_schema-from_memory;
  }
