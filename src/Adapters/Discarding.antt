-- ===== src/Adapters/Discarding.antt =====
-- `Discard` and `DiscardSeq` of wincode/src/schema/adapter.rs.
use wincode.Prelude.{
  ℕ, zero, suc, ◌+◌, ◌*◌, ◌≤◌, ◌≡◌, refl, sym, ap, false, List, [], ◌∷◌, All, length, length-append,
  ok, max_usize, arith,
}
use wincode.Reader.{pure}
use wincode.Reader.Reads.{Reads, Reads-pure, Reads-bind, Reads-map, Reads-trusted_seq}
use wincode.Reader.Safe.{
  SafeStatic, SafeStatic-bind, SafeStatic-pure, SafeStatic-cast, SafeStatic-dynamic,
  SafeStatic-trusted_seq, SafeDynamic, SafeDynamic-bind, SafeDynamic-pure,
}
use wincode.Writer.Writes.{Writes}
use wincode.TypeMeta.{TypeMeta, static, dynamic, keep_zero_copy}
use wincode.Config.{Configuration, LengthEncoding}
use wincode.SeqLen.Laws.{
  len_bytes, IsEncodable, write_len-Writes, write_bytes_needed-length, read_prealloc_check-Reads,
  read_prealloc_check-SafeDynamic,
}
use wincode.Schema.{Schema}
use wincode.Schema.Laws.{Laws, SafeFor}
use wincode.Schema.Derived.{SafeFor-check}
use wincode.Elements.Bytes.{concat_bytes, length-concat_bytes}
use wincode.Elements.Writing.{seq_bytes}
use wincode.Containers.Laws.{IsVec}
use wincode.Impls.Boxes.Laws.{keep_zero_copy-SafeFor}
use wincode.Adapters.{
  discard_size_by_meta, discard_schema, skip_items, skip_by_meta, discard_seq_schema,
}

module _ {A : Type 0} (default : A) (s : Schema A) {Valid : A → Type 0} {bytes : A → List ℕ}
    (laws : Laws s Valid bytes) (encodable : Valid default) where
  discard_size :
      (t : TypeMeta)
      → s.write_meta ≡ t
      → (a : A) → discard_size_by_meta default s t a ≡ ok (length (bytes default))
  unfolding discard_size_by_meta
  discard_size (static size z) e a = ap ok (sym (laws.write_static size z e default encodable))
  discard_size dynamic e a = laws.sizes default encodable

  -- Over a type that keeps the schema laws and whose default can be encoded: `Discard` writes and
  -- announces the default whatever the value is, and reads every encoding of the type to its end,
  -- as the default.
  pub discard_schema-discards :
      ((a : A) → Writes ((discard_schema default s).write a) (bytes default))
      × ((a : A) → (discard_schema default s).size_of a ≡ ok (length (bytes default)))
      × ((a : A) → Valid a → Reads (discard_schema default s).get (bytes a) default)
      × SafeFor (discard_schema default s).read_meta (discard_schema default s).get
  unfolding discard_schema
  discard_schema-discards = (
    λ a. laws.writes default encodable,
    λ a. discard_size s.write_meta refl a,
    λ a h. Reads-map (λ _. default) (laws.reads a h),
    SafeFor-check (keep_zero_copy false s.read_meta) s.get (λ a. pure default)
        (keep_zero_copy-SafeFor s.get s.read_meta laws.safe) (λ a. SafeStatic-pure default),
  )

module _ {A : Type 0} (s : Schema A) {Valid : A → Type 0} {bytes : A → List ℕ}
    (laws : Laws s Valid bytes) where
  skip_items-Reads :
      (vs : List A) → All Valid vs → Reads (skip_items s (length vs)) (concat_bytes bytes vs) []
  unfolding skip_items
  skip_items-Reads [] all = Reads-pure []
  skip_items-Reads (v ∷ vs) (p, all) = Reads-bind _ (laws.reads v p) (skip_items-Reads vs all)

  skip_items-SafeStatic :
      (size : ℕ) → SafeStatic size s.get → (len : ℕ) → SafeStatic (len * size) (skip_items s len)
  unfolding skip_items
  skip_items-SafeStatic size h zero = SafeStatic-cast (omega arith) (SafeStatic-pure [])
  skip_items-SafeStatic size h (suc len) =
      SafeStatic-cast {j = size + len * size} (omega arith)
        (SafeStatic-bind h (λ v. skip_items-SafeStatic size h len))

  skip_items-SafeDynamic : SafeDynamic s.get → (len : ℕ) → SafeDynamic (skip_items s len)
  unfolding skip_items
  skip_items-SafeDynamic h zero = SafeDynamic-pure []
  skip_items-SafeDynamic h (suc len) = SafeDynamic-bind h (λ v. skip_items-SafeDynamic h len)

  skip-Reads :
      (t : TypeMeta)
      → s.read_meta ≡ t
      → (vs : List A) → All Valid vs
      → length (concat_bytes bytes vs) ≤ max_usize
      → Reads (skip_by_meta s t (length vs)) (concat_bytes bytes vs) []
  unfolding skip_by_meta
  skip-Reads (static size z) e vs all h =
      Reads-trusted_seq (skip_items-Reads vs all) (length vs) size
        (sym (length-concat_bytes bytes Valid size (laws.read_static size z e) vs all)) h
  skip-Reads dynamic e vs all h = skip_items-Reads vs all

  skip-SafeDynamic :
      (t : TypeMeta) → SafeFor t s.get → (len : ℕ) → SafeDynamic (skip_by_meta s t len)
  unfolding skip_by_meta
  skip-SafeDynamic (static size z) h len =
      SafeStatic-dynamic (SafeStatic-trusted_seq len size (skip_items-SafeStatic size h len))
  skip-SafeDynamic dynamic h len = skip_items-SafeDynamic h len

  module _ (c : Configuration) (l : LengthEncoding) (header_size : ℕ) where
    -- Over elements that keep the schema laws, where the length encoding can hold zero:
    -- `DiscardSeq` writes an empty sequence whatever the value is, announces its size, reads every
    -- encoding of a vector within the limits to its end as an empty one, and is memory safe on
    -- every input.
    pub discard_seq_schema-discards :
        IsEncodable l 0
        → ((vs : List A)
            → Writes ((discard_seq_schema s c l header_size).write vs) (len_bytes c l 0))
          × ((vs : List A)
              → (discard_seq_schema s c l header_size).size_of vs ≡ ok (length (len_bytes c l 0)))
          × ((vs : List A)
              → IsVec c l s laws vs
              → Reads (discard_seq_schema s c l header_size).get (seq_bytes c l s laws vs) [])
          × SafeDynamic (discard_seq_schema s c l header_size).get
    unfolding discard_seq_schema
    discard_seq_schema-discards zero_fits = (
      λ vs. write_len-Writes c l 0 zero_fits,
      λ vs. write_bytes_needed-length c l 0 zero_fits,
      λ vs h.
          let ((all, fits, w), e) = h in
          let small : length (concat_bytes bytes vs) ≤ max_usize =
            omega (arith, length-append (len_bytes c l (length vs)) (concat_bytes bytes vs)) in
          Reads-bind (skip_by_meta s s.read_meta)
            (read_prealloc_check-Reads c l s.mem_size (length vs) fits e)
            (skip-Reads s.read_meta refl vs all small),
      SafeDynamic-bind (read_prealloc_check-SafeDynamic c l s.mem_size)
          (skip-SafeDynamic s.read_meta laws.safe),
    )
