-- ===== src/Elements/Reading.antt =====
-- `decode_into_slice_t` of wincode/src/schema/containers.rs reads back the format of a sequence, and is
-- memory safe.
use wincode.Prelude.{
  ℕ, zero, suc, ◌+◌, ◌*◌, ◌≤◌, ◌≡◌, refl, sym, ◌∙◌, true, false, List, [], ◌∷◌, All, length,
  max_usize, arith,
}
use wincode.Reader.Reads.{
  Reads, Reads-pure, Reads-bind, Reads-map, Reads-copy_length, Reads-value, Reads-trusted_seq,
}
use wincode.Reader.Safe.{
  SafeStatic, SafeStatic-bind, SafeStatic-pure, SafeStatic-cast, SafeStatic-copy,
  SafeStatic-trusted_seq, SafeDynamic, SafeDynamic-bind, SafeDynamic-pure,
}
use wincode.TypeMeta.{TypeMeta, static, dynamic, array_meta}
use wincode.Schema.{Schema}
use wincode.Schema.Laws.{Laws, SafeFor, SafeFor-SafeDynamic}
use wincode.Elements.{read_slice_t, read_items, decode_by_meta, decode_into_slice_t}
use wincode.Elements.Bytes.{concat_bytes, length-concat_bytes, slice_from_memory-concat}

module _ {ℓ} {A : Type ℓ} (s : Schema A) {Valid : A → Type 0} {bytes : A → List ℕ}
    (laws : Laws s Valid bytes) where
  pub read_items-Reads :
      (vs : List A) → All Valid vs → Reads (read_items s (length vs)) (concat_bytes bytes vs) vs
  unfolding read_items
  read_items-Reads [] all = Reads-pure []
  read_items-Reads (v ∷ vs) (p, all) =
      Reads-bind _ (laws.reads v p) (Reads-map (λ xs. v ∷ xs) (read_items-Reads vs all))

  pub read_items-SafeStatic :
      (size : ℕ) → SafeStatic size s.get → (len : ℕ) → SafeStatic (len * size) (read_items s len)
  unfolding read_items
  read_items-SafeStatic size h zero = SafeStatic-cast (omega arith) (SafeStatic-pure [])
  read_items-SafeStatic size h (suc len) =
      SafeStatic-cast {j = size + (len * size + 0)} (omega arith) (
        SafeStatic-bind h
          (λ v. SafeStatic-bind (read_items-SafeStatic size h len) (λ vs. SafeStatic-pure _)))

  pub read_items-SafeDynamic : SafeDynamic s.get → (len : ℕ) → SafeDynamic (read_items s len)
  unfolding read_items
  read_items-SafeDynamic h zero = SafeDynamic-pure []
  read_items-SafeDynamic h (suc len) =
      SafeDynamic-bind h
        (λ v. SafeDynamic-bind (read_items-SafeDynamic h len) (λ vs. SafeDynamic-pure _))

  decode_raw-Reads :
      (size : ℕ)
      → s.read_meta ≡ static size true
      → (vs : List A) → All Valid vs
      → Reads (read_slice_t s.from_memory (length vs) s.mem_size) (concat_bytes bytes vs) vs
  unfolding read_slice_t
  decode_raw-Reads size e vs all =
      let (m, is_raw, same, back) = laws.read_raw size e in
      let fixed : (a : A) → Valid a → length (bytes a) ≡ s.mem_size =
        λ a p. laws.read_static size true e a p ∙ sym same in
      rw is_raw (
        Reads-value (slice_from_memory-concat bytes Valid m s.mem_size fixed back vs all) (
          Reads-map _ (
            Reads-copy_length (length vs * s.mem_size) _
              (length-concat_bytes bytes Valid s.mem_size fixed vs all))))

  decode_by_meta-Reads :
      (t : TypeMeta)
      → s.read_meta ≡ t
      → (vs : List A) → All Valid vs
      → length (concat_bytes bytes vs) ≤ max_usize
      → Reads (decode_by_meta s t (length vs)) (concat_bytes bytes vs) vs
  unfolding decode_by_meta
  decode_by_meta-Reads (static size true) e vs all h = decode_raw-Reads size e vs all
  decode_by_meta-Reads (static size false) e vs all h =
      Reads-trusted_seq (read_items-Reads vs all) (length vs) size
        (sym (length-concat_bytes bytes Valid size (laws.read_static size false e) vs all)) h
  decode_by_meta-Reads dynamic e vs all h = read_items-Reads vs all

  -- Over elements that keep the schema laws: `decode_into_slice_t` reads the encodings of a list of
  -- elements, of at most `usize::MAX` bytes together, back as that list, whichever of its three
  -- paths the metadata selects.
  pub decode_into_slice_t-Reads :
      (vs : List A)
      → All Valid vs
      → length (concat_bytes bytes vs) ≤ max_usize
      → Reads (decode_into_slice_t s (length vs)) (concat_bytes bytes vs) vs
  decode_into_slice_t-Reads vs all h = decode_by_meta-Reads s.read_meta refl vs all h

  raw-SafeStatic :
      (size : ℕ)
      → s.read_meta ≡ static size true
      → (len : ℕ) → SafeStatic (len * size) (read_slice_t s.from_memory len s.mem_size)
  unfolding read_slice_t
  raw-SafeStatic size e len =
      let (m, is_raw, same, back) = laws.read_raw size e in
      rw (is_raw, read_slice_t)
        (SafeStatic-cast (rw same (omega arith))
          (SafeStatic-bind {k = 0} (SafeStatic-copy (len * s.mem_size)) (λ bs. SafeStatic-pure _)))

  decode_by_meta-SafeFor :
      (t : TypeMeta)
      → s.read_meta ≡ t
      → SafeFor t s.get
      → (len : ℕ) → SafeFor (array_meta len t) (decode_by_meta s t len)
  unfolding decode_by_meta array_meta
  decode_by_meta-SafeFor (static size true) e h len = raw-SafeStatic size e len
  decode_by_meta-SafeFor (static size false) e h len =
      SafeStatic-trusted_seq len size (read_items-SafeStatic size h len)
  decode_by_meta-SafeFor dynamic e h len = read_items-SafeDynamic h len

  pub decode_into_slice_t-SafeFor :
      (len : ℕ) → SafeFor (array_meta len s.read_meta) (decode_into_slice_t s len)
  decode_into_slice_t-SafeFor len = decode_by_meta-SafeFor s.read_meta refl laws.safe len

  pub decode_into_slice_t-SafeDynamic : (len : ℕ) → SafeDynamic (decode_into_slice_t s len)
  decode_into_slice_t-SafeDynamic len =
      SafeFor-SafeDynamic (array_meta len s.read_meta) (decode_into_slice_t-SafeFor len)
