-- ===== src/Impls/Collections/Laws.antt =====
-- The laws of the collections of `impl_seq_v!` in wincode/src/schema/impls.rs as schemas.
use wincode.Prelude.{
  ℕ, zero, suc, ◌+◌, ◌*◌, ◌≤◌, ◌≡◌, refl, sym, Bool, List, [], ◌∷◌, All, length, length-append,
  max_usize, arith,
}
use wincode.Reader.Reads.{Reads, Reads-pure, Reads-bind, Reads-value, Reads-trusted_seq}
use wincode.Reader.Safe.{
  SafeStatic, SafeStatic-bind, SafeStatic-pure, SafeStatic-cast, SafeStatic-dynamic,
  SafeStatic-trusted_seq, SafeDynamic, SafeDynamic-bind, SafeDynamic-pure,
}
use wincode.Writer.Writes.{Writes}
use wincode.TypeMeta.{TypeMeta, static, dynamic}
use wincode.Config.{Configuration}
use wincode.SeqLen.Laws.{len_bytes, read_prealloc_check-Reads, read_prealloc_check-SafeDynamic}
use wincode.Schema.{Schema}
use wincode.Schema.Laws.{Laws, SafeFor}
use wincode.Elements.{write_elem_iter_prealloc_check}
use wincode.Elements.Bytes.{concat_bytes, length-concat_bytes}
use wincode.Elements.Writing.{seq_bytes, size_of_elems-length, write_elem_iter-Writes}
use wincode.Containers.Laws.{IsVec}
use wincode.Impls.Collections.{
  Collection, insert_all, insert_items, collect_by_meta, seq_capacity, seq_v_read, seq_v_schema,
}

module _ {C A : Type 0} (col : Collection C A) where
  -- A collection that its elements, inserted in the order of iteration, build again.
  abbrev pub Rebuilds : C → Type 0
  Rebuilds set = (capacity : ℕ) → insert_all col (col.iter set) (col.with_capacity capacity) ≡ set

module _ {C A : Type 0} (col : Collection C A) (c : Configuration) (s : Schema A)
    {Valid : A → Type 0} {bytes : A → List ℕ} (laws : Laws s Valid bytes) where
  insert_items-Reads :
      (vs : List A) (set : C)
      → All Valid vs
      → Reads (insert_items col s (length vs) set) (concat_bytes bytes vs) (insert_all col vs set)
  unfolding insert_items insert_all
  insert_items-Reads [] set all = Reads-pure set
  insert_items-Reads (v ∷ vs) set (p, all) =
      Reads-bind _ (laws.reads v p) (insert_items-Reads vs (col.insert v set) all)

  insert_items-SafeStatic :
      (size : ℕ)
      → SafeStatic size s.get
      → (len : ℕ) (set : C) → SafeStatic (len * size) (insert_items col s len set)
  unfolding insert_items
  insert_items-SafeStatic size h zero set = SafeStatic-cast (omega arith) (SafeStatic-pure set)
  insert_items-SafeStatic size h (suc len) set =
      SafeStatic-cast {j = size + len * size} (omega arith)
        (SafeStatic-bind h (λ v. insert_items-SafeStatic size h len (col.insert v set)))

  insert_items-SafeDynamic :
      SafeDynamic s.get → (len : ℕ) (set : C) → SafeDynamic (insert_items col s len set)
  unfolding insert_items
  insert_items-SafeDynamic h zero set = SafeDynamic-pure set
  insert_items-SafeDynamic h (suc len) set =
      SafeDynamic-bind h (λ v. insert_items-SafeDynamic h len (col.insert v set))

  collect_by_meta-Reads :
      (t : TypeMeta) (capacity : ℕ)
      → s.read_meta ≡ t
      → (vs : List A) → All Valid vs
      → length (concat_bytes bytes vs) ≤ max_usize
      → Reads
          (collect_by_meta col s t capacity (length vs))
          (concat_bytes bytes vs)
          (insert_all col vs (col.with_capacity capacity))
  unfolding collect_by_meta
  collect_by_meta-Reads (static size z) capacity e vs all h =
      Reads-trusted_seq (insert_items-Reads vs (col.with_capacity capacity) all) (length vs) size
        (sym (length-concat_bytes bytes Valid size (laws.read_static size z e) vs all)) h
  collect_by_meta-Reads dynamic capacity e vs all h =
      insert_items-Reads vs (col.with_capacity capacity) all

  collect_by_meta-SafeDynamic :
      (t : TypeMeta)
      → SafeFor t s.get
      → (capacity len : ℕ) → SafeDynamic (collect_by_meta col s t capacity len)
  unfolding collect_by_meta
  collect_by_meta-SafeDynamic (static size z) h capacity len = SafeStatic-dynamic (
      SafeStatic-trusted_seq len size
        (insert_items-SafeStatic size h len (col.with_capacity capacity)))
  collect_by_meta-SafeDynamic dynamic h capacity len =
      insert_items-SafeDynamic h len (col.with_capacity capacity)

  -- A collection that its elements build again, and whose elements make a sequence within the
  -- limits.
  abbrev pub IsCollection : C → Type 0
  IsCollection set = IsVec c c.length_encoding s laws (col.iter set) × Rebuilds col set

  abbrev pub collection_bytes : C → List ℕ
  collection_bytes set = seq_bytes c c.length_encoding s laws (col.iter set)

  collection_write-Writes :
      (set : C)
      → IsCollection set
      → Writes
          (write_elem_iter_prealloc_check c c.length_encoding s
            (length (col.iter set))
            (col.iter set))
          (collection_bytes set)
  unfolding write_elem_iter_prealloc_check
  collection_write-Writes set ((h, e), _) =
      rw (e, write_elem_iter_prealloc_check)
        (write_elem_iter-Writes c c.length_encoding s laws (col.iter set) h)

  module _ (cap_unique_keys : Bool) where
    collection_read-Reads :
        (set : C)
        → IsCollection set
        → Reads (seq_v_read col s c cap_unique_keys) (collection_bytes set) set
    unfolding seq_v_read
    collection_read-Reads set (((all, fits, h), e), rebuilds) =
        let len = length (col.iter set) in
        let small : length (concat_bytes bytes (col.iter set)) ≤ max_usize = omega (
          arith,
          length-append (len_bytes c c.length_encoding len) (concat_bytes bytes (col.iter set)),
        ) in
        Reads-bind
          (λ n. collect_by_meta col s s.read_meta (seq_capacity cap_unique_keys s.mem_size n) n)
          (read_prealloc_check-Reads c c.length_encoding s.mem_size len fits e)
          (Reads-value (rebuilds (seq_capacity cap_unique_keys s.mem_size len))
            (collect_by_meta-Reads s.read_meta _ refl (col.iter set) all small))

    collection_read-SafeDynamic : SafeDynamic (seq_v_read col s c cap_unique_keys)
    unfolding seq_v_read
    collection_read-SafeDynamic =
        SafeDynamic-bind (read_prealloc_check-SafeDynamic c c.length_encoding s.mem_size)
          (λ n. collect_by_meta-SafeDynamic s.read_meta laws.safe _ n)

    -- Over elements that keep the schema laws, a set or a linked list keeps them too, for every
    -- collection that its elements, inserted in the order of iteration, build again and that makes
    -- a vector within the limits: it writes the length and then the elements, announces that size,
    -- reads the collection back on every reader, and is memory safe on every input.
    pub seq_v_schema-Laws :
        (header_size : ℕ)
        → Laws (seq_v_schema col s c cap_unique_keys header_size) IsCollection collection_bytes
    unfolding seq_v_schema
    seq_v_schema-Laws header_size = record {
      writes = collection_write-Writes;
      sizes = λ set h. size_of_elems-length c c.length_encoding s laws (col.iter set) (h.0).0;
      reads = collection_read-Reads;
      safe = collection_read-SafeDynamic;
      write_static = λ size z e. cc;
      read_static = λ size z e. cc;
      write_raw = λ size e. absurd cc;
      read_raw = λ size e. absurd cc;
    }
