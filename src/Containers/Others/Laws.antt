-- ===== src/Containers/Others/Laws.antt =====
-- The laws of the other containers of wincode/src/schema/containers.rs as schemas.
use wincode.Prelude.{
  ℕ, ◌+◌, ◌≤◌, ◌≡◌, refl, sym, ap, ◌∙◌, List, All, length, length-append, ok, max_usize, arith,
}
use wincode.Reader.Reads.{
  Reads, Reads-bind, Reads-map, Reads-value, Reads-copy_length, Reads-trusted_seq,
}
use wincode.Reader.Safe.{
  SafeStatic-bind, SafeStatic-pure, SafeStatic-cast, SafeStatic-copy, SafeStatic-dynamic,
  SafeStatic-trusted_seq, SafeDynamic, SafeDynamic-bind, SafeDynamic-pure,
}
use wincode.Writer.Writes.{Writes, Writes-write}
use wincode.TypeMeta.{TypeMeta, static, dynamic}
use wincode.Config.{Configuration, LengthEncoding}
use wincode.SeqLen.Laws.{len_bytes, read_prealloc_check-Reads, read_prealloc_check-SafeDynamic}
use wincode.Schema.{Schema}
use wincode.Schema.Laws.{Laws, SafeFor}
use wincode.Elements.Bytes.{concat_bytes, length-concat_bytes}
use wincode.Elements.Reading.{read_items-Reads, read_items-SafeStatic, read_items-SafeDynamic}
use wincode.Elements.Writing.{seq_bytes, write_elem_iter-Writes}
use wincode.Containers.{vec_schema, vec_read}
use wincode.Containers.Laws.{IsVec, vec_schema-Laws, vec_read-SafeDynamic}
use wincode.Containers.Others.{
  Conversion, heap_slice_read, heap_slice_schema, binary_heap_schema, collect_items,
  collected_write, from_into_iterator_schema, pod_schema,
}

module _ {A : Type 0} (c : Configuration) (l : LengthEncoding) (s : Schema A) {Valid : A → Type 0}
    {bytes : A → List ℕ} (laws : Laws s Valid bytes) where
  stored_laws : Laws (vec_schema c l s 24) (IsVec c l s laws) (seq_bytes c l s laws)
  stored_laws = vec_schema-Laws c l s laws 24

  pub heap_slice_schema-Laws :
      (pointer_size : ℕ)
      → Laws (heap_slice_schema c l s pointer_size) (IsVec c l s laws) (seq_bytes c l s laws)
  unfolding heap_slice_schema heap_slice_read vec_schema vec_read
  heap_slice_schema-Laws pointer_size = record {
    writes = stored_laws.writes;
    sizes = stored_laws.sizes;
    reads = stored_laws.reads;
    safe = stored_laws.safe;
    write_static = λ size z e. cc;
    read_static = λ size z e. cc;
    write_raw = λ size e. absurd cc;
    read_raw = λ size e. absurd cc;
  }

  module _ {H : Type 0} (conv : Conversion H A) where
    -- Elements that make a vector, and from which the collection is built again.
    abbrev pub IsConverted : H → Type 0
    IsConverted h = IsVec c l s laws (conv.elements h) × (conv.from_elements (conv.elements h) ≡ h)

    abbrev pub converted_bytes : H → List ℕ
    converted_bytes h = seq_bytes c l s laws (conv.elements h)

    pub binary_heap_schema-Laws :
        (header_size : ℕ)
        → Laws (binary_heap_schema c l s conv header_size) IsConverted converted_bytes
    unfolding binary_heap_schema vec_schema
    binary_heap_schema-Laws header_size = record {
      writes = λ h v. stored_laws.writes (conv.elements h) v.0;
      sizes = λ h v. stored_laws.sizes (conv.elements h) v.0;
      reads = λ h v.
          Reads-value v.1 (Reads-map conv.from_elements (stored_laws.reads (conv.elements h) v.0));
      safe = SafeDynamic-bind (vec_read-SafeDynamic c l s laws) (λ vs. SafeDynamic-pure _);
      write_static = λ size z e. cc;
      read_static = λ size z e. cc;
      write_raw = λ size e. absurd cc;
      read_raw = λ size e. absurd cc;
    }

    collect_items-Reads :
        (t : TypeMeta)
        → s.read_meta ≡ t
        → (vs : List A) → All Valid vs
        → length (concat_bytes bytes vs) ≤ max_usize
        → Reads
            (collect_items c l s conv t (length vs))
            (concat_bytes bytes vs)
            (conv.from_elements vs)
    unfolding collect_items
    collect_items-Reads (static size z) e vs all h = Reads-map conv.from_elements (
        Reads-trusted_seq (read_items-Reads s laws vs all) (length vs) size
          (sym (length-concat_bytes bytes Valid size (laws.read_static size z e) vs all)) h)
    collect_items-Reads dynamic e vs all h =
        Reads-map conv.from_elements (read_items-Reads s laws vs all)

    collect_items-SafeDynamic :
        (t : TypeMeta) → SafeFor t s.get → (len : ℕ) → SafeDynamic (collect_items c l s conv t len)
    unfolding collect_items
    collect_items-SafeDynamic (static size z) h len =
        SafeDynamic-bind
          (SafeStatic-dynamic
            (SafeStatic-trusted_seq len size (read_items-SafeStatic s laws size h len)))
          (λ vs. SafeDynamic-pure _)
    collect_items-SafeDynamic dynamic h len =
        SafeDynamic-bind (read_items-SafeDynamic s laws h len) (λ vs. SafeDynamic-pure _)

    collected_write-Writes :
        (h : H) → IsConverted h → Writes (collected_write c l s conv h) (converted_bytes h)
    unfolding collected_write
    collected_write-Writes h ((v, e), _) =
        rw (e, collected_write) (write_elem_iter-Writes c l s laws (conv.elements h) v)

    pub from_into_iterator_schema-Laws :
        (header_size : ℕ)
        → Laws (from_into_iterator_schema c l s conv header_size) IsConverted converted_bytes
    unfolding from_into_iterator_schema vec_schema
    from_into_iterator_schema-Laws header_size = record {
      writes = collected_write-Writes;
      sizes = λ h v. stored_laws.sizes (conv.elements h) v.0;
      reads = λ h v.
          let (((all, fits, w), e), back) = v in
          let small : length (concat_bytes bytes (conv.elements h)) ≤ max_usize = omega (
            arith,
            length-append (len_bytes c l (length (conv.elements h)))
                (concat_bytes bytes (conv.elements h)),
          ) in
          Reads-value back (
            Reads-bind (collect_items c l s conv s.read_meta)
              (read_prealloc_check-Reads c l s.mem_size (length (conv.elements h)) fits e)
              (collect_items-Reads s.read_meta refl (conv.elements h) all small));
      safe =
          SafeDynamic-bind (read_prealloc_check-SafeDynamic c l s.mem_size)
            (collect_items-SafeDynamic s.read_meta laws.safe);
      write_static = λ size z e. cc;
      read_static = λ size z e. cc;
      write_raw = λ size e. absurd cc;
      read_raw = λ size e. absurd cc;
    }

module _ {ℓ} {A : Type ℓ} (size : ℕ) (to_bytes : A → List ℕ) (from_bytes : List ℕ → A) where
  -- A value with `size` bytes in memory that can be copied out and back in.
  abbrev pub IsPod : A → Type 0
  IsPod a = length (to_bytes a) ≡ size

  pub pod_schema-Laws :
      ((a : A) → from_bytes (to_bytes a) ≡ a)
      → Laws (pod_schema size to_bytes from_bytes) IsPod to_bytes
  unfolding pod_schema
  pod_schema-Laws back = record {
    writes = λ a h. Writes-write _;
    sizes = λ a h. ap ok (sym h);
    reads = λ a h. Reads-value (back a) (Reads-map from_bytes (Reads-copy_length size _ h));
    safe =
        SafeStatic-cast {j = size + 0} (omega arith)
          (SafeStatic-bind (SafeStatic-copy size) (λ bs. SafeStatic-pure _));
    write_static = λ k z e a h. let same : size ≡ k = cc in h ∙ same;
    read_static = λ k z e a h. let same : size ≡ k = cc in h ∙ same;
    write_raw = λ k e. (to_bytes, refl, λ a h. refl);
    read_raw = λ k e. (from_bytes, refl, cc, λ a h. back a);
  }
