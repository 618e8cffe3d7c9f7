-- ===== src/Impls/Bounds/Laws.antt =====
-- The laws of `Bound<T>` of wincode/src/schema/impls.rs as a schema.
use wincode.Prelude.{ℕ, ◌≤◌, ◌==◌, ◌≡◌, ap, List, ◌++◌, length, ok, max_usize, arith}
use wincode.Error.{ReadError}
use wincode.Reader.{Read, ◌>>=◌}
use wincode.Reader.Reads.{Reads, Reads-pure, Reads-bind, Reads-map}
use wincode.Reader.Safe.{
  SafeDynamic, SafeDynamic-bind, SafeDynamic-pure, SafeDynamic-raise, SafeDynamic-if,
}
use wincode.Writer.Writes.{Writes, Writes-seq}
use wincode.Config.{Configuration}
use wincode.Ints.{int_meta}
use wincode.Ints.Laws.{bytes_of}
use wincode.TagEncoding.{read_tag}
use wincode.TagEncoding.Laws.{
  IsTag, few_variants, write_from_u32-Writes, size_of_from_u32-length, read_tag-Reads,
  read_tag-SafeFor,
}
use wincode.Schema.{Schema}
use wincode.Schema.Laws.{Laws, SafeFor-SafeDynamic}
use wincode.Schema.Derived.{sum_fits, Reads-check}
use wincode.Impls.Scalars.Laws.{int_safe}
use wincode.Impls.Bounds.{
  Bound, unbounded, included, excluded, bound_size_of, bound_write, bound_from_disc, bound_schema,
}

module _ {ℓ} {A : Type ℓ} (c : Configuration) (s : Schema A) {Valid : A → Type 0}
    {bytes : A → List ℕ} (laws : Laws s Valid bytes) where
  abbrev tag_bytes : ℕ → List ℕ
  tag_bytes v = bytes_of c c.tag_encoding v

  abbrev pub bound_bytes : Bound A → List ℕ
  bound_bytes unbounded = tag_bytes 0
  bound_bytes (included v) = tag_bytes 1 ++ bytes v
  bound_bytes (excluded v) = tag_bytes 2 ++ bytes v

  abbrev pub IsBound : Bound A → Type 0
  IsBound unbounded = Unit
  IsBound (included v) = Valid v × (length (bound_bytes (included v)) ≤ max_usize)
  IsBound (excluded v) = Valid v × (length (bound_bytes (excluded v)) ≤ max_usize)

  zero-IsTag : IsTag c.tag_encoding 0
  zero-IsTag = few_variants c 0 (omega arith)

  one-IsTag : IsTag c.tag_encoding 1
  one-IsTag = few_variants c 1 (omega arith)

  two-IsTag : IsTag c.tag_encoding 2
  two-IsTag = few_variants c 2 (omega arith)

  bound_write-Writes : (b : Bound A) → IsBound b → Writes (bound_write c s b) (bound_bytes b)
  unfolding bound_write
  bound_write-Writes unbounded h = write_from_u32-Writes c 0 zero-IsTag
  bound_write-Writes (included v) (h, _) =
      Writes-seq (write_from_u32-Writes c 1 one-IsTag) (laws.writes v h)
  bound_write-Writes (excluded v) (h, _) =
      Writes-seq (write_from_u32-Writes c 2 two-IsTag) (laws.writes v h)

  bound_size_of-length :
      (b : Bound A) → IsBound b → bound_size_of c s b ≡ ok (length (bound_bytes b))
  unfolding bound_size_of
  bound_size_of-length unbounded h = size_of_from_u32-length c 0 zero-IsTag
  bound_size_of-length (included v) (h, k) =
      rw (size_of_from_u32-length c 1 one-IsTag, laws.sizes v h)
        (ap ok (sum_fits (tag_bytes 1) (bytes v) k))
  bound_size_of-length (excluded v) (h, k) =
      rw (size_of_from_u32-length c 2 two-IsTag, laws.sizes v h)
        (ap ok (sum_fits (tag_bytes 2) (bytes v) k))

  abbrev bound_get : Read (Bound A)
  bound_get = read_tag c >>= bound_from_disc c s

  bound_get-Reads : (b : Bound A) → IsBound b → Reads bound_get (bound_bytes b) b
  unfolding bound_from_disc
  bound_get-Reads unbounded h =
      Reads-check (bound_from_disc c s) (read_tag-Reads c 0 zero-IsTag) (Reads-pure unbounded)
  bound_get-Reads (included v) (h, _) =
      Reads-bind (bound_from_disc c s) (read_tag-Reads c 1 one-IsTag)
        (Reads-map included (laws.reads v h))
  bound_get-Reads (excluded v) (h, _) =
      Reads-bind (bound_from_disc c s) (read_tag-Reads c 2 two-IsTag)
        (Reads-map excluded (laws.reads v h))

  element_safe : SafeDynamic s.get
  element_safe = SafeFor-SafeDynamic s.read_meta laws.safe

  from_disc-SafeDynamic : (disc : ℕ) → SafeDynamic (bound_from_disc c s disc)
  unfolding bound_from_disc
  from_disc-SafeDynamic disc = SafeDynamic-if _ (SafeDynamic-pure unbounded) (
      SafeDynamic-if (disc == 1)
        (SafeDynamic-bind element_safe (λ v. SafeDynamic-pure (included v)))
        (SafeDynamic-if (disc == 2)
          (SafeDynamic-bind element_safe (λ v. SafeDynamic-pure (excluded v)))
          (SafeDynamic-raise (ReadError.invalid_tag_encoding disc))))

  bound_get-SafeDynamic : SafeDynamic bound_get
  bound_get-SafeDynamic =
      SafeDynamic-bind
        (SafeFor-SafeDynamic (int_meta c c.tag_encoding)
          (read_tag-SafeFor c (int_meta c c.tag_encoding) (int_safe c c.tag_encoding)))
        from_disc-SafeDynamic

  pub bound_schema-Laws :
      (size_in_memory : ℕ) → Laws (bound_schema c s size_in_memory) IsBound bound_bytes
  unfolding bound_schema
  bound_schema-Laws size_in_memory = record {
    writes = bound_write-Writes;
    sizes = bound_size_of-length;
    reads = bound_get-Reads;
    safe = bound_get-SafeDynamic;
    write_static = λ size z e. cc;
    read_static = λ size z e. cc;
    write_raw = λ size e. absurd cc;
    read_raw = λ size e. absurd cc;
  }
