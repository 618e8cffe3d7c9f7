-- ===== src/Impls/Ranges/Laws.antt =====
-- The laws of `Range` and `RangeInclusive` of wincode/src/schema/impls.rs as schemas.
use wincode.Prelude.{
  ℕ, ◌+◌, ◌≤◌, ◌≡◌, refl, sym, ap, Bool, true, false, List, ◌++◌, length, length-append, ok,
  max_usize, arith,
}
use wincode.Reader.Reads.{Reads, Reads-bind, Reads-map, Reads-trusted, Reads-value}
use wincode.Reader.Safe.{
  SafeStatic-bind, SafeStatic-pure, SafeStatic-cast, SafeStatic-trusted, SafeDynamic-bind,
  SafeDynamic-pure,
}
use wincode.Reader.{pure}
use wincode.Writer.Writes.{Writes, Writes-seq, Writes-window}
use wincode.TypeMeta.{TypeMeta, static, dynamic}
use wincode.Schema.{Schema}
use wincode.Schema.Laws.{Laws, SafeFor}
use wincode.Schema.Derived.{sum_fits, SafeFor-check}
use wincode.Impls.Ranges.{
  range_meta, range_size_of, inclusive_size_by_meta, write_ends, range_write_by_meta, read_ends,
  range_get_by_meta, RangeInclusive, ends, inclusive_new, range_schema, range_inclusive_schema,
}

range_meta-static :
    (t : TypeMeta) (size : ℕ) (z : Bool)
    → range_meta t ≡ static size z
    → (k : ℕ) × (y : Bool) × (t ≡ static k y) × (k + k ≡ size) × (z ≡ false)
unfolding range_meta
range_meta-static (static k y) size z e = (k, y, refl, cc, cc)
range_meta-static dynamic size z e = absurd cc

never_raw : (t : TypeMeta) (size : ℕ) → range_meta t ≡ static size true → ⊥
never_raw t size e = let (k, y, p, q, r) = range_meta-static t size true e in cc

module _ {ℓ} {A : Type ℓ} (s : Schema A) {Valid : A → Type 0} {bytes : A → List ℕ}
    (laws : Laws s Valid bytes) where
  abbrev pub range_bytes : A × A → List ℕ
  range_bytes r = bytes r.0 ++ bytes r.1

  -- Two ends that can be encoded, together within `usize`.
  abbrev pub IsRange : A × A → Type 0
  IsRange r = Valid r.0 × Valid r.1 × (length (range_bytes r) ≤ max_usize)

  range_length :
      (t : TypeMeta) (size : ℕ) (z : Bool)
      → range_meta t ≡ static size z
      → ((k : ℕ) (y : Bool) → t ≡ static k y → (a : A) → Valid a → length (bytes a) ≡ k)
      → (r : A × A) → IsRange r
      → length (range_bytes r) ≡ size
  range_length t size z e fixed (start, end) (p, q, h) =
      let (k, y, same, sum, flag) = range_meta-static t size z e in
      omega (
        arith,
        length-append (bytes start) (bytes end),
        fixed k y same start p,
        fixed k y same end q,
      )

  range_size_of-length : (r : A × A) → IsRange r → range_size_of s r ≡ ok (length (range_bytes r))
  unfolding range_size_of
  range_size_of-length (start, end) (p, q, h) =
      rw (laws.sizes start p, laws.sizes end q) (ap ok (sum_fits (bytes start) (bytes end) h))

  inclusive_size-length :
      (t : TypeMeta)
      → range_meta s.write_meta ≡ t
      → (r : A × A) → IsRange r
      → inclusive_size_by_meta s t r ≡ ok (length (range_bytes r))
  unfolding inclusive_size_by_meta
  inclusive_size-length (static size z) e r h =
      ap ok (sym (range_length s.write_meta size z e laws.write_static r h))
  inclusive_size-length dynamic e r h = range_size_of-length r h

  write_ends-Writes : (r : A × A) → IsRange r → Writes (write_ends s r) (range_bytes r)
  write_ends-Writes (start, end) (p, q, h) = Writes-seq (laws.writes start p) (laws.writes end q)

  range_write-Writes :
      (t : TypeMeta)
      → range_meta s.write_meta ≡ t
      → (r : A × A) → IsRange r
      → Writes (range_write_by_meta s t r) (range_bytes r)
  unfolding range_write_by_meta
  range_write-Writes (static size z) e r h =
      Writes-window size (sym (range_length s.write_meta size z e laws.write_static r h))
        (write_ends-Writes r h)
  range_write-Writes dynamic e r h = write_ends-Writes r h

  read_ends-Reads : (r : A × A) → IsRange r → Reads (read_ends s) (range_bytes r) r
  read_ends-Reads (start, end) (p, q, h) =
      Reads-bind _ (laws.reads start p) (Reads-map (λ x. (start, x)) (laws.reads end q))

  range_get-Reads :
      (t : TypeMeta)
      → range_meta s.read_meta ≡ t
      → (r : A × A) → IsRange r
      → Reads (range_get_by_meta s t) (range_bytes r) r
  unfolding range_get_by_meta
  range_get-Reads (static size z) e r h =
      rw (sym (range_length s.read_meta size z e laws.read_static r h), range_get_by_meta)
        (Reads-trusted (read_ends-Reads r h))
  range_get-Reads dynamic e r h = read_ends-Reads r h

  range_get-SafeFor :
      (t : TypeMeta) → SafeFor t s.get → SafeFor (range_meta t) (range_get_by_meta s (range_meta t))
  unfolding range_meta range_get_by_meta
  range_get-SafeFor (static k z) h = SafeStatic-trusted (
      SafeStatic-cast {j = k + (k + 0)} (omega arith)
        (SafeStatic-bind h (λ a. SafeStatic-bind h (λ b. SafeStatic-pure _))))
  range_get-SafeFor dynamic h =
      SafeDynamic-bind h (λ a. SafeDynamic-bind h (λ b. SafeDynamic-pure _))

  module _ (size_in_memory : ℕ) where
    pub range_schema-Laws : Laws (range_schema s size_in_memory) IsRange range_bytes
    unfolding range_schema
    range_schema-Laws = record {
      writes = range_write-Writes (range_meta s.write_meta) refl;
      sizes = range_size_of-length;
      reads = range_get-Reads (range_meta s.read_meta) refl;
      safe = range_get-SafeFor s.read_meta laws.safe;
      write_static = λ size z e. range_length s.write_meta size z e laws.write_static;
      read_static = λ size z e. range_length s.read_meta size z e laws.read_static;
      write_raw = λ size e. absurd (never_raw s.write_meta size e);
      read_raw = λ size e. absurd (never_raw s.read_meta size e);
    }

    inclusive_get-Reads :
        (r : RangeInclusive A)
        → IsRange (ends r)
        → Reads
            (range_inclusive_schema s size_in_memory).get
            (range_bytes (ends r))
            (inclusive_new (ends r))
    unfolding range_inclusive_schema
    inclusive_get-Reads r h =
        Reads-map inclusive_new (range_get-Reads (range_meta s.read_meta) refl (ends r) h)

    -- Two ends of which the iteration has not ended.
    abbrev pub IsInclusive : RangeInclusive A → Type 0
    IsInclusive r = IsRange (ends r) × (r.exhausted ≡ false)

    abbrev pub inclusive_bytes : RangeInclusive A → List ℕ
    inclusive_bytes r = range_bytes (ends r)

    pub range_inclusive_schema-Laws :
        Laws (range_inclusive_schema s size_in_memory) IsInclusive inclusive_bytes
    unfolding range_inclusive_schema
    range_inclusive_schema-Laws = record {
      writes = λ r h. range_write-Writes (range_meta s.write_meta) refl (ends r) h.0;
      sizes = λ r h. inclusive_size-length (range_meta s.write_meta) refl (ends r) h.0;
      reads = λ r h.
          Reads-value (ap (λ b. record { start = r.start; end = r.end; exhausted = b }) (sym h.1))
            (inclusive_get-Reads r h.0);
      safe =
          SafeFor-check (range_meta s.read_meta) _ (λ p. pure (inclusive_new p))
            (range_get-SafeFor s.read_meta laws.safe) (λ p. SafeStatic-pure _);
      write_static =
          λ size z e r h. range_length s.write_meta size z e laws.write_static (ends r) h.0;
      read_static = λ size z e r h. range_length s.read_meta size z e laws.read_static (ends r) h.0;
      write_raw = λ size e. absurd (never_raw s.write_meta size e);
      read_raw = λ size e. absurd (never_raw s.read_meta size e);
    }

    -- Over a type that keeps the schema laws, for every `RangeInclusive`, also one that iteration
    -- has exhausted, with ends whose encodings are together within `usize`: it is written as its
    -- two ends in order and nothing else, its announced size is theirs, and it is read back with
    -- the same ends as a range that is not exhausted, whatever it was; reading any input is memory
    -- safe, and takes the static size where there is one.
    pub range_inclusive_schema-resets :
        (r : RangeInclusive A)
        → IsRange (ends r)
        → Writes ((range_inclusive_schema s size_in_memory).write r) (inclusive_bytes r)
          × ((range_inclusive_schema s size_in_memory).size_of r ≡ ok (length (inclusive_bytes r)))
          × Reads
              (range_inclusive_schema s size_in_memory).get
              (inclusive_bytes r)
              (record r { exhausted = false })
          × SafeFor
              (range_inclusive_schema s size_in_memory).read_meta
              (range_inclusive_schema s size_in_memory).get
    unfolding range_inclusive_schema
    range_inclusive_schema-resets r h = (
      range_inclusive_schema-Laws.writes (inclusive_new (ends r)) (h, refl),
      range_inclusive_schema-Laws.sizes (inclusive_new (ends r)) (h, refl),
      inclusive_get-Reads r h,
      range_inclusive_schema-Laws.safe,
    )
