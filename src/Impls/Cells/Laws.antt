-- ===== src/Impls/Cells/Laws.antt =====
-- The laws of the cells and locks of wincode/src/schema/impls.rs as schemas.
use wincode.Prelude.{
  ℕ, ◌≡◌, refl, true, false, Option, none, some, List, [], ◌++◌, length, ok, err, Bool-cases, inl,
  inr,
}
use wincode.Error.{WriteError, backing}
use wincode.Reader.{Reader, Read, pure, supports_borrow}
use wincode.Reader.View.{view, advance}
use wincode.Reader.Reads.{Reads-map, Reads-value}
use wincode.Reader.Safe.{SafeStatic-pure}
use wincode.Writer.{Writer}
use wincode.TypeMeta.{keep_zero_copy}
use wincode.Schema.{Schema}
use wincode.Schema.Laws.{Laws}
use wincode.Schema.Derived.{SafeFor-check}
use wincode.Impls.Boxes.Laws.{keep_zero_copy-static, keep_zero_copy-SafeFor, never_raw}
use wincode.Impls.Cells.{Lock, locked_size_of, locked_write, locked_schema, cell_schema, cow_get}

module _ {X A : Type 0} (lock : Lock X A) (s : Schema A) {Valid : A → Type 0} {bytes : A → List ℕ}
    (laws : Laws s Valid bytes) where
  -- A container in reach, which its value makes again.
  abbrev pub IsOpen : X → Type 0
  IsOpen x = (a : A) × (lock.access x ≡ some a) × Valid a × (lock.make a ≡ x)

  abbrev pub inner_bytes : Option A → List ℕ
  inner_bytes none = []
  inner_bytes (some a) = bytes a

  abbrev pub locked_bytes : X → List ℕ
  locked_bytes x = inner_bytes (lock.access x)

  -- Over a type that keeps the schema laws, a lock of it keeps them too, for the locks whose value
  -- is in reach and makes them again.
  pub locked_schema-Laws :
      (size_in_memory : ℕ) → Laws (locked_schema lock s size_in_memory) IsOpen locked_bytes
  unfolding locked_schema locked_size_of locked_write
  locked_schema-Laws size_in_memory = record {
    writes = λ x h. let (a, e, v, back) = h in rw e (laws.writes a v);
    sizes = λ x h. let (a, e, v, back) = h in rw e (laws.sizes a v);
    reads = λ x h.
        let (a, e, v, back) = h in rw e (Reads-value back (Reads-map lock.make (laws.reads a v)));
    safe =
        SafeFor-check (keep_zero_copy false s.read_meta) s.get (λ a. pure (lock.make a))
          (keep_zero_copy-SafeFor s.get s.read_meta laws.safe) (λ a. SafeStatic-pure _);
    write_static = λ size z w x h.
        let (a, e, v, back) = h in
        let (y, p, q) = keep_zero_copy-static s.write_meta size z w in
        rw e (laws.write_static size y p a v);
    read_static = λ size z w x h.
        let (a, e, v, back) = h in
        let (y, p, q) = keep_zero_copy-static s.read_meta size z w in
        rw e (laws.read_static size y p a v);
    write_raw = λ size w. absurd (never_raw s.write_meta size w);
    read_raw = λ size w. absurd (never_raw s.read_meta size w);
  }

  -- A lock whose value is out of reach is refused by `size_of` and, before anything is written, by
  -- `write`.
  pub locked_write-refuses :
      (x : X) (w : Writer) (size_in_memory : ℕ)
      → lock.access x ≡ none
      → ((locked_schema lock s size_in_memory).size_of x ≡ err (WriteError.custom lock.message))
        × ((locked_schema lock s size_in_memory).write x w ≡ err (WriteError.custom lock.message))
  unfolding locked_schema locked_size_of locked_write
  locked_write-refuses x w size_in_memory e = (rw e refl, rw e refl)

module _ {ℓ} {A : Type ℓ} (s : Schema A) {Valid : A → Type 0} {bytes : A → List ℕ}
    (laws : Laws s Valid bytes) where
  pub cell_schema-Laws : Laws (cell_schema s) Valid bytes
  unfolding cell_schema
  cell_schema-Laws = record {
    writes = laws.writes;
    sizes = laws.sizes;
    reads = laws.reads;
    safe = laws.safe;
    write_static = λ size z e.
        let (y, p, q) = keep_zero_copy-static s.write_meta size z e in laws.write_static size y p;
    read_static = laws.read_static;
    write_raw = λ size e. absurd (never_raw s.write_meta size e);
    read_raw = laws.read_raw;
  }

  -- `Cow` reads every encoding as its value, on every reader: borrowed where the reader lends its
  -- backing memory, provided that the borrowing read does, and owned elsewhere.
  pub cow_get-value :
      (ref_get : Read A) (r : Reader) (rest : List ℕ) (a : A)
      → Valid a
      → view r ≡ bytes a ++ rest
      → (supports_borrow backing r ≡ true → ref_get r ≡ (ok a, advance (length (bytes a)) r))
      → cow_get ref_get s r ≡ (ok a, advance (length (bytes a)) r)
  unfolding cow_get
  cow_get-value ref_get r rest a h e lent = elim (Bool-cases (supports_borrow backing r)) [
    | inl b ↦ rw (b, cow_get) (lent b)
    | inr b ↦ rw (b, cow_get) ((laws.reads a h).at r rest e)
  ]
