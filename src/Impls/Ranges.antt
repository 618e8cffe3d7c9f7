-- ===== src/Impls/Ranges.antt =====
-- `Range<Idx>`, by start and end, and `RangeInclusive<Idx>` of wincode/src/schema/impls.rs.
pub mod Laws
use wincode.Prelude.{ℕ, ◌+◌, false, none, Outcome, ok, bind, wrapping_add, Bool}
use wincode.Error.{WriteError}
use wincode.Reader.{Read, pure, ◌>>=◌}
use wincode.Reader
use wincode.Writer.{Write, ◌▸◌}
use wincode.Writer
use wincode.TypeMeta.{TypeMeta, static, dynamic}
use wincode.Schema.{Schema}

unfoldable pub range_meta : TypeMeta → TypeMeta
range_meta (static idx_size z) = static (idx_size + idx_size) false
range_meta dynamic = dynamic

-- `core::ops::RangeInclusive`, with the flag that iterating to the end sets. Equality reads it.
pub record RangeInclusive {ℓ} (A : Type ℓ) : Type ℓ where
  pub start : A
  pub end : A
  pub exhausted : Bool

-- `start()` and `end()`.
abbrev pub ends {ℓ} : {A : Type ℓ} → RangeInclusive A → A × A
ends r = (r.start, r.end)

-- `RangeInclusive::new(start, end)`
abbrev pub inclusive_new {ℓ} : {A : Type ℓ} → A × A → RangeInclusive A
inclusive_new p = record { start = p.0; end = p.1; exhausted = false }

module _ {ℓ} {A : Type ℓ} (s : Schema A) where
  unfoldable pub range_size_of : A × A → Outcome WriteError ℕ
  range_size_of (start, end) =
      bind (s.size_of start) (λ n. bind (s.size_of end) (λ k. ok (wrapping_add n k)))

  -- `RangeInclusive` answers with the static size where there is one.
  unfoldable pub inclusive_size_by_meta : TypeMeta → A × A → Outcome WriteError ℕ
  inclusive_size_by_meta (static size z) r = ok size
  inclusive_size_by_meta dynamic r = range_size_of r

  abbrev pub write_ends : A × A → Write
  write_ends (start, end) = s.write start ▸ s.write end

  unfoldable pub range_write_by_meta : TypeMeta → A × A → Write
  range_write_by_meta (static size z) r w = Writer.as_trusted_for size (write_ends r) w
  range_write_by_meta dynamic r w = write_ends r w

  abbrev pub read_ends : Read (A × A)
  read_ends = do start ← s.get; end ← s.get; pure (start, end)

  unfoldable pub range_get_by_meta : TypeMeta → Read (A × A)
  range_get_by_meta (static size z) = Reader.as_trusted_for size read_ends
  range_get_by_meta dynamic = read_ends

  unfoldable pub range_schema : ℕ → Schema (A × A)
  range_schema size_in_memory = record {
    write_meta = range_meta s.write_meta;
    read_meta = range_meta s.read_meta;
    mem_size = size_in_memory;
    to_memory = none;
    from_memory = none;
    size_of = range_size_of;
    write = range_write_by_meta (range_meta s.write_meta);
    get = range_get_by_meta (range_meta s.read_meta);
  }

  unfoldable pub range_inclusive_schema : ℕ → Schema (RangeInclusive A)
  range_inclusive_schema size_in_memory = record {
    write_meta = range_meta s.write_meta;
    read_meta = range_meta s.read_meta;
    mem_size = size_in_memory;
    to_memory = none;
    from_memory = none;
    size_of = λ r. inclusive_size_by_meta (range_meta s.write_meta) (ends r);
    write = λ r. range_write_by_meta (range_meta s.write_meta) (ends r);
    get = (do p ← range_get_by_meta (range_meta s.read_meta); pure (inclusive_new p));
  }
