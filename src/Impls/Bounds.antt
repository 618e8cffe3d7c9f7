-- ===== src/Impls/Bounds.antt =====
-- `Bound<T>` of wincode/src/schema/impls.rs.
pub mod Laws
use wincode.Prelude.{ℕ, none, ◌==◌, Outcome, ok, bind, wrapping_add, if◌then◌else◌}
use wincode.Error.{ReadError, WriteError}
use wincode.Reader.{Read, pure, raise, ◌>>=◌}
use wincode.Writer.{Write, ◌▸◌}
use wincode.TypeMeta.{dynamic}
use wincode.Config.{Configuration}
use wincode.TagEncoding.{size_of_from_u32, write_from_u32, read_tag}
use wincode.Schema.{Schema}

pub data Bound {ℓ} (A : Type ℓ) : Type ℓ where
  unbounded : Bound A
  included excluded : A → Bound A

module _ {ℓ} {A : Type ℓ} (c : Configuration) (s : Schema A) where
  unfoldable pub bound_size_of : Bound A → Outcome WriteError ℕ
  bound_size_of unbounded = size_of_from_u32 c 0
  bound_size_of (included v) =
      bind (size_of_from_u32 c 1) (λ n. bind (s.size_of v) (λ k. ok (wrapping_add n k)))
  bound_size_of (excluded v) =
      bind (size_of_from_u32 c 2) (λ n. bind (s.size_of v) (λ k. ok (wrapping_add n k)))

  unfoldable pub bound_write : Bound A → Write
  bound_write unbounded = write_from_u32 c 0
  bound_write (included v) = write_from_u32 c 1 ▸ s.write v
  bound_write (excluded v) = write_from_u32 c 2 ▸ s.write v

  -- `match disc`
  unfoldable pub bound_from_disc : ℕ → Read (Bound A)
  bound_from_disc disc =
      if disc == 0
      then pure unbounded
      else if disc == 1
      then (do v ← s.get; pure (included v))
      else if disc == 2
      then (do v ← s.get; pure (excluded v))
      else raise (ReadError.invalid_tag_encoding disc)

  unfoldable pub bound_schema : ℕ → Schema (Bound A)
  bound_schema size_in_memory = record {
    write_meta = dynamic;
    read_meta = dynamic;
    mem_size = size_in_memory;
    to_memory = none;
    from_memory = none;
    size_of = bound_size_of;
    write = bound_write;
    get = (do disc ← read_tag c; bound_from_disc disc);
  }
