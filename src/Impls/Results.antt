-- ===== src/Impls/Results.antt =====
-- `Result<T, E>` of wincode/src/schema/impls.rs.
pub mod Laws
use wincode.Prelude.{
  ℕ, ◌+◌, ◌==◌, false, none, ◌⊎◌, inl, inr, Outcome, ok, bind, wrapping_add, if◌then◌else◌,
}
use wincode.Error.{ReadError, WriteError}
use wincode.Reader.{Read, pure, raise, ◌>>=◌}
use wincode.Writer.{Write, ◌▸◌}
use wincode.TypeMeta.{TypeMeta, static, dynamic}
use wincode.Config.{Configuration}
use wincode.Ints.{int_meta}
use wincode.TagEncoding.{size_of_from_u32, write_from_u32, read_tag}
use wincode.Schema.{Schema}

-- The metadata of the two sides and of the discriminant.
unfoldable pub result_meta : TypeMeta → TypeMeta → TypeMeta → TypeMeta
result_meta (static t_size x) (static e_size y) (static disc_size z) =
    if t_size == e_size then static (disc_size + t_size) false else dynamic
result_meta (static t_size x) (static e_size y) dynamic = dynamic
result_meta (static t_size x) dynamic d = dynamic
result_meta dynamic e d = dynamic

module _ {ℓ κ} {A : Type ℓ} {B : Type κ} (c : Configuration) (s : Schema A) (t : Schema B) where
  -- `match disc`
  unfoldable pub result_from_disc : ℕ → Read (A ⊎ B)
  result_from_disc disc =
      if disc == 0
      then (do v ← s.get; pure (inl v))
      else if disc == 1
      then (do e ← t.get; pure (inr e))
      else raise (ReadError.invalid_tag_encoding disc)

  unfoldable pub result_size_of : A ⊎ B → Outcome WriteError ℕ
  result_size_of (inl v) =
      bind (size_of_from_u32 c 0) (λ n. bind (s.size_of v) (λ k. ok (wrapping_add n k)))
  result_size_of (inr e) =
      bind (size_of_from_u32 c 1) (λ n. bind (t.size_of e) (λ k. ok (wrapping_add n k)))

  unfoldable pub result_write : A ⊎ B → Write
  result_write (inl v) = write_from_u32 c 0 ▸ s.write v
  result_write (inr e) = write_from_u32 c 1 ▸ t.write e

  -- `inl` is `Ok` and `inr` is `Err`. The size in memory is the compiler's choice.
  unfoldable pub result_schema : ℕ → Schema (A ⊎ B)
  result_schema size_in_memory = record {
    write_meta = result_meta s.write_meta t.write_meta (int_meta c c.tag_encoding);
    read_meta = result_meta s.read_meta t.read_meta (int_meta c c.tag_encoding);
    mem_size = size_in_memory;
    to_memory = none;
    from_memory = none;
    size_of = result_size_of;
    write = result_write;
    get = (do disc ← read_tag c; result_from_disc disc);
  }
