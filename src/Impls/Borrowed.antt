-- ===== src/Impls/Borrowed.antt =====
-- `mod zero_copy` of wincode/src/schema/impls.rs, with `&T`, `&mut T`, `&[T]`, `&mut [T]` and `&str`:
-- values that are read as references into the backing memory, and `ZeroCopy::from_bytes` of
-- wincode/src/config/serde.rs.
pub mod Laws
pub mod Slices
use wincode.Prelude.{
  ℕ, ◌*◌, Bool, true, false, not, ◌&&◌, ◌||◌, Option, none, some, List, Outcome, ok, err, fault,
  bind, leb, ltb, if◌then◌else◌, checked_mul,
}
use wincode.Error.{ReadError, unaligned_pointer_read, usize_max}
use wincode.Reader.{Reader, Read, pure, raise, ◌>>=◌, take_borrowed, take_borrowed_mut}
use wincode.TypeMeta.{TypeMeta, static, dynamic}
use wincode.Config.{Configuration, deserialization_size_limit}
use wincode.SeqLen.{read}
use wincode.Schema.{Schema}
use wincode.Elements.{slice_from_memory}
use wincode.Serde.{limit_slice, limit_slice_mut}
use wincode.Impls.Strings.{from_utf8}

-- `size_assert_zero_copy`, which panics on any other type.
unfoldable pub size_assert_zero_copy : TypeMeta → Option ℕ
size_assert_zero_copy (static size true) = some size
size_assert_zero_copy (static size false) = none
size_assert_zero_copy dynamic = none

-- `cast_ensure_aligned`, by `align_of::<U>()` and `ptr.is_aligned()`.
unfoldable pub cast_ensure_aligned {ℓ} :
    {A : Type ℓ} → Configuration → ℕ → Bool → A → Outcome ReadError A
cast_ensure_aligned c align_of is_aligned ptr =
    if not c.zero_copy_align_check
    then ok ptr
    else if ltb 1 align_of && not is_aligned
    then err unaligned_pointer_read
    else ok ptr

-- A reference at an address that is not aligned is undefined behaviour.
unfoldable pub reference {ℓ} : {A : Type ℓ} → ℕ → Bool → A → Outcome ReadError A
reference align_of is_aligned val = if leb align_of 1 || is_aligned then ok val else fault

-- `cast_slice_to_t`, `cast_slice_to_slice_t` and their `mut` versions, by the value at the pointer.
abbrev pub cast_slice {ℓ} : {A : Type ℓ} → Configuration → ℕ → Bool → A → Outcome ReadError A
cast_slice c align_of is_aligned val =
    bind (cast_ensure_aligned c align_of is_aligned val) (reference align_of is_aligned)

-- `is_aligned` tells whether the next byte of a reader lies at an address that is aligned for `T`.
module _ {ℓ} {A : Type ℓ} (c : Configuration) (align_of : ℕ) (is_aligned : Reader → Bool)
    (s : Schema A) where
  unfoldable pub cast_taken {κ} :
      {B : Type κ} → Bool → (List ℕ → B) → Outcome ReadError (List ℕ) → Outcome ReadError B
  cast_taken aligned from (ok bytes) = cast_slice c align_of aligned (from bytes)
  cast_taken aligned from (err e) = err e
  cast_taken aligned from fault = fault

  -- The read of `&T` and `&mut T`, by the method that lends the bytes.
  unfoldable pub ref_by_size : (ℕ → Read (List ℕ)) → Option ℕ → Option (List ℕ → A) → Read A
  ref_by_size take_bytes (some size) (some from) r =
      let (o, r') = take_bytes size r in (cast_taken (is_aligned r) from o, r')
  ref_by_size take_bytes size from r = (fault, r)

  abbrev pub ref_get : Read A
  ref_get = ref_by_size take_borrowed (size_assert_zero_copy s.read_meta) s.from_memory

  abbrev pub ref_mut_get : Read A
  ref_mut_get = ref_by_size take_borrowed_mut (size_assert_zero_copy s.read_meta) s.from_memory

  unfoldable pub slice_of_size :
      (ℕ → Read (List ℕ)) → (List ℕ → A) → ℕ → ℕ → Option ℕ → Read (List A)
  slice_of_size take_bytes from size len none = raise (ReadError.length_encoding_overflow usize_max)
  slice_of_size take_bytes from size len (some total_size) = λ r.
      let (o, r') = take_bytes total_size r in
      (cast_taken (is_aligned r) (slice_from_memory from size len) o, r')

  -- `read_with_context(context::Len(len))` of `&[T]`.
  unfoldable pub ref_slice_with_len :
      (ℕ → Read (List ℕ)) → Option ℕ → Option (List ℕ → A) → ℕ → Read (List A)
  ref_slice_with_len take_bytes (some size) (some from) len =
      slice_of_size take_bytes from size len (checked_mul len size)
  ref_slice_with_len take_bytes size from len = λ r. (fault, r)

  abbrev pub ref_slice_get : Read (List A)
  ref_slice_get = do
    len ← read c c.length_encoding
    ref_slice_with_len take_borrowed (size_assert_zero_copy s.read_meta) s.from_memory len

  -- `&mut [T]`; `read_slice_len_checked` makes the same product.
  abbrev pub ref_mut_slice_get : Read (List A)
  ref_mut_slice_get = do
    len ← read c c.length_encoding
    ref_slice_with_len take_borrowed_mut (size_assert_zero_copy s.read_meta) s.from_memory len

  unfoldable pub from_bytes : List ℕ → Outcome ReadError A
  from_bytes bytes = limit_slice (deserialization_size_limit c) ref_get bytes

  unfoldable pub from_bytes_mut : List ℕ → Outcome ReadError A
  from_bytes_mut bytes = limit_slice_mut (deserialization_size_limit c) ref_mut_get bytes

-- `&str`
unfoldable pub borrowed_str_get : (List ℕ → Bool) → Configuration → Read (List ℕ)
borrowed_str_get is_utf8 c = do
  len ← read c c.length_encoding
  bytes ← take_borrowed len
  from_utf8 is_utf8 bytes
