-- ===== src/Elements.antt =====
-- The sequences of wincode/src/schema: `size_of_elem_iter` and the functions after it in mod.rs, and
-- `decode_into_slice_t` of containers.rs.
pub mod Bytes
pub mod Reading
pub mod Writing
pub mod Iter
use wincode.Prelude.{
  ℕ, zero, suc, ◌*◌, true, false, Option, none, some, List, [], ◌∷◌, ◌++◌, length, take, drop,
  Outcome, ok, err, fault, bind, wrapping_add, wrapping_mul,
}
use wincode.Error.{WriteError, short_iter, write_error}
use wincode.Reader.{Reader, Read, pure, ◌>>=◌, copy_into_slice_t, as_trusted_for_seq}
use wincode.Writer.{Writer, Write, ◌▸◌, done, refuse, write, as_trusted_for}
use wincode.TypeMeta.{TypeMeta, static, dynamic}
use wincode.Config.{Configuration, LengthEncoding}
use wincode.SeqLen.{prealloc_check, write_len, write_bytes_needed}
use wincode.Schema.{Schema}

module _ {ℓ} {A : Type ℓ} where
  -- The bytes of a slice in memory, and the slice that given bytes are.
  unfoldable pub slice_to_memory : (A → List ℕ) → List A → List ℕ
  slice_to_memory m [] = []
  slice_to_memory m (v ∷ vs) = m v ++ slice_to_memory m vs

  unfoldable pub slice_from_memory : (List ℕ → A) → ℕ → ℕ → List ℕ → List A
  slice_from_memory m size zero bytes = []
  slice_from_memory m size (suc len) bytes =
      m (take size bytes) ∷ slice_from_memory m size len (drop size bytes)

  -- `write_slice_t` and `copy_into_slice_t`. A type without a plain layout breaks their contract.
  unfoldable pub write_slice_t : Option (A → List ℕ) → List A → Write
  write_slice_t (some m) vs w = write (slice_to_memory m vs) w
  write_slice_t none vs w = fault

  unfoldable pub read_slice_t : Option (List ℕ → A) → ℕ → ℕ → Read (List A)
  read_slice_t (some m) len size = do
    bytes ← copy_into_slice_t len size
    pure (slice_from_memory m size len bytes)
  read_slice_t none len size = λ r. (fault, r)

module _ {ℓ} {A : Type ℓ} (s : Schema A) where
  -- `try_fold(0usize, |acc, x| x.map(|x| acc + x))` over the sizes
  unfoldable pub fold_sizes : ℕ → List A → Outcome WriteError ℕ
  fold_sizes acc [] = ok acc
  fold_sizes acc (v ∷ vs) = bind (s.size_of v) (λ x. fold_sizes (wrapping_add acc x) vs)

  -- The loop of `write_elems!` over an iterator that reported `len` elements and yields `items`.
  unfoldable pub write_items : ℕ → List A → Write
  write_items zero items = done
  write_items (suc len) [] = refuse (WriteError.custom short_iter)
  write_items (suc len) (v ∷ items) = s.write v ▸ write_items len items

  -- The loop `for i in 0..len` of `decode_into_slice_t`.
  unfoldable pub read_items : ℕ → Read (List A)
  read_items zero = pure []
  read_items (suc len) = do v ← s.get; vs ← read_items len; pure (v ∷ vs)

  unfoldable pub decode_by_meta : TypeMeta → ℕ → Read (List A)
  decode_by_meta (static size true) len = read_slice_t s.from_memory len s.mem_size
  decode_by_meta (static size false) len = as_trusted_for_seq len size (read_items len)
  decode_by_meta dynamic len = read_items len

  abbrev pub decode_into_slice_t : ℕ → Read (List A)
  decode_into_slice_t len = decode_by_meta s.read_meta len

module _ {ℓ} {A : Type ℓ} (c : Configuration) (l : LengthEncoding) (s : Schema A) where
  unfoldable pub size_by_meta : TypeMeta → List A → Outcome WriteError ℕ
  size_by_meta (static size z) vs =
      bind (write_bytes_needed c l (length vs))
        (λ n. ok (wrapping_add n (wrapping_mul size (length vs))))
  size_by_meta dynamic vs =
      bind (write_bytes_needed c l (length vs))
        (λ n. bind (fold_sizes s 0 vs) (λ k. ok (wrapping_add n k)))

  -- `size_of_elem_iter`, and `size_of_elem_slice`
  abbrev pub size_of_elems : List A → Outcome WriteError ℕ
  size_of_elems vs = size_by_meta s.write_meta vs

  abbrev pub write_elems : ℕ → List A → Write
  write_elems len items = write_len c l len ▸ write_items s len items

  unfoldable pub write_iter_by_meta : TypeMeta → ℕ → List A → Write
  write_iter_by_meta (static size z) len items w =
      bind (write_bytes_needed c l len)
        (λ n. as_trusted_for (wrapping_add n (wrapping_mul size len)) (write_elems len items) w)
  write_iter_by_meta dynamic len items w = write_elems len items w

  abbrev pub write_elem_iter : ℕ → List A → Write
  write_elem_iter len items = write_iter_by_meta s.write_meta len items

  unfoldable pub write_slice_by_meta : TypeMeta → List A → Write
  write_slice_by_meta (static size true) vs w = bind (write_bytes_needed c l (length vs)) (λ n.
      as_trusted_for (wrapping_add n (wrapping_mul (length vs) size))
        (write_len c l (length vs) ▸ write_slice_t s.to_memory vs) w)
  write_slice_by_meta (static size false) vs w = write_elem_iter (length vs) vs w
  write_slice_by_meta dynamic vs w = write_elem_iter (length vs) vs w

  abbrev pub write_elem_slice : List A → Write
  write_elem_slice vs = write_slice_by_meta s.write_meta vs

  unfoldable pub write_elem_iter_prealloc_check : ℕ → List A → Write
  write_elem_iter_prealloc_check len items w = elim (prealloc_check c l s.mem_size len) [
    | some e ↦ err (write_error e)
    | none ↦ write_elem_iter len items w
  ]

  unfoldable pub write_elem_slice_prealloc_check : List A → Write
  write_elem_slice_prealloc_check vs w = elim (prealloc_check c l s.mem_size (length vs)) [
    | some e ↦ err (write_error e)
    | none ↦ write_elem_slice vs w
  ]
