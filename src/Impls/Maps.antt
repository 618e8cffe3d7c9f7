-- ===== src/Impls/Maps.antt =====
-- `impl_seq_kv!` of wincode/src/schema/impls.rs: the maps of the standard library (`BTreeMap`,
-- `HashMap`), which are iterated to write and inserted into to read.
pub mod Entries
pub mod Laws
use wincode.Prelude.{
  ℕ, zero, suc, Bool, Option, none, some, List, [], ◌∷◌, length, Outcome, ok, err, bind,
  wrapping_add, wrapping_mul, checked_add,
}
use wincode.Error.{ReadError, WriteError, usize_max, write_error}
use wincode.Reader.{Read, pure, raise, ◌>>=◌, as_trusted_for_seq}
use wincode.Writer.{Write, ◌▸◌, done, as_trusted_for}
use wincode.TypeMeta.{TypeMeta, static, dynamic}
use wincode.Config.{Configuration}
use wincode.SeqLen.{
  prealloc_check, write_len, write_bytes_needed, write_bytes_needed_prealloc_check,
  read_prealloc_check,
}
use wincode.Schema.{Schema}
use wincode.Impls.Collections.{Collection, seq_capacity}

module _ {ℓ} {K V : Type ℓ} (s : Schema K) (t : Schema V) where
  -- The `try_fold` of `size_of`.
  unfoldable pub fold_entries : ℕ → List (K × V) → Outcome WriteError ℕ
  fold_entries acc [] = ok acc
  fold_entries acc ((k, v) ∷ entries) =
      bind (s.size_of k)
        (λ x. bind (t.size_of v) (λ y. fold_entries (wrapping_add (wrapping_add acc x) y) entries))

  -- `for (k, v) in src.iter()` of `write`.
  unfoldable pub write_entries : List (K × V) → Write
  write_entries [] = done
  write_entries ((k, v) ∷ entries) = (s.write k ▸ t.write v) ▸ write_entries entries

module _ {ℓ} {K V : Type ℓ} (c : Configuration) (s : Schema K) (t : Schema V) where
  unfoldable pub map_size_by_meta : TypeMeta → TypeMeta → List (K × V) → Outcome WriteError ℕ
  map_size_by_meta (static key_size x) (static value_size y) entries =
      bind (write_bytes_needed c c.length_encoding (length entries)) (λ n.
        ok (wrapping_add n (wrapping_mul (wrapping_add key_size value_size) (length entries))))
  map_size_by_meta (static key_size x) dynamic entries =
      bind (write_bytes_needed c c.length_encoding (length entries))
        (λ n. bind (fold_entries s t 0 entries) (λ k. ok (wrapping_add n k)))
  map_size_by_meta dynamic b entries =
      bind (write_bytes_needed c c.length_encoding (length entries))
        (λ n. bind (fold_entries s t 0 entries) (λ k. ok (wrapping_add n k)))

  abbrev pub write_map_entries : List (K × V) → Write
  write_map_entries entries =
      write_len c c.length_encoding (length entries) ▸ write_entries s t entries

  -- `prealloc_check::<(K::Src, V::Src)>(len)?` before the length, by the size of a pair in memory.
  unfoldable pub write_map_checked : ℕ → List (K × V) → Write
  write_map_checked pair_size entries w =
      elim (prealloc_check c c.length_encoding pair_size (length entries)) [
        | some e ↦ err (write_error e)
        | none ↦ write_map_entries entries w
      ]

  unfoldable pub map_write_by_meta : TypeMeta → TypeMeta → ℕ → List (K × V) → Write
  map_write_by_meta (static key_size x) (static value_size y) pair_size entries w =
      bind (write_bytes_needed_prealloc_check c c.length_encoding pair_size (length entries)) (λ n.
        as_trusted_for
          (wrapping_add n (wrapping_mul (wrapping_add key_size value_size) (length entries)))
          (write_map_entries entries) w)
  map_write_by_meta (static key_size x) dynamic pair_size entries w =
      write_map_checked pair_size entries w
  map_write_by_meta dynamic b pair_size entries w = write_map_checked pair_size entries w

module _ {ℓ} {C K V : Type ℓ} (col : Collection C (K × V)) (s : Schema K) (t : Schema V) where
  unfoldable pub insert_entries : ℕ → C → Read C
  insert_entries zero map = pure map
  insert_entries (suc len) map = do k ← s.get; v ← t.get; insert_entries len (col.insert (k, v) map)

  -- `key_size.checked_add(value_size)` and the read through the trusted window.
  unfoldable pub trusted_entries : Option ℕ → ℕ → ℕ → Read C
  trusted_entries none capacity len = raise (ReadError.length_encoding_overflow usize_max)
  trusted_entries (some el_size) capacity len =
      as_trusted_for_seq len el_size (insert_entries len (col.with_capacity capacity))

  unfoldable pub map_collect_by_meta : TypeMeta → TypeMeta → ℕ → ℕ → Read C
  map_collect_by_meta (static key_size x) (static value_size y) capacity len =
      trusted_entries (checked_add key_size value_size) capacity len
  map_collect_by_meta (static key_size x) dynamic capacity len =
      insert_entries len (col.with_capacity capacity)
  map_collect_by_meta dynamic b capacity len = insert_entries len (col.with_capacity capacity)

  module _ (c : Configuration) (cap_unique_keys : Bool) where
    unfoldable pub seq_kv_read : ℕ → Read C
    seq_kv_read pair_size = do
      len ← read_prealloc_check c c.length_encoding pair_size
      map_collect_by_meta s.read_meta t.read_meta (seq_capacity cap_unique_keys s.mem_size len) len

    -- The sizes in memory of a pair and of the map's own header are the platform's.
    unfoldable pub seq_kv_schema : ℕ → ℕ → Schema C
    seq_kv_schema pair_size header_size = record {
      write_meta = dynamic;
      read_meta = dynamic;
      mem_size = header_size;
      to_memory = none;
      from_memory = none;
      size_of = λ map. map_size_by_meta c s t s.write_meta t.write_meta (col.iter map);
      write = λ map. map_write_by_meta c s t s.write_meta t.write_meta pair_size (col.iter map);
      get = seq_kv_read pair_size;
    }
