-- ===== src/Impls/Collections.antt =====
-- `impl_seq_v!` of wincode/src/schema/impls.rs: the sets and lists of the standard library
-- (`BTreeSet`, `HashSet`, `LinkedList`), which are iterated to write and inserted into to read.
pub mod Laws
use wincode.Prelude.{ℕ, zero, suc, Bool, true, false, none, List, [], ◌∷◌, length}
use wincode.Reader.{Read, pure, ◌>>=◌, as_trusted_for_seq}
use wincode.TypeMeta.{TypeMeta, static, dynamic}
use wincode.Config.{Configuration}
use wincode.SeqLen.{read_prealloc_check, unique_key_capacity}
use wincode.Schema.{Schema}
use wincode.Elements.{size_of_elems, write_elem_iter_prealloc_check}

-- What the macros use of a collection: `with_capacity`, `insert` or `push_back`, and `iter`, whose
-- length is `len()`.
pub record Collection {ℓ} (C A : Type ℓ) : Type ℓ where
  pub with_capacity : ℕ → C
  pub insert : A → C → C
  pub iter : C → List A

module _ {ℓ} {C A : Type ℓ} (col : Collection C A) where
  -- Inserting the elements one after the other.
  unfoldable pub insert_all : List A → C → C
  insert_all [] set = set
  insert_all (v ∷ vs) set = insert_all vs (col.insert v set)

-- `seq_capacity!`, with and without `cap_unique_keys`, by the size of a key in memory.
unfoldable pub seq_capacity : Bool → ℕ → ℕ → ℕ
seq_capacity false size_of_key len = len
seq_capacity true size_of_key len = unique_key_capacity size_of_key len

module _ {ℓ} {C A : Type ℓ} (col : Collection C A) (s : Schema A) where
  -- `for _ in 0..len { set.insert(K::get(reader.by_ref())?); }`
  unfoldable pub insert_items : ℕ → C → Read C
  insert_items zero set = pure set
  insert_items (suc len) set = do v ← s.get; insert_items len (col.insert v set)

  unfoldable pub collect_by_meta : TypeMeta → ℕ → ℕ → Read C
  collect_by_meta (static size z) capacity len =
      as_trusted_for_seq len size (insert_items len (col.with_capacity capacity))
  collect_by_meta dynamic capacity len = insert_items len (col.with_capacity capacity)

  module _ (c : Configuration) (cap_unique_keys : Bool) where
    unfoldable pub seq_v_read : Read C
    seq_v_read = do
      len ← read_prealloc_check c c.length_encoding s.mem_size
      collect_by_meta s.read_meta (seq_capacity cap_unique_keys s.mem_size len) len

    -- The size of the collection's own header in memory is the platform's.
    unfoldable pub seq_v_schema : ℕ → Schema C
    seq_v_schema header_size = record {
      write_meta = dynamic;
      read_meta = dynamic;
      mem_size = header_size;
      to_memory = none;
      from_memory = none;
      size_of = λ set. size_of_elems c c.length_encoding s (col.iter set);
      write = λ set.
          write_elem_iter_prealloc_check c c.length_encoding s (length (col.iter set))
            (col.iter set);
      get = seq_v_read;
    }
