-- ===== src/Runs/Collections.antt =====
-- The collections and readers of wincode at given values.
use wincode.Prelude.{
  ltb, ◌==◌, checked_mul, ℕ, ◌^◌, ◌<◌, ◌≡◌, ◌≢◌, refl, true, false, List, [], ◌∷◌, ◌++◌, ltb→lt,
  leb→le, if◌then◌else◌, ok, err, fault,
}
use wincode.Error.{size_limit_read}
use wincode.Reader.{Reader, slice, limit, Read, advance_cursor_checked}
use wincode.Reader.View.{copy-in_bounds}
use wincode.Reader.Limit.{Reach, here, next, handed, copying, IsWithin, Reach-IsWithin}
use wincode.Reader.StdCursor.{cursor_advance, cursor_advance-advance_cursor_checked}
use wincode.Writer.Writes.{Writes}
use wincode.IntEncoding.{u16, to_bytes, to_le_bytes, is_static}
use wincode.Config.{wide, default_config, bincode_len, use_config, preallocation_size_limit}
use wincode.Ints.Laws.{bytes_of}
use wincode.Ints.{int_meta}
use wincode.SeqLen.{
  len_type, prealloc_check, check_limit, to_opt_limit_with_config, limit_override, from_usize,
}
use wincode.Schema.{Schema}
use wincode.Schema.Laws.{Laws}
use wincode.Elements.{read_items}
use wincode.Elements.Writing.{seq_bytes}
use wincode.Containers.Laws.{IsVec}
use wincode.Containers.Guard.{guarded_decode}
use wincode.Containers.Guard.Laws.{handed_over, elements_read, guarded_decode-conserves}
use wincode.Containers.Others.{deque_write}
use wincode.Containers.Others.Deque.{deque_write-Writes}
use wincode.Impls.Scalars.{int_schema}
use wincode.Impls.Scalars.Laws.{int_schema-Laws}
use wincode.Impls.Collections.{Collection, insert_all, seq_v_schema}
use wincode.Impls.Collections.Laws.{IsCollection, collection_bytes, seq_v_schema-Laws}
use wincode.Impls.Maps.{seq_kv_schema}
use wincode.Impls.Maps.Laws.{IsMap, map_format, seq_kv_schema-Laws}

abbrev word : Schema ℕ
word = int_schema default_config (wide u16)

abbrev IsWord : ℕ → Type 0
IsWord v = v < 256 ^ 2

abbrev word_bytes : ℕ → List ℕ
word_bytes v = bytes_of default_config (wide u16) v

word-Laws : Laws word IsWord word_bytes
word-Laws = int_schema-Laws default_config (wide u16)

-- A map as the list of its entries by ascending key.
abbrev insert_sorted : ℕ × ℕ → List (ℕ × ℕ) → List (ℕ × ℕ)
insert_sorted e [] = e ∷ []
insert_sorted e (f ∷ entries) =
    let rest = insert_sorted e entries in
    if ltb e.0 f.0 then e ∷ f ∷ entries else if e.0 == f.0 then e ∷ entries else f ∷ rest

abbrev by_key : Collection (List (ℕ × ℕ)) (ℕ × ℕ)
by_key = record { with_capacity = λ n. []; insert = insert_sorted; iter = λ m. m }

seq_kv_schema-Laws_example :
    Laws
      (seq_kv_schema by_key word word default_config false 4 24)
      (IsMap by_key word word word-Laws word-Laws default_config 4)
      (map_format by_key word word word-Laws word-Laws default_config 4)
seq_kv_schema-Laws_example =
    seq_kv_schema-Laws by_key word word word-Laws word-Laws default_config 4 false 24

abbrev two_entries : List (ℕ × ℕ)
two_entries = (1, 10) ∷ (2, 20) ∷ []

two_entries-IsMap : IsMap by_key word word word-Laws word-Laws default_config 4 two_entries
unfolding to_bytes to_le_bytes len_type prealloc_check check_limit checked_mul
    to_opt_limit_with_config limit_override from_usize preallocation_size_limit insert_all
    int_schema int_meta is_static
two_entries-IsMap = (
  (
    ((ltb→lt _ _ refl, ltb→lt _ _ refl), ((ltb→lt _ _ refl, ltb→lt _ _ refl), tt)),
    (ltb→lt _ _ refl, leb→le _ _ refl),
    leb→le _ _ refl,
  ),
  refl,
  leb→le _ _ refl,
  λ capacity. refl,
)

-- A linked list.
abbrev linked_list : Collection (List ℕ) ℕ
linked_list = record { with_capacity = λ n. []; insert = λ v vs. vs ++ (v ∷ []); iter = λ vs. vs }

seq_v_schema-Laws_example :
    Laws
      (seq_v_schema linked_list word default_config false 24)
      (IsCollection linked_list default_config word word-Laws)
      (collection_bytes linked_list default_config word word-Laws)
seq_v_schema-Laws_example = seq_v_schema-Laws linked_list default_config word word-Laws false 24

two_words-IsVec :
    IsVec default_config (bincode_len use_config) word word-Laws ((1 ∷ []) ++ (300 ∷ []))
unfolding to_bytes to_le_bytes len_type prealloc_check check_limit checked_mul
    to_opt_limit_with_config limit_override from_usize preallocation_size_limit int_schema
two_words-IsVec = (
  ((ltb→lt _ _ refl, (ltb→lt _ _ refl, tt)), (ltb→lt _ _ refl, leb→le _ _ refl), leb→le _ _ refl),
  refl,
)

deque_write-Writes_example :
    Writes
      (deque_write default_config (bincode_len use_config) word (1 ∷ [], 300 ∷ []))
      (seq_bytes default_config (bincode_len use_config) word word-Laws ((1 ∷ []) ++ (300 ∷ [])))
deque_write-Writes_example =
    deque_write-Writes default_config (bincode_len use_config) word word-Laws (1 ∷ []) (300 ∷ [])
      two_words-IsVec

-- A type of one byte, over a slice.
abbrev first_byte : Read ℕ
first_byte (slice (b ∷ buf)) = (ok b, slice buf)
first_byte r = (err (size_limit_read 1), r)

abbrev byte_type : Schema ℕ
byte_type = record word { get = first_byte }

not_a_fault : (read_items byte_type 3 (slice (7 ∷ 8 ∷ []))).0 ≢ fault
unfolding read_items int_schema
not_a_fault e = cc

-- Two elements are read and dropped.
guarded_decode-conserves_example :
    ((guarded_decode true byte_type 3 (slice (7 ∷ 8 ∷ []))).answer
      ≡ (read_items byte_type 3 (slice (7 ∷ 8 ∷ []))).0)
    × (handed_over (guarded_decode true byte_type 3 (slice (7 ∷ 8 ∷ []))).answer
          ++ (guarded_decode true byte_type 3 (slice (7 ∷ 8 ∷ []))).dropped
        ≡ elements_read byte_type 3 (slice (7 ∷ 8 ∷ [])))
guarded_decode-conserves_example =
    guarded_decode-conserves byte_type 3 (slice (7 ∷ 8 ∷ [])) not_a_fault

abbrev three_bytes : Reader
three_bytes = slice (1 ∷ 2 ∷ 3 ∷ [])

copied_two : Reach (limit three_bytes 2) (limit (slice (3 ∷ [])) 0) 2
copied_two =
    next here
      (handed (1 ∷ 2 ∷ []) (copying 2) (copy-in_bounds 2 (limit three_bytes 2) (leb→le _ _ refl)))

Reach-IsWithin_example : IsWithin 2 (limit (slice (3 ∷ [])) 0) 2
Reach-IsWithin_example = Reach-IsWithin three_bytes 2 copied_two

cursor_advance-advance_cursor_checked_example :
    cursor_advance (1 ∷ 2 ∷ []) 3 0 ≡ advance_cursor_checked (1 ∷ 2 ∷ []) 3 0
cursor_advance-advance_cursor_checked_example =
    cursor_advance-advance_cursor_checked (1 ∷ 2 ∷ []) 3 0 (ltb→lt _ _ refl)
