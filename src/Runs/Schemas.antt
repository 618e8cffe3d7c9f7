-- ===== src/Runs/Schemas.antt =====
-- The schemas of wincode/src/schema at given types and values.
use wincode.Prelude.{
  leb, ◌&&◌, Bool, checked_mul, ℕ, ◌^◌, ◌%◌, ◌≤◌, max_usize, ◌<◌, ◌≡◌, refl, true, false, List, [],
  ◌∷◌, All, IsErr, ltb→lt, leb→le, ◌↔◌,
}
use wincode.Writer
use wincode.Writer.Writes.{Writes}
use wincode.IntEncoding.{u16, is_static, is_zero_copy, to_bytes, to_le_bytes}
use wincode.TypeMeta.{TypeMeta, static, join_types}
use wincode.TypeMeta.Join.{IsStatic, sum_sizes, all_zero_copy, join_types_lem}
use wincode.Config.{u8, wide, default_config, bincode_len, use_config, preallocation_size_limit}
use wincode.Ints.{size_of_type, int_meta}
use wincode.Ints.Laws.{bytes_of}
use wincode.SeqLen.{
  len_type, prealloc_check, check_limit, to_opt_limit_with_config, limit_override, from_usize,
}
use wincode.Impls.Durations.Laws.{IsDuration}
use wincode.Impls.Results.{result_schema}
use wincode.Impls.Results.Laws.{IsResult, result_bytes, result_schema-Laws}
use wincode.Impls.Strings.Laws.{IsText}
use wincode.SeqLen.Laws.{IsEncodable}
use wincode.Schema.{Schema}
use wincode.Schema.Laws.{Laws}
use wincode.Impls.Scalars.{int_schema}
use wincode.Impls.Scalars.Laws.{int_schema-Laws}
use wincode.Impls.Options.{option_schema}
use wincode.Impls.Options.Laws.{IsOption, option_bytes, option_schema-Laws}
use wincode.Impls.Arrays.{array_schema}
use wincode.Impls.Arrays.Laws.{IsArray, elements, array_schema-Laws}
use wincode.Containers.{vec_schema}
use wincode.Containers.Laws.{IsVec, vec_schema-Laws}
use wincode.Elements.{write_elem_slice, write_elem_iter}
use wincode.Elements.Writing.{IsSequence, seq_bytes, write_elem_slice-Writes}
use wincode.Elements.Iter.{window_size, write_elem_iter-short}

abbrev word : Schema ℕ
word = int_schema default_config (wide u16)

abbrev IsWord : ℕ → Type 0
IsWord v = v < 256 ^ 2

abbrev word_bytes : ℕ → List ℕ
word_bytes v = bytes_of default_config (wide u16) v

word-Laws : Laws word IsWord word_bytes
word-Laws = int_schema-Laws default_config (wide u16)

abbrev two_words : List ℕ
two_words = 1 ∷ 300 ∷ []

two_words-IsWord : All IsWord two_words
two_words-IsWord = (ltb→lt _ _ refl, (ltb→lt _ _ refl, tt))

int_schema-Laws_example :
    Laws
      (int_schema default_config u8)
      (λ v. v < 256 ^ size_of_type u8)
      (bytes_of default_config u8)
int_schema-Laws_example = int_schema-Laws default_config u8

option_schema-Laws_example :
    Laws (option_schema word 4) (IsOption word word-Laws) (option_bytes word word-Laws)
option_schema-Laws_example = option_schema-Laws word word-Laws 4

array_schema-Laws_example :
    Laws (array_schema word 3) (IsArray word word-Laws 3) (elements word word-Laws 3)
array_schema-Laws_example = array_schema-Laws word word-Laws 3

vec_schema-Laws_example :
    Laws
      (vec_schema default_config (bincode_len use_config) word 24)
      (IsVec default_config (bincode_len use_config) word word-Laws)
      (seq_bytes default_config (bincode_len use_config) word word-Laws)
vec_schema-Laws_example = vec_schema-Laws default_config (bincode_len use_config) word word-Laws 24

two_words-IsSequence : IsSequence default_config (bincode_len use_config) word word-Laws two_words
unfolding to_bytes to_le_bytes len_type
two_words-IsSequence = (two_words-IsWord, (ltb→lt _ _ refl, leb→le _ _ refl), leb→le _ _ refl)

write_elem_slice-Writes_example :
    Writes
      (write_elem_slice default_config (bincode_len use_config) word two_words)
      (seq_bytes default_config (bincode_len use_config) word word-Laws two_words)
write_elem_slice-Writes_example =
    write_elem_slice-Writes default_config (bincode_len use_config) word word-Laws two_words
      two_words-IsSequence

three-IsEncodable : IsEncodable (bincode_len use_config) 3
unfolding len_type
three-IsEncodable = (ltb→lt _ _ refl, leb→le _ _ refl)

small_window :
    window_size word word-Laws default_config (bincode_len use_config) word.write_meta 3 ≤ max_usize
unfolding int_schema int_meta is_static is_zero_copy to_bytes to_le_bytes len_type
small_window = leb→le _ _ refl

-- An iterator that reported three elements and yields two.
write_elem_iter-short_example :
    IsErr (
      write_elem_iter default_config
        (bincode_len use_config)
        word
        3
        two_words
        (Writer.slice [] 100))
write_elem_iter-short_example =
    write_elem_iter-short word word-Laws default_config (bincode_len use_config) 3 two_words
      (Writer.slice [] 100) (ltb→lt _ _ refl) two_words-IsWord three-IsEncodable small_window tt tt

abbrev two_types : List TypeMeta
two_types = static 1 true ∷ static 2 false ∷ []

join_types_lem_example :
    (IsStatic (join_types two_types) ↔ All IsStatic two_types)
    × (All IsStatic two_types
        → join_types two_types ≡ static (sum_sizes two_types % 2 ^ 64) (all_zero_copy two_types))
join_types_lem_example = join_types_lem two_types

result_schema-Laws_example :
    Laws
      (result_schema default_config word word 4)
      (IsResult default_config word word word-Laws word-Laws)
      (result_bytes default_config word word word-Laws word-Laws)
result_schema-Laws_example = result_schema-Laws default_config word word word-Laws word-Laws 4

-- Text of ASCII characters only.
abbrev is_ascii : List ℕ → Bool
is_ascii [] = true
is_ascii (b ∷ bs) = leb b 127 && is_ascii bs

ascii-IsText : IsText is_ascii default_config (104 ∷ 105 ∷ [])
unfolding to_bytes to_le_bytes len_type prealloc_check check_limit checked_mul
    to_opt_limit_with_config limit_override from_usize preallocation_size_limit
ascii-IsText = (refl, (ltb→lt _ _ refl, leb→le _ _ refl), refl, leb→le _ _ refl)

one_second-IsDuration : IsDuration default_config (1, 5)
one_second-IsDuration = (ltb→lt _ _ refl, ltb→lt _ _ refl)
