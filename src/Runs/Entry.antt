-- ===== src/Runs/Entry.antt =====
-- wincode/src/config/serde.rs on a vector of two `u16` values.
use wincode.Prelude.{
  ℕ, ◌+◌, ◌-◌, ◌≤◌, ◌≡◌, sym, ap, ◌∙◌, append-nil, ltb→lt, leb→le, refl, some, List, [], ◌∷◌,
  length, take, ok, checked_mul, arith,
}
use wincode.Reader.{slice, cursor}
use wincode.Reader.Safe.{After}
use wincode.IntEncoding.{u16, to_bytes, to_le_bytes}
use wincode.Config.{
  Configuration, wide, default_config, bincode_len, use_config, with_deserialization_size_limit,
  deserialization_size_limit, preallocation_size_limit,
}
use wincode.SeqLen.{
  len_type, prealloc_check, check_limit, to_opt_limit_with_config, limit_override, from_usize,
}
use wincode.Schema.{Schema}
use wincode.Schema.Laws.{Laws}
use wincode.Impls.Scalars.{int_schema}
use wincode.Impls.Scalars.Laws.{int_schema-Laws}
use wincode.Containers.{vec_schema}
use wincode.Containers.Laws.{IsVec, vec_schema-Laws}
use wincode.Elements.Writing.{seq_bytes}
use wincode.Serde.{
  serialize, serialized_size, deserialize, deserialize_from, deserialize_exact, no_trailing,
}
use wincode.Serde.RoundTrip.{
  Within, deserialize-serialize, serialize-reserved, deserialize_exact-bytes,
}
use wincode.Serde.Limits.{deserialize_from-within, deserialize_exact-consumes}

abbrev limited_config : Configuration
limited_config = with_deserialization_size_limit default_config 100

abbrev word : Schema ℕ
word = int_schema limited_config (wide u16)

abbrev words : Schema (List ℕ)
words = vec_schema limited_config (bincode_len use_config) word 24

words-Laws :
    Laws words
      (IsVec limited_config
        (bincode_len use_config)
        word
        (int_schema-Laws limited_config (wide u16)))
      (seq_bytes limited_config
        (bincode_len use_config)
        word
        (int_schema-Laws limited_config (wide u16)))
words-Laws =
    vec_schema-Laws limited_config (bincode_len use_config) word
      (int_schema-Laws limited_config (wide u16)) 24

abbrev two_words : List ℕ
two_words = 1 ∷ 300 ∷ []

abbrev two_words_bytes : List ℕ
two_words_bytes = 2 ∷ 0 ∷ 0 ∷ 0 ∷ 0 ∷ 0 ∷ 0 ∷ 0 ∷ 1 ∷ 0 ∷ 44 ∷ 1 ∷ []

two_words-IsVec :
    IsVec limited_config
      (bincode_len use_config)
      word
      (int_schema-Laws limited_config (wide u16))
      two_words
unfolding int_schema prealloc_check check_limit checked_mul to_opt_limit_with_config limit_override
    from_usize preallocation_size_limit to_bytes to_le_bytes len_type
    with_deserialization_size_limit
two_words-IsVec = (
  ((ltb→lt _ _ refl, (ltb→lt _ _ refl, tt)), (ltb→lt _ _ refl, leb→le _ _ refl), leb→le _ _ refl),
  refl,
)

two_words-fits : Within (deserialization_size_limit limited_config) (
    length (
      seq_bytes limited_config
        (bincode_len use_config)
        word
        (int_schema-Laws limited_config (wide u16))
        two_words))
unfolding to_bytes to_le_bytes with_deserialization_size_limit deserialization_size_limit
two_words-fits = leb→le _ _ refl

abbrev entry_bytes : List ℕ
entry_bytes =
    seq_bytes limited_config (bincode_len use_config) word
      (int_schema-Laws limited_config (wide u16)) two_words

-- The bytes are these.
entry_bytes-two_words : entry_bytes ≡ two_words_bytes
unfolding to_bytes to_le_bytes with_deserialization_size_limit
entry_bytes-two_words = refl

deserialize-serialize_example :
    (b : List ℕ) × (serialize (λ n. n) words two_words ≡ ok b)
    × (serialized_size words two_words ≡ ok (length b))
    × (deserialize limited_config words b ≡ ok two_words)
    × (deserialize_exact limited_config words b ≡ ok two_words)
deserialize-serialize_example =
    deserialize-serialize limited_config words words-Laws two_words two_words-IsVec (λ n. n) refl
      two_words-fits

four : length entry_bytes + 4 ≤ length entry_bytes + length entry_bytes
unfolding to_bytes to_le_bytes with_deserialization_size_limit
four = leb→le _ _ refl

-- An allocator that rounds the request of 12 bytes up to 16.
serialize-reserved_example :
    serialize (λ n. n + 4) words two_words
    ≡ ok (take (length entry_bytes - (length entry_bytes + 4 - length entry_bytes)) entry_bytes)
serialize-reserved_example =
    serialize-reserved words words-Laws two_words two_words-IsVec (λ n. n + 4) (omega arith) four

-- Within the limit of nine bytes, a length of two elements and a part of one.
abbrev nine_config : Configuration
nine_config = with_deserialization_size_limit default_config 9

abbrev long_input : List ℕ
long_input = 2 ∷ 0 ∷ 0 ∷ 0 ∷ 0 ∷ 0 ∷ 0 ∷ 0 ∷ 1 ∷ 0 ∷ 1 ∷ 0 ∷ []

limit_is_100 : deserialization_size_limit limited_config ≡ some 100
unfolding deserialization_size_limit with_deserialization_size_limit
limit_is_100 = refl

deserialize_from-within_example :
    After
      (λ n. n ≤ 100)
      (cursor two_words_bytes 0)
      (deserialize_from limited_config words (cursor two_words_bytes 0))
deserialize_from-within_example =
    deserialize_from-within limited_config words words-Laws 100 (cursor two_words_bytes 0) tt
      limit_is_100

nothing_left : no_trailing two_words [] ≡ ok two_words
unfolding no_trailing
nothing_left = refl

exact_two_words : deserialize_exact limited_config words entry_bytes ≡ ok two_words
exact_two_words =
    ap (deserialize_exact limited_config words) (sym (append-nil entry_bytes))
    ∙ deserialize_exact-bytes limited_config words words-Laws two_words two_words-IsVec []
        two_words-fits
    ∙ nothing_left

deserialize_exact-consumes_example :
    Within (deserialization_size_limit limited_config) (length entry_bytes)
    × (words.get (slice entry_bytes) ≡ (ok two_words, slice []))
deserialize_exact-consumes_example =
    deserialize_exact-consumes limited_config words words-Laws entry_bytes two_words exact_two_words
