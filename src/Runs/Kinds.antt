-- ===== src/Runs/Kinds.antt =====
-- The schemas of single types and the adapters of wincode at given types and values.
use wincode.Prelude.{
  leb, ◌&&◌, ℕ, zero, suc, ◌^◌, ◌<◌, ◌≤◌, ◌≡◌, ◌⊎◌, inr, refl, sym, ap₂, Bool, true, false, List,
  [], ◌∷◌, ◌++◌, append-nil, All, ltb→lt, leb→le, length, ok, max_usize, arith,
}
use wincode.Reader.{Reader, slice}
use wincode.Reader.View.{advance}
use wincode.Reader.Reads.{Reads}
use wincode.Reader.Parses.{Parses}
use wincode.Reader.Safe.{SafeDynamic}
use wincode.Reader.Borrow.{supports_borrow-slice}
use wincode.Writer.Writes.{Writes}
use wincode.IntEncoding.{u16, to_bytes, to_le_bytes, is_static, is_zero_copy}
use wincode.TypeMeta.{static}
use wincode.Config.{u8, wide, default_config, bincode_len, use_config}
use wincode.Ints.{int_meta}
use wincode.Ints.Laws.{bytes_of}
use wincode.SeqLen.{len_type}
use wincode.SeqLen.Laws.{len_bytes, IsEncodable}
use wincode.Schema.{Schema}
use wincode.Schema.Laws.{Laws, SafeFor}
use wincode.Elements.Bytes.{concat_bytes}
use wincode.Elements.Writing.{seq_bytes}
use wincode.Containers.Laws.{IsVec}
use wincode.Impls.Scalars.{int_schema}
use wincode.Impls.Scalars.Laws.{int_schema-Laws}
use wincode.Impls.Chars.{is_scalar, encode_utf8, char_read, char_schema}
use wincode.Impls.Chars.Utf8.{IsScalar, IsUtf8}
use wincode.Impls.Chars.Laws.{char_schema-Laws}
use wincode.Impls.Signed.{signed_schema}
use wincode.Impls.Signed.Laws.{signed_bytes, signed_schema-Laws}
use wincode.IntEncoding.Signed.{InRange}
use wincode.Impls.Chars.Canonical.{IsEncoding, char_read-canonical}
use wincode.Impls.Ranges.{RangeInclusive, ends, range_inclusive_schema}
use wincode.Impls.Ranges.Laws.{IsRange, inclusive_bytes, range_inclusive_schema-resets}
use wincode.Impls.Addresses.{SocketV6, socket_addr_schema}
use wincode.Impls.Addresses.Versions.{
  IsSocketAddr, socket_addr_bytes, forget, socket_addr_schema-forgets,
}
use wincode.Impls.Borrowed.{ref_get, ref_slice_get}
use wincode.Impls.Borrowed.Laws.{ref_get-get}
use wincode.Impls.Borrowed.Slices.{ref_slice_get-sequence}
use wincode.Adapters.{from_into_schema, discard_seq_schema}
use wincode.Adapters.Laws.{IsTarget, wire_bytes, from_into_schema-Laws}
use wincode.Adapters.Discarding.{discard_seq_schema-discards}

abbrev word : Schema ℕ
word = int_schema default_config (wide u16)

abbrev IsWord : ℕ → Type 0
IsWord v = v < 256 ^ 2

abbrev word_bytes : ℕ → List ℕ
word_bytes v = bytes_of default_config (wide u16) v

word-Laws : Laws word IsWord word_bytes
word-Laws = int_schema-Laws default_config (wide u16)

abbrev byte : Schema ℕ
byte = int_schema default_config u8

abbrev IsByte : ℕ → Type 0
IsByte v = v < 256 ^ 1

byte-Laws : Laws byte IsByte (bytes_of default_config u8)
byte-Laws = int_schema-Laws default_config u8

-- Text of ASCII characters only.
abbrev is_ascii : List ℕ → Bool
is_ascii [] = true
is_ascii (b ∷ bs) = leb b 127 && is_ascii bs

small_point : (b : ℕ) → leb b 127 ≡ true → (is_scalar b ≡ true) × (encode_utf8 b ≡ b ∷ [])
unfolding is_scalar encode_utf8
small_point b h = (ground arith, ground arith)

both : (x y : Bool) → (x && y) ≡ true → (x ≡ true) × (y ≡ true)
both true true e = (refl, refl)
both true false e = absurd cc
both false y e = absurd cc

ascii_points :
    (bs : List ℕ) → is_ascii bs ≡ true → All IsScalar bs × (concat_bytes encode_utf8 bs ≡ bs)
ascii_points [] e = (tt, refl)
ascii_points (b ∷ bs) e =
    let (p, q) = both (leb b 127) (is_ascii bs) e in
    let (scalar, same) = small_point b p in
    let (all, rest) = ascii_points bs q in ((scalar, all), ap₂ (λ x y. x ++ y) same rest)

is_ascii-IsUtf8 : IsUtf8 is_ascii
is_ascii-IsUtf8 bs e = let (all, same) = ascii_points bs e in (bs, all, same)

char_schema-Laws_example : Laws (char_schema is_ascii) IsScalar encode_utf8
char_schema-Laws_example = char_schema-Laws is_ascii is_ascii-IsUtf8

signed_schema-Laws_example :
    Laws
      (signed_schema default_config (wide u16))
      (InRange 2)
      (signed_bytes default_config (wide u16))
signed_schema-Laws_example = signed_schema-Laws default_config (wide u16)

char_read-canonical_example : Parses (char_read is_ascii) IsEncoding
char_read-canonical_example = char_read-canonical is_ascii

-- A range of which the iteration has ended.
abbrev ended : RangeInclusive ℕ
ended = record { start = 2; end = 2; exhausted = true }

ended-IsRange : IsRange word word-Laws (ends ended)
unfolding to_bytes to_le_bytes
ended-IsRange = (ltb→lt _ _ refl, ltb→lt _ _ refl, leb→le _ _ refl)

range_inclusive_schema-resets_example :
    Writes ((range_inclusive_schema word 6).write ended) (inclusive_bytes word word-Laws 6 ended)
    × ((range_inclusive_schema word 6).size_of ended
        ≡ ok (length (inclusive_bytes word word-Laws 6 ended)))
    × Reads
        (range_inclusive_schema word 6).get
        (inclusive_bytes word word-Laws 6 ended)
        (record ended { exhausted = false })
    × SafeFor (range_inclusive_schema word 6).read_meta (range_inclusive_schema word 6).get
range_inclusive_schema-resets_example =
    range_inclusive_schema-resets word word-Laws 6 ended ended-IsRange

-- The loopback address of version 6, with a flow and a scope.
abbrev loopback : (List ℕ × ℕ) ⊎ SocketV6
loopback = inr (record {
  ip = 0 ∷ 0 ∷ 0 ∷ 0 ∷ 0 ∷ 0 ∷ 0 ∷ 0 ∷ 0 ∷ 0 ∷ 0 ∷ 0 ∷ 0 ∷ 0 ∷ 0 ∷ 1 ∷ [];
  port = 80;
  flowinfo = 5;
  scope_id = 7;
})

loopback-IsSocketAddr : IsSocketAddr default_config 6 28 (forget default_config 6 28 loopback)
unfolding to_bytes to_le_bytes
loopback-IsSocketAddr = (((refl, ltb→lt _ _ refl), refl, refl), leb→le _ _ refl)

socket_addr_schema-forgets_example :
    Writes
      ((socket_addr_schema default_config 6 28 32).write loopback)
      (socket_addr_bytes default_config 6 28 loopback)
    × ((socket_addr_schema default_config 6 28 32).size_of loopback
        ≡ ok (length (socket_addr_bytes default_config 6 28 loopback)))
    × Reads
        (socket_addr_schema default_config 6 28 32).get
        (socket_addr_bytes default_config 6 28 loopback)
        (forget default_config 6 28 loopback)
    × SafeDynamic (socket_addr_schema default_config 6 28 32).get
socket_addr_schema-forgets_example =
    socket_addr_schema-forgets default_config 6 28 32 loopback loopback-IsSocketAddr

byte_zero_copy : byte.read_meta ≡ static 1 true
unfolding int_schema int_meta
byte_zero_copy = refl

always : Reader → Bool
always r = true

abbrev two_bytes : Reader
two_bytes = slice (7 ∷ 8 ∷ [])

ref_get-get_example :
    (ref_get default_config 1 always byte two_bytes ≡ (ok 7, advance 1 two_bytes))
    × (ref_get default_config 1 always byte two_bytes ≡ byte.get two_bytes)
ref_get-get_example =
    ref_get-get default_config 1 always byte byte-Laws 1 byte_zero_copy two_bytes (8 ∷ []) 7
      (ltb→lt _ _ refl) (supports_borrow-slice (7 ∷ 8 ∷ [])) refl refl

word_zero_copy : word.read_meta ≡ static 2 true
unfolding int_schema int_meta is_static is_zero_copy
word_zero_copy = refl

abbrev one_word : List ℕ
one_word = seq_bytes default_config (bincode_len use_config) word word-Laws (300 ∷ [])

one_word_fits : length one_word ≤ max_usize
unfolding to_bytes to_le_bytes
one_word_fits = leb→le _ _ refl

one-IsEncodable : IsEncodable (bincode_len use_config) 1
unfolding len_type
one-IsEncodable = (ltb→lt _ _ refl, leb→le _ _ refl)

ref_slice_get-sequence_example :
    ref_slice_get default_config 1 always word (slice one_word)
    ≡ (ok (300 ∷ []), advance (length one_word) (slice one_word))
ref_slice_get-sequence_example =
    ref_slice_get-sequence default_config 1 always word word-Laws 2 word_zero_copy (slice one_word)
      [] (300 ∷ []) ((ltb→lt _ _ refl, tt), one-IsEncodable, one_word_fits)
      (supports_borrow-slice one_word) (sym (append-nil one_word)) refl

-- A value stored one higher than it is sent.
abbrev lower : ℕ → ℕ
lower zero = 0
lower (suc n) = n

from_into_schema-Laws_example :
    Laws
      (from_into_schema lower suc word 8)
      (IsTarget lower suc word word-Laws)
      (wire_bytes lower suc word word-Laws)
from_into_schema-Laws_example = from_into_schema-Laws lower suc word word-Laws 8

zero-IsEncodable : IsEncodable (bincode_len use_config) 0
unfolding len_type
zero-IsEncodable = (ltb→lt _ _ refl, leb→le _ _ refl)

discard_seq_schema-discards_example :
    ((vs : List ℕ)
      → Writes
          ((discard_seq_schema word default_config (bincode_len use_config) 24).write vs)
          (len_bytes default_config (bincode_len use_config) 0))
    × ((vs : List ℕ)
        → (discard_seq_schema word default_config (bincode_len use_config) 24).size_of vs
          ≡ ok (length (len_bytes default_config (bincode_len use_config) 0)))
    × ((vs : List ℕ)
        → IsVec default_config (bincode_len use_config) word word-Laws vs
        → Reads
            (discard_seq_schema word default_config (bincode_len use_config) 24).get
            (seq_bytes default_config (bincode_len use_config) word word-Laws vs)
            [])
    × SafeDynamic (discard_seq_schema word default_config (bincode_len use_config) 24).get
discard_seq_schema-discards_example =
    discard_seq_schema-discards word word-Laws default_config (bincode_len use_config) 24
      zero-IsEncodable
