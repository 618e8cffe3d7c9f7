-- ===== src/SeqLen/Laws.antt =====
-- The length encodings of wincode/src/len.rs: what they write, read back and announce, and what they
-- refuse.
use wincode.Prelude.{
  ℕ, ◌^◌, ◌≤◌, ◌<◌, ◌≡◌, refl, sym, ap, ◌∙◌, true, false, none, List, [], length, ok, err, leb,
  le→leb, lt→leb_false, Bool-cases, Option-cases, inl, inr, max_usize, append-nil, arith,
}
use wincode.Error.{WriteError, read_error, unsigned}
use wincode.Reader.{◌>>=◌}
use wincode.Reader.Reads.{Reads, Reads-pure, Reads-bind, Reads-copy_length, Reads-cast}
use wincode.Reader.Safe.{
  SafeDynamic, SafeDynamic-bind, SafeDynamic-pure, SafeDynamic-raise, SafeDynamic-if,
  SafeStatic-copy, SafeStatic-dynamic,
}
use wincode.Writer.{Writer}
use wincode.Writer.Writes.{Writes, Writes-write}
use wincode.IntEncoding.{
  UInt, fix_int, var_int, to_bytes, from_bytes, size_in_bytes, is_static, is_zero_copy, max_of,
}
use wincode.IntEncoding.Bytes.{length-to_bytes, from_bytes-to_bytes}
use wincode.IntEncoding.Format.{int_bytes}
use wincode.Config.{
  Configuration, IntType, u8, wide, LengthEncoding, use_int_len, fix_int_len, primitive,
}
use wincode.TypeMeta.{static, dynamic}
use wincode.Ints.{size_of_type, int_meta, int_read}
use wincode.Ints.Laws.{
  bytes_of, int_write-Writes, int_size_of-length, int_read-Reads, int_read-SafeDynamic,
}
use wincode.SeqLen.{
  len_type, to_usize, try_from, read, write_len, write_bytes_needed, needed_by_meta, prealloc_check,
  read_prealloc_check, continue_checked,
}

-- The bytes of a length.
abbrev pub len_bytes : Configuration → LengthEncoding → ℕ → List ℕ
len_bytes c (use_int_len t limit) len = bytes_of c t len
len_bytes c (primitive t) len = bytes_of c t len
len_bytes c (fix_int_len t limit) len = to_bytes c.byte_order (size_of_type t) len

-- A length that the encoding can hold, and that is a `usize`.
abbrev pub IsEncodable : LengthEncoding → ℕ → Type 0
IsEncodable l len = (len < 256 ^ size_of_type (len_type l)) × (len ≤ max_usize)

try_from-fits : (t : IntType) (len : ℕ) → len < 256 ^ size_of_type t → try_from t len ≡ ok len
unfolding try_from
try_from-fits t len h = rw (le→leb len (max_of (size_of_type t)) (omega arith))

to_usize-Reads : (len : ℕ) → len ≤ max_usize → Reads (to_usize len) [] len
unfolding to_usize
to_usize-Reads len h = rw (le→leb len max_usize h) (Reads-pure len)

to_usize-SafeDynamic : (len : ℕ) → SafeDynamic (to_usize len)
unfolding to_usize
to_usize-SafeDynamic len =
    SafeDynamic-if (leb len max_usize) (SafeDynamic-pure len) (SafeDynamic-raise _)

module _ (c : Configuration) where
  from_int :
      (t : IntType) (len : ℕ)
      → len < 256 ^ size_of_type t
      → len ≤ max_usize
      → Reads (int_read c t >>= to_usize) (bytes_of c t len) len
  from_int t len h k =
      Reads-cast (append-nil (bytes_of c t len))
        (Reads-bind to_usize (int_read-Reads c t len h) (to_usize-Reads len k))

  from_fix :
      (t : IntType) (len : ℕ)
      → len < 256 ^ size_of_type t
      → len ≤ max_usize
      → Reads
          (to_usize (from_bytes c.byte_order (to_bytes c.byte_order (size_of_type t) len)))
          []
          len
  from_fix t len h k =
      rw (from_bytes-to_bytes c.byte_order (size_of_type t) len h) (to_usize-Reads len k)

  pub read-Reads :
      (l : LengthEncoding) (len : ℕ) → IsEncodable l len → Reads (read c l) (len_bytes c l len) len
  unfolding read len_type
  read-Reads (use_int_len t limit) len (h, k) = from_int t len h k
  read-Reads (primitive t) len (h, k) = from_int t len h k
  read-Reads (fix_int_len t limit) len (h, k) = Reads-cast (append-nil _) (
      Reads-bind _
        (Reads-copy_length (size_of_type t) (to_bytes c.byte_order (size_of_type t) len)
          (length-to_bytes c.byte_order (size_of_type t) len))
        (from_fix t len h k))

  pub read-SafeDynamic : (l : LengthEncoding) → SafeDynamic (read c l)
  unfolding read
  read-SafeDynamic (use_int_len t limit) =
      SafeDynamic-bind (int_read-SafeDynamic c t) to_usize-SafeDynamic
  read-SafeDynamic (primitive t) = SafeDynamic-bind (int_read-SafeDynamic c t) to_usize-SafeDynamic
  read-SafeDynamic (fix_int_len t limit) =
      SafeDynamic-bind (SafeStatic-dynamic (SafeStatic-copy (size_of_type t)))
        (λ bs. to_usize-SafeDynamic _)

  pub write_len-Writes :
      (l : LengthEncoding) (len : ℕ)
      → IsEncodable l len
      → Writes (write_len c l len) (len_bytes c l len)
  unfolding write_len len_type
  write_len-Writes (use_int_len t limit) len (h, k) =
      rw (try_from-fits t len h, write_len) (int_write-Writes c t len h)
  write_len-Writes (primitive t) len (h, k) =
      rw (try_from-fits t len h, write_len) (int_write-Writes c t len h)
  write_len-Writes (fix_int_len t limit) len (h, k) =
      rw (try_from-fits t len h, write_len) (Writes-write _)

  meta_static :
      (t : UInt) (len : ℕ)
      → is_static c.int_encoding ≡ true
      → size_in_bytes t ≡ length (int_bytes c.int_encoding c.byte_order t len)
  unfolding is_static
  meta_static t len h =
      elim c.int_encoding
          as (λ i. is_static i ≡ true → size_in_bytes t ≡ length (int_bytes i c.byte_order t len)) [
            | fix_int ↦ λ _. sym (length-to_bytes c.byte_order (size_in_bytes t) len)
            | var_int ↦ λ e. cc
          ]
        h

  wide_static :
      (t : UInt)
      → is_static c.int_encoding ≡ true
      → int_meta c (wide t) ≡ static (size_in_bytes t) (is_zero_copy c.int_encoding c.byte_order)
  unfolding int_meta
  wide_static t e = rw e

  wide_dynamic : (t : UInt) → is_static c.int_encoding ≡ false → int_meta c (wide t) ≡ dynamic
  unfolding int_meta
  wide_dynamic t e = rw e

  needed_byte : (len : ℕ) → write_bytes_needed c (primitive u8) len ≡ ok 1
  unfolding write_bytes_needed needed_by_meta int_meta
  needed_byte len = refl

  needed_int :
      (t : IntType) (len : ℕ)
      → len < 256 ^ size_of_type t
      → write_bytes_needed c (primitive t) len ≡ ok (length (bytes_of c t len))
  unfolding write_bytes_needed needed_by_meta
  needed_int u8 len h = needed_byte len
  needed_int (wide t) len h = elim (Bool-cases (is_static c.int_encoding)) [
    | inl e ↦
        ap (λ m. needed_by_meta c m (wide t) len) (wide_static t e) ∙ ap ok (meta_static t len e)
    | inr e ↦
        ap (λ m. needed_by_meta c m (wide t) len) (wide_dynamic t e)
        ∙ rw (try_from-fits (wide t) len h) (int_size_of-length c (wide t) len h)
  ]

  -- `write_bytes_needed` of every length encoding is the number of bytes that the length is written
  -- with, for a length that the encoding can hold.
  pub write_bytes_needed-length :
      (l : LengthEncoding) (len : ℕ)
      → IsEncodable l len
      → write_bytes_needed c l len ≡ ok (length (len_bytes c l len))
  unfolding write_bytes_needed len_type
  write_bytes_needed-length (use_int_len t limit) len (h, k) = needed_int t len h
  write_bytes_needed-length (primitive t) len (h, k) = needed_int t len h
  write_bytes_needed-length (fix_int_len t limit) len (h, k) =
      ap ok (sym (length-to_bytes c.byte_order (size_of_type t) len))

  -- A length above the largest value of its integer type is refused by every length encoding, on
  -- every writer, with an error that names the type.
  pub write_len-refuses :
      (l : LengthEncoding) (len : ℕ) (w : Writer)
      → max_of (size_of_type (len_type l)) < len
      → write_len c l len w
        ≡ err (WriteError.length_encoding_overflow (unsigned (size_of_type (len_type l))))
  unfolding write_len len_type try_from
  write_len-refuses (use_int_len t limit) len w h =
      rw (lt→leb_false len (max_of (size_of_type t)) h)
  write_len-refuses (primitive t) len w h = rw (lt→leb_false len (max_of (size_of_type t)) h)
  write_len-refuses (fix_int_len t limit) len w h =
      rw (lt→leb_false len (max_of (size_of_type t)) h)

module _ (c : Configuration) (l : LengthEncoding) (mem_size : ℕ) where
  checked-SafeDynamic :
      (len : ℕ) → SafeDynamic (continue_checked (prealloc_check c l mem_size len) len)
  checked-SafeDynamic len = elim (Option-cases (prealloc_check c l mem_size len)) [
    | inl e ↦ rw e (SafeDynamic-pure len)
    | inr (x, e) ↦ rw e (SafeDynamic-raise (read_error x))
  ]

  pub read_prealloc_check-SafeDynamic : SafeDynamic (read_prealloc_check c l mem_size)
  unfolding read_prealloc_check
  read_prealloc_check-SafeDynamic = SafeDynamic-bind (read-SafeDynamic c l) checked-SafeDynamic

  -- `read_prealloc_check` of every length encoding reads the bytes of a length that the encoding
  -- can hold and that the preallocation check lets pass back as that length.
  pub read_prealloc_check-Reads :
      (len : ℕ)
      → IsEncodable l len
      → prealloc_check c l mem_size len ≡ none
      → Reads (read_prealloc_check c l mem_size) (len_bytes c l len) len
  unfolding read_prealloc_check
  read_prealloc_check-Reads len h e =
      Reads-cast (append-nil _) (Reads-bind _ (read-Reads c l len h) (rw e (Reads-pure len)))
