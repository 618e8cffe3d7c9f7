-- ===== src/External/Laws.antt =====
-- The laws of the schemas of wincode/src/schema/external.
use wincode.Prelude.{
  ℕ, ◌≡◌, ◌<◌, ◌^◌, refl, sym, ap, ◌∙◌, Bool, false, List, ◌++◌, length, Outcome, ok, err, fault,
  wrapping_add, ◌==◌, not, ◌≤◌, max_usize,
}
use wincode.Error.{ReadError, uuid_length}
use wincode.Reader.{Reader, continue}
use wincode.Writer.{Writer}
use wincode.Reader.View.{view, advance, supports_borrow-call_site}
use wincode.Reader.Reads.{Reads-bind, Reads-copy_length}
use wincode.Reader.Safe.{
  SafeDynamic-bind, SafeStatic-copy, SafeStatic-dynamic, SafeDynamic-if, SafeDynamic-raise,
}
use wincode.Writer.Writes.{Writes-write, Writes-seq}
use wincode.Config.{Configuration, u8}
use wincode.Ints.Laws.{bytes_of}
use wincode.SeqLen.{read_prealloc_check}
use wincode.SeqLen.Laws.{
  len_bytes, IsEncodable, read-Reads, read-SafeDynamic, write_len-Writes, write_bytes_needed-length,
}
use wincode.Schema.{Schema}
use wincode.Schema.Laws.{Laws}
use wincode.Schema.Derived.{sum_fits}
use wincode.Elements.{write_elem_slice_prealloc_check}
use wincode.Elements.Writing.{seq_bytes}
use wincode.Containers.{slice_size_of, slice_write}
use wincode.Containers.Laws.{IsVec}
use wincode.Containers.Others.{heap_slice_schema, heap_slice_read}
use wincode.Containers.Others.Laws.{heap_slice_schema-Laws}
use wincode.Impls.Scalars.{int_schema}
use wincode.Impls.Scalars.Laws.{int_schema-Laws}
use wincode.Impls.Strings.{string_schema, string_read, string_read_with_context}
use wincode.External.{
  uuid_size, uuid_schema, uuid_after_len, uuid_compat_schema, small_vec_schema, bytes_write,
  bytes_schema, eco_after_len, eco_string_schema,
}

abbrev pub IsUuid : List ℕ → Type 0
IsUuid bytes = length bytes ≡ uuid_size

pub uuid_schema-Laws : Laws uuid_schema IsUuid (λ bytes. bytes)
unfolding uuid_schema
uuid_schema-Laws = record {
  writes = λ a h. Writes-write a;
  sizes = λ a h. ap ok (sym h);
  reads = λ a h. Reads-copy_length uuid_size a h;
  safe = SafeStatic-copy uuid_size;
  write_static = λ size z e a h. let same : uuid_size ≡ size = cc in h ∙ same;
  read_static = λ size z e a h. let same : uuid_size ≡ size = cc in h ∙ same;
  write_raw = λ size e. ((λ bytes. bytes), refl, λ a h. refl);
  read_raw = λ size e. ((λ bytes. bytes), refl, cc, λ a h. refl);
}

module _ (c : Configuration) where
  -- The length of a `Uuid` and its bytes, where the length encoding can hold it.
  abbrev pub compat_bytes : List ℕ → List ℕ
  compat_bytes bytes = len_bytes c c.length_encoding uuid_size ++ bytes

  abbrev pub IsCompatUuid : List ℕ → Type 0
  IsCompatUuid bytes =
      IsUuid bytes
      × IsEncodable c.length_encoding uuid_size
      × (length (compat_bytes bytes) ≤ max_usize)

  compat_size :
      (bytes : List ℕ)
      → IsCompatUuid bytes
      → (uuid_compat_schema c).size_of bytes ≡ ok (length (compat_bytes bytes))
  unfolding uuid_compat_schema
  compat_size bytes (h, fits, w) =
      rw (write_bytes_needed-length c c.length_encoding uuid_size fits) (
        ap (λ n. ok (wrapping_add (length (len_bytes c c.length_encoding uuid_size)) n)) (sym h)
        ∙ ap ok (sum_fits (len_bytes c c.length_encoding uuid_size) bytes w))

  pub uuid_compat_schema-Laws : Laws (uuid_compat_schema c) IsCompatUuid compat_bytes
  unfolding uuid_compat_schema uuid_after_len
  uuid_compat_schema-Laws = record {
    writes = λ a h.
        let (l, fits, w) = h in
        Writes-seq (write_len-Writes c c.length_encoding uuid_size fits) (Writes-write a);
    sizes = compat_size;
    reads = λ a h.
        let (l, fits, w) = h in
        Reads-bind uuid_after_len (read-Reads c c.length_encoding uuid_size fits)
          (Reads-copy_length uuid_size a l);
    safe = SafeDynamic-bind (read-SafeDynamic c c.length_encoding) (λ len.
        SafeDynamic-if (not (len == uuid_size))
          (SafeDynamic-raise (ReadError.invalid_value uuid_length))
          (SafeStatic-dynamic (SafeStatic-copy uuid_size)));
    write_static = λ size z e. cc;
    read_static = λ size z e. cc;
    write_raw = λ size e. absurd cc;
    read_raw = λ size e. absurd cc;
  }

  -- A length other than that of a `Uuid` is refused before any of the bytes after it is read.
  pub uuid_compat_schema-refuses :
      (r : Reader) (rest : List ℕ) (len : ℕ)
      → IsEncodable c.length_encoding len
      → (len == uuid_size) ≡ false
      → view r ≡ len_bytes c c.length_encoding len ++ rest
      → (uuid_compat_schema c).get r ≡ (
        err (ReadError.invalid_value uuid_length),
        advance (length (len_bytes c c.length_encoding len)) r,
      )
  unfolding uuid_compat_schema uuid_after_len
  uuid_compat_schema-refuses r rest len fits other e =
      rw ((read-Reads c c.length_encoding len fits).at r rest e) (rw (other, uuid_after_len) refl)

  pub small_vec_schema-Laws :
      {A : Type 0} (s : Schema A) {Valid : A → Type 0} {bytes : A → List ℕ}
      (laws : Laws s Valid bytes) (header_size : ℕ)
      → Laws
          (small_vec_schema c s header_size)
          (IsVec c c.length_encoding s laws)
          (seq_bytes c c.length_encoding s laws)
  unfolding small_vec_schema heap_slice_schema heap_slice_read
  small_vec_schema-Laws s laws header_size =
      heap_slice_schema-Laws c c.length_encoding s laws header_size

  abbrev pub IsByte : ℕ → Type 0
  IsByte b = b < 256 ^ 1

  abbrev pub byte_laws : Laws (int_schema c u8) IsByte (bytes_of c u8)
  byte_laws = int_schema-Laws c u8

  pub bytes_schema-Laws :
      (header_size : ℕ)
      → Laws
          (bytes_schema c header_size)
          (IsVec c c.length_encoding (int_schema c u8) byte_laws)
          (seq_bytes c c.length_encoding (int_schema c u8) byte_laws)
  unfolding bytes_schema bytes_write slice_write slice_size_of write_elem_slice_prealloc_check
      heap_slice_schema int_schema
  bytes_schema-Laws header_size =
      heap_slice_schema-Laws c c.length_encoding (int_schema c u8) byte_laws header_size

  module _ (is_utf8 : List ℕ → Bool) (inline_limit : ℕ) where
    eco_after_len-string :
        (len : ℕ) (r : Reader)
        → eco_after_len c is_utf8 inline_limit len r ≡ string_read_with_context is_utf8 len r
    unfolding eco_after_len string_read_with_context
    eco_after_len-string len r =
        rw (supports_borrow-call_site r, eco_after_len, string_read_with_context) refl

    -- `EcoString` is written, announced and read as `String` is, on every reader and whatever its
    -- inline limit.
    pub eco_string_schema-string_schema :
        (header_size : ℕ) (text : List ℕ) (r : Reader) (w : Writer)
        → ((eco_string_schema c is_utf8 inline_limit header_size).get r
            ≡ (string_schema is_utf8 c header_size).get r)
          × ((eco_string_schema c is_utf8 inline_limit header_size).write text w
              ≡ (string_schema is_utf8 c header_size).write text w)
          × ((eco_string_schema c is_utf8 inline_limit header_size).size_of text
              ≡ (string_schema is_utf8 c header_size).size_of text)
    unfolding eco_string_schema string_schema string_read
    eco_string_schema-string_schema header_size text r w =
        (after (read_prealloc_check c c.length_encoding 1 r).0 _, refl, refl)
      where
        after :
            (o : Outcome ReadError ℕ) (r' : Reader)
            → continue o (eco_after_len c is_utf8 inline_limit) r'
              ≡ continue o (string_read_with_context is_utf8) r'
        after (ok len) r' = eco_after_len-string len r'
        after (err e) r' = refl
        after fault r' = refl
