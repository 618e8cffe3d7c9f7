-- ===== src/Serde/RoundTrip.antt =====
-- The entry points of wincode/src/config/serde.rs read back what they write.
use wincode.Prelude.{
  ℕ, ◌+◌, ◌-◌, ◌≤◌, ◌≡◌, refl, sym, ap, ◌∙◌, min, Option, none, some, List, [], ◌++◌, append-nil,
  length, length-append, length-take, length-drop, take, drop, take-append, drop-append, take_all,
  take-take_le, take-append-drop, le→leb, ok, arith,
}
use wincode.Reader.{Reader, Read, slice, slice_mut, limit}
use wincode.Reader.View.{view, advance}
use wincode.Reader.Reads.{Reads}
use wincode.Writer
use wincode.Writer.Writes.{Writes, Writes-seq, Writes-done, Writes-cast}
use wincode.Config.{Configuration, deserialization_size_limit}
use wincode.Schema.{Schema}
use wincode.Schema.Laws.{Laws}
use wincode.Serde.{
  serialize_into, serialized_size, set_len, close_buffer, serialize, slice_to, slice_from, clamp,
  limit_slice, limit_slice_mut, limit_generic, no_trailing, exact_limited, exact_whole, exact,
  deserialize, deserialize_mut, deserialize_from, deserialize_exact,
}

module _ {ℓ} {A : Type ℓ} (s : Schema A) {Valid : A → Type 0} {bytes : A → List ℕ}
    (laws : Laws s Valid bytes) (a : A) (valid : Valid a) where
  pub serialize_into-Writes : Writes (serialize_into s a) (bytes a)
  unfolding serialize_into
  serialize_into-Writes =
      Writes-cast (append-nil (bytes a)) (Writes-seq (laws.writes a valid) Writes-done)

  close-length :
      (room : ℕ)
      → length (bytes a) ≤ room
      → room ≤ length (bytes a) + length (bytes a)
      → close_buffer (length (bytes a)) (Writer.slice (bytes a) (room - length (bytes a)))
        ≡ ok (take (length (bytes a) - (room - length (bytes a))) (bytes a))
  unfolding close_buffer set_len
  close-length room h k =
      rw (le→leb (room - length (bytes a)) (length (bytes a)) (omega arith)) (
        rw (le→leb (length (bytes a) - (room - length (bytes a))) (length (bytes a)) (omega arith)))

  -- For a schema that keeps its laws and a value that it can encode: where the vector's capacity is
  -- at least the one requested and at most twice it, `serialize` returns the encoding without as
  -- many bytes at its end as the capacity exceeds the request by.
  pub serialize-reserved :
      (with_capacity : ℕ → ℕ)
      → length (bytes a) ≤ with_capacity (length (bytes a))
      → with_capacity (length (bytes a)) ≤ length (bytes a) + length (bytes a)
      → serialize with_capacity s a
        ≡ ok (
            take
              (length (bytes a) - (with_capacity (length (bytes a)) - length (bytes a)))
              (bytes a))
  unfolding serialize
  serialize-reserved with_capacity h k = rw (laws.sizes a valid) (
      rw
        (serialize_into-Writes.fits (Writer.slice [] (with_capacity (length (bytes a)))) tt
          (le→leb _ _ h))
        (close-length (with_capacity (length (bytes a))) h k))

  pub serialize-bytes :
      (with_capacity : ℕ → ℕ)
      → with_capacity (length (bytes a)) ≡ length (bytes a)
      → serialize with_capacity s a ≡ ok (bytes a)
  serialize-bytes with_capacity e =
      serialize-reserved with_capacity (omega arith) (omega arith)
      ∙ ap ok (
          ap (λ n. take n (bytes a)) (omega arith)
          ∙ take_all (length (bytes a)) (bytes a) (omega arith))

-- The deserialization limit leaves room for `n` bytes.
abbrev pub Within : Option ℕ → ℕ → Type 0
Within (some most) n = n ≤ most
Within none n = Unit

-- The bytes that a limit lets through.
abbrev pub front : ℕ → List ℕ → List ℕ
front most src = take (min most (length src)) src

-- Slicing within the bytes succeeds.
pub clamp-ok : (most : ℕ) (src : List ℕ) → clamp most src ≡ ok (front most src)
unfolding clamp slice_to
clamp-ok most src = rw (le→leb (min most (length src)) (length src) (omega arith), slice_to) refl

pub slice_from-ok :
    (consumed : ℕ) (src : List ℕ)
    → consumed ≤ length src
    → slice_from consumed src ≡ ok (drop consumed src)
unfolding slice_from
slice_from-ok consumed src h = rw (le→leb consumed (length src) h, slice_from) refl

clamped : ℕ → List ℕ → List ℕ → List ℕ
clamped most bs rest = drop (length bs) (front most (bs ++ rest))

front-keeps :
    (most : ℕ) (bs rest : List ℕ)
    → length bs ≤ most
    → front most (bs ++ rest) ≡ bs ++ clamped most bs rest
unfolding clamped
front-keeps most bs rest h =
    sym (take-append-drop (length bs) (front most (bs ++ rest)))
    ∙ ap (λ l. l ++ drop (length bs) (front most (bs ++ rest)))
        (take-take_le (length bs) (min most (length (bs ++ rest))) (bs ++ rest)
            (omega (arith, length-append bs rest))
          ∙ take-append bs rest)

module _ {ℓ} {A : Type ℓ} {m : Read A} {bs : List ℕ} {a : A} (reads : Reads m bs a)
    (rest : List ℕ) where
  limit_slice-Reads : (o : Option ℕ) → Within o (length bs) → limit_slice o m (bs ++ rest) ≡ ok a
  unfolding limit_slice
  limit_slice-Reads (some most) h =
      rw (clamp-ok most (bs ++ rest), limit_slice)
        (ap (λ p. p.0) (reads.at (slice (front most (bs ++ rest))) _ (front-keeps most bs rest h)))
  limit_slice-Reads none h = ap (λ p. p.0) (reads.at (slice (bs ++ rest)) rest refl)

  limit_slice_mut-Reads :
      (o : Option ℕ) → Within o (length bs) → limit_slice_mut o m (bs ++ rest) ≡ ok a
  unfolding limit_slice_mut
  limit_slice_mut-Reads (some most) h =
      rw (clamp-ok most (bs ++ rest), limit_slice_mut)
        (ap (λ p. p.0)
          (reads.at (slice_mut (front most (bs ++ rest))) _ (front-keeps most bs rest h)))
  limit_slice_mut-Reads none h = ap (λ p. p.0) (reads.at (slice_mut (bs ++ rest)) rest refl)

  limited_view :
      (most : ℕ) (r : Reader)
      → view r ≡ bs ++ rest
      → length bs ≤ most
      → view (limit r most) ≡ bs ++ drop (length bs) (take most (bs ++ rest))
  limited_view most r e h =
      ap (take most) e
      ∙ sym (take-append-drop (length bs) (take most (bs ++ rest)))
      ∙ ap (λ l. l ++ drop (length bs) (take most (bs ++ rest)))
          (take-take_le (length bs) most (bs ++ rest) h ∙ take-append bs rest)

  limit_generic-Reads :
      (o : Option ℕ) (r : Reader)
      → Within o (length bs)
      → view r ≡ bs ++ rest
      → limit_generic o m r ≡ (ok a, advance (length bs) r)
  unfolding limit_generic
  limit_generic-Reads (some most) r h e =
      rw (reads.at (limit r most) _ (limited_view most r e h)) refl
  limit_generic-Reads none r h e = reads.at r rest e

-- How much `deserialize_exact` has consumed.
consumed_bytes :
    (most : ℕ) (bs rest : List ℕ)
    → length bs ≤ most
    → length (front most (bs ++ rest)) - length (drop (length bs) (front most (bs ++ rest)))
      ≡ length bs
consumed_bytes most bs rest h = omega (
  arith,
  length-take (min most (length (bs ++ rest))) (bs ++ rest),
  length-drop (length bs) (front most (bs ++ rest)),
  length-append bs rest,
)

module _ {ℓ} {A : Type ℓ} {m : Read A} {bs : List ℕ} {a : A} (reads : Reads m bs a) where
  exact-Reads :
      (o : Option ℕ) (rest : List ℕ)
      → Within o (length bs)
      → exact o m (bs ++ rest) ≡ no_trailing a rest
  unfolding exact exact_limited exact_whole
  exact-Reads none rest h =
      rw (reads.at (slice (bs ++ rest)) rest refl) (ap (no_trailing a) (drop-append bs rest))
  exact-Reads (some most) rest h =
      rw
        (
          clamp-ok most (bs ++ rest),
          reads.at (slice (front most (bs ++ rest))) _ (front-keeps most bs rest h),
          consumed_bytes most bs rest h,
          slice_from-ok (length bs) (bs ++ rest) (omega (arith, length-append bs rest)),
          exact,
          exact_limited,
        )
        (ap (no_trailing a) (drop-append bs rest))

module _ {ℓ} {A : Type ℓ} (c : Configuration) (s : Schema A) {Valid : A → Type 0}
    {bytes : A → List ℕ} (laws : Laws s Valid bytes) (a : A) (valid : Valid a) where
  abbrev pub FitsLimit : Type 0
  FitsLimit = Within (deserialization_size_limit c) (length (bytes a))

  -- Bytes after the value do no harm.
  pub deserialize-bytes : (rest : List ℕ) → FitsLimit → deserialize c s (bytes a ++ rest) ≡ ok a
  unfolding deserialize
  deserialize-bytes rest h =
      limit_slice-Reads (laws.reads a valid) rest (deserialization_size_limit c) h

  pub deserialize_mut-bytes :
      (rest : List ℕ) → FitsLimit → deserialize_mut c s (bytes a ++ rest) ≡ ok a
  unfolding deserialize_mut
  deserialize_mut-bytes rest h =
      limit_slice_mut-Reads (laws.reads a valid) rest (deserialization_size_limit c) h

  -- For a schema that keeps its laws: `deserialize_from` a reader that holds an encoding within the
  -- deserialization limit returns the value and leaves the reader just after it, whatever follows.
  pub deserialize_from-bytes :
      (r : Reader) (rest : List ℕ)
      → FitsLimit
      → view r ≡ bytes a ++ rest
      → deserialize_from c s r ≡ (ok a, advance (length (bytes a)) r)
  unfolding deserialize_from
  deserialize_from-bytes r rest h e =
      limit_generic-Reads (laws.reads a valid) rest (deserialization_size_limit c) r h e

  -- For a schema that keeps its laws and an encoding within the deserialization limit: with more
  -- bytes after it `deserialize_exact` answers that there are trailing bytes, and with none it
  -- returns the value.
  pub deserialize_exact-bytes :
      (rest : List ℕ) → FitsLimit → deserialize_exact c s (bytes a ++ rest) ≡ no_trailing a rest
  unfolding deserialize_exact
  deserialize_exact-bytes rest h =
      exact-Reads (laws.reads a valid) (deserialization_size_limit c) rest h

  -- For a schema that keeps its laws and a value that it can encode: where the vector's capacity is
  -- the one requested and the encoding is within the deserialization limit, `serialize` returns
  -- bytes, `serialized_size` is their number, and both `deserialize` and `deserialize_exact` of
  -- them return the value.
  pub deserialize-serialize :
      (with_capacity : ℕ → ℕ)
      → with_capacity (length (bytes a)) ≡ length (bytes a)
      → FitsLimit
      → (b : List ℕ) × (serialize with_capacity s a ≡ ok b)
        × (serialized_size s a ≡ ok (length b))
        × (deserialize c s b ≡ ok a)
        × (deserialize_exact c s b ≡ ok a)
  unfolding serialized_size no_trailing
  deserialize-serialize with_capacity e h = (
    bytes a,
    serialize-bytes s laws a valid with_capacity e,
    laws.sizes a valid,
    ap (deserialize c s) (sym (append-nil (bytes a))) ∙ deserialize-bytes [] h,
    ap (deserialize_exact c s) (sym (append-nil (bytes a))) ∙ deserialize_exact-bytes [] h,
  )
