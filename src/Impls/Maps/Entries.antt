-- ===== src/Impls/Maps/Entries.antt =====
-- `impl_seq_kv!` of wincode/src/schema/impls.rs writes the length and then the entries of a map, and
-- announces their size.
use wincode.Prelude.{
  ℕ, zero, suc, ◌+◌, ◌*◌, ◌≤◌, ◌≡◌, refl, ap, ◌∙◌, Bool, none, List, [], ◌∷◌, ◌++◌, All, length,
  length-append, ok, bind, max_usize, wrapping_add, wrapping_mul, wrapping_add-fits, arith,
}
use wincode.Writer.Writes.{Writes, Writes-done, Writes-seq, Writes-window}
use wincode.TypeMeta.{TypeMeta, static, dynamic}
use wincode.Config.{Configuration}
use wincode.SeqLen.{prealloc_check, write_bytes_needed, write_bytes_needed_prealloc_check}
use wincode.SeqLen.Laws.{len_bytes, IsEncodable, write_len-Writes, write_bytes_needed-length}
use wincode.Schema.{Schema}
use wincode.Schema.Laws.{Laws}
use wincode.Elements.Bytes.{concat_bytes, length-concat_bytes}
use wincode.Impls.Maps.{
  fold_entries, write_entries, map_size_by_meta, write_map_entries, write_map_checked,
  map_write_by_meta,
}

module _ {K V : Type 0} (s : Schema K) (t : Schema V) {ValidK : K → Type 0} {bytesK : K → List ℕ}
    {ValidV : V → Type 0} {bytesV : V → List ℕ} (lawsK : Laws s ValidK bytesK)
    (lawsV : Laws t ValidV bytesV) where
  abbrev pub IsEntry : K × V → Type 0
  IsEntry e = ValidK e.0 × ValidV e.1

  abbrev pub entry_bytes : K × V → List ℕ
  entry_bytes e = bytesK e.0 ++ bytesV e.1

  write_entries-Writes :
      (entries : List (K × V))
      → All IsEntry entries
      → Writes (write_entries s t entries) (concat_bytes entry_bytes entries)
  unfolding write_entries
  write_entries-Writes [] all = Writes-done
  write_entries-Writes ((k, v) ∷ entries) ((p, q), all) =
      Writes-seq (Writes-seq (lawsK.writes k p) (lawsV.writes v q))
        (write_entries-Writes entries all)

  fold_entries-length :
      (acc : ℕ) (entries : List (K × V))
      → All IsEntry entries
      → acc + length (concat_bytes entry_bytes entries) ≤ max_usize
      → fold_entries s t acc entries ≡ ok (acc + length (concat_bytes entry_bytes entries))
  unfolding fold_entries
  fold_entries-length acc [] all h = ap ok (omega arith)
  fold_entries-length acc ((k, v) ∷ entries) ((p, q), all) h =
      let e : length (concat_bytes entry_bytes ((k, v) ∷ entries))
          ≡ length (entry_bytes (k, v)) + length (concat_bytes entry_bytes entries) =
        length-append (entry_bytes (k, v)) (concat_bytes entry_bytes entries) in
      let d : length (entry_bytes (k, v)) ≡ length (bytesK k) + length (bytesV v) =
        length-append (bytesK k) (bytesV v) in
      rw (lawsK.sizes k p, lawsV.sizes v q)
        (rw (wrapping_add-fits acc (length (bytesK k)) (omega arith)) (
          rw (wrapping_add-fits (acc + length (bytesK k)) (length (bytesV v)) (omega arith)) (
            fold_entries-length (acc + length (bytesK k) + length (bytesV v)) entries all
              (omega arith)
            ∙ ap ok (omega arith))))

  -- Where both sides have a fixed size, all entries have their sum.
  pub length-entries :
      (a b : ℕ)
      → ((k : K) → ValidK k → length (bytesK k) ≡ a)
      → ((v : V) → ValidV v → length (bytesV v) ≡ b)
      → (entries : List (K × V)) → All IsEntry entries
      → length (concat_bytes entry_bytes entries) ≡ length entries * (a + b)
  length-entries a b fixedK fixedV entries all =
      length-concat_bytes entry_bytes IsEntry (a + b)
        (λ e h.
          omega (arith, length-append (bytesK e.0) (bytesV e.1), fixedK e.0 h.0, fixedV e.1 h.1))
        entries all

  module _ (c : Configuration) where
    -- The format of a map: the number of entries, then each key and its value.
    abbrev pub map_bytes : List (K × V) → List ℕ
    map_bytes entries =
        len_bytes c c.length_encoding (length entries) ++ concat_bytes entry_bytes entries

    -- Entries that can be encoded, in a number that the length encoding can hold.
    abbrev pub AreEntries : List (K × V) → Type 0
    AreEntries entries =
        All IsEntry entries
        × IsEncodable c.length_encoding (length entries)
        × (length (map_bytes entries) ≤ max_usize)

    wrapped :
        (n p len total : ℕ)
        → n + len * p ≡ total
        → total ≤ max_usize
        → wrapping_add n (wrapping_mul p len) ≡ total
    unfolding wrapping_add wrapping_mul
    wrapped n p len total e h = omega arith

    wrapped_sum :
        (n a b len total : ℕ)
        → n + len * (a + b) ≡ total
        → total ≤ max_usize
        → wrapping_add n (wrapping_mul (wrapping_add a b) len) ≡ total
    wrapped_sum n a b zero total e h = wrapped n (wrapping_add a b) 0 total (omega arith) h
    wrapped_sum n a b (suc len) total e h =
        rw (wrapping_add-fits a b (omega arith)) (wrapped n (a + b) (suc len) total e h)

    static_total :
        (a b : ℕ) (x y : Bool)
        → s.write_meta ≡ static a x
        → t.write_meta ≡ static b y
        → (entries : List (K × V)) → AreEntries entries
        → wrapping_add
            (length (len_bytes c c.length_encoding (length entries)))
            (wrapping_mul (wrapping_add a b) (length entries))
          ≡ length (map_bytes entries)
    static_total a b x y ea eb entries (all, fits, h) =
        let e : length (map_bytes entries)
            ≡ length (len_bytes c c.length_encoding (length entries))
              + length (concat_bytes entry_bytes entries) =
          length-append (len_bytes c c.length_encoding (length entries)) _ in
        let d : length (concat_bytes entry_bytes entries) ≡ length entries * (a + b) =
          length-entries a b (lawsK.write_static a x ea) (lawsV.write_static b y eb) entries all in
        wrapped_sum _ a b (length entries) (length (map_bytes entries)) (omega arith) h

    folded_total :
        (entries : List (K × V))
        → AreEntries entries
        → bind
            (write_bytes_needed c c.length_encoding (length entries))
            (λ n. bind (fold_entries s t 0 entries) (λ k. ok (wrapping_add n k)))
          ≡ ok (length (map_bytes entries))
    folded_total entries (all, fits, h) =
        let e : length (map_bytes entries)
            ≡ length (len_bytes c c.length_encoding (length entries))
              + length (concat_bytes entry_bytes entries) =
          length-append (len_bytes c c.length_encoding (length entries)) _ in
        rw (write_bytes_needed-length c c.length_encoding (length entries) fits) (
          rw (fold_entries-length 0 entries all (omega arith))
            (ap ok (wrapping_add-fits _ _ (omega arith) ∙ omega arith)))

    map_size-length :
        (a b : TypeMeta)
        → s.write_meta ≡ a
        → t.write_meta ≡ b
        → (entries : List (K × V)) → AreEntries entries
        → map_size_by_meta c s t a b entries ≡ ok (length (map_bytes entries))
    unfolding map_size_by_meta
    map_size-length (static k x) (static v y) ea eb entries (all, fits, h) =
        rw (write_bytes_needed-length c c.length_encoding (length entries) fits)
          (ap ok (static_total k v x y ea eb entries (all, fits, h)))
    map_size-length (static k x) dynamic ea eb entries h = folded_total entries h
    map_size-length dynamic b ea eb entries h = folded_total entries h

    -- `size_of` of a map is the number of bytes of its format.
    pub map_size_of-length :
        (entries : List (K × V))
        → AreEntries entries
        → map_size_by_meta c s t s.write_meta t.write_meta entries ≡ ok (length (map_bytes entries))
    map_size_of-length entries h = map_size-length s.write_meta t.write_meta refl refl entries h

    write_map_entries-Writes :
        (entries : List (K × V))
        → AreEntries entries
        → Writes (write_map_entries c s t entries) (map_bytes entries)
    write_map_entries-Writes entries (all, fits, h) =
        Writes-seq (write_len-Writes c c.length_encoding (length entries) fits)
          (write_entries-Writes entries all)

    module _ (pair_size : ℕ) (entries : List (K × V)) (are : AreEntries entries)
        (allowed : prealloc_check c c.length_encoding pair_size (length entries) ≡ none) where
      checked-Writes : Writes (write_map_checked c s t pair_size entries) (map_bytes entries)
      unfolding write_map_checked
      checked-Writes = rw (allowed, write_map_checked) (write_map_entries-Writes entries are)

      needed-length :
          write_bytes_needed_prealloc_check c c.length_encoding pair_size (length entries)
          ≡ ok (length (len_bytes c c.length_encoding (length entries)))
      unfolding write_bytes_needed_prealloc_check
      needed-length =
          let (all, fits, h) = are in
          rw (allowed, write_bytes_needed_prealloc_check)
            (write_bytes_needed-length c c.length_encoding (length entries) fits)

      by_meta-Writes :
          (a b : TypeMeta)
          → s.write_meta ≡ a
          → t.write_meta ≡ b
          → Writes (map_write_by_meta c s t a b pair_size entries) (map_bytes entries)
      unfolding map_write_by_meta
      by_meta-Writes (static k x) (static v y) ea eb =
          rw (needed-length, map_write_by_meta)
            (Writes-window _ (static_total k v x y ea eb entries are)
              (write_map_entries-Writes entries are))
      by_meta-Writes (static k x) dynamic ea eb = checked-Writes
      by_meta-Writes dynamic b ea eb = checked-Writes

      pub map_write-Writes :
          Writes
            (map_write_by_meta c s t s.write_meta t.write_meta pair_size entries)
            (map_bytes entries)
      map_write-Writes = by_meta-Writes s.write_meta t.write_meta refl refl
