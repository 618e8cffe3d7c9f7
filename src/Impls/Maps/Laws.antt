-- ===== src/Impls/Maps/Laws.antt =====
-- The laws of the maps of `impl_seq_kv!` in wincode/src/schema/impls.rs as schemas.
use wincode.Prelude.{
  ℕ, zero, suc, ◌+◌, ◌*◌, ◌≤◌, ◌≡◌, refl, sym, inl, inr, Bool, none, List, [], ◌∷◌, append_assoc,
  All, length, length-append, le→leb, Bool-cases, leb, checked_add-fits, checked_add-overflows,
  max_usize, arith,
}
use wincode.Reader.Reads.{Reads, Reads-pure, Reads-bind, Reads-cast, Reads-value, Reads-trusted_seq}
use wincode.Reader.Safe.{
  SafeStatic, SafeStatic-bind, SafeStatic-pure, SafeStatic-cast, SafeStatic-dynamic,
  SafeStatic-trusted_seq, SafeDynamic, SafeDynamic-bind, SafeDynamic-pure, SafeDynamic-raise,
}
use wincode.TypeMeta.{TypeMeta, static, dynamic}
use wincode.Config.{Configuration}
use wincode.SeqLen.{prealloc_check}
use wincode.SeqLen.Laws.{len_bytes, read_prealloc_check-Reads, read_prealloc_check-SafeDynamic}
use wincode.Schema.{Schema}
use wincode.Schema.Laws.{Laws, SafeFor, SafeFor-SafeDynamic}
use wincode.Elements.Bytes.{concat_bytes}
use wincode.Impls.Collections.{Collection, insert_all, seq_capacity}
use wincode.Impls.Collections.Laws.{Rebuilds}
use wincode.Impls.Maps.{
  insert_entries, trusted_entries, map_collect_by_meta, seq_kv_read, seq_kv_schema,
}
use wincode.Impls.Maps.Entries.{
  IsEntry, entry_bytes, length-entries, map_bytes, AreEntries, map_size_of-length, map_write-Writes,
}

-- Two static sizes whose sum is a `usize`.
abbrev pub PairFits : TypeMeta → TypeMeta → Type 0
PairFits (static a x) (static b y) = a + b ≤ max_usize
PairFits (static a x) dynamic = Unit
PairFits dynamic b = Unit

module _ {C K V : Type 0} (col : Collection C (K × V)) (s : Schema K) (t : Schema V)
    {ValidK : K → Type 0} {bytesK : K → List ℕ} {ValidV : V → Type 0} {bytesV : V → List ℕ}
    (lawsK : Laws s ValidK bytesK) (lawsV : Laws t ValidV bytesV) where
  abbrev all_bytes : List (K × V) → List ℕ
  all_bytes entries = concat_bytes (entry_bytes s t lawsK lawsV) entries

  abbrev AllEntries : List (K × V) → Type 0
  AllEntries entries = All (IsEntry s t lawsK lawsV) entries

  insert_entries-Reads :
      (entries : List (K × V)) (map : C)
      → AllEntries entries
      → Reads
          (insert_entries col s t (length entries) map)
          (all_bytes entries)
          (insert_all col entries map)
  unfolding insert_entries insert_all
  insert_entries-Reads [] map all = Reads-pure map
  insert_entries-Reads ((k, v) ∷ entries) map ((p, q), all) =
      Reads-cast (sym (append_assoc (bytesK k) (bytesV v) (all_bytes entries))) (
        Reads-bind _ (lawsK.reads k p) (
          Reads-bind _ (lawsV.reads v q)
            (insert_entries-Reads entries (col.insert (k, v) map) all)))

  insert_entries-SafeStatic :
      (a b : ℕ)
      → SafeStatic a s.get
      → SafeStatic b t.get
      → (len : ℕ) (map : C) → SafeStatic (len * (a + b)) (insert_entries col s t len map)
  unfolding insert_entries
  insert_entries-SafeStatic a b ha hb zero map = SafeStatic-cast (omega arith) (SafeStatic-pure map)
  insert_entries-SafeStatic a b ha hb (suc len) map =
      SafeStatic-cast {j = a + (b + len * (a + b))} (omega arith) (
        SafeStatic-bind ha (λ k.
          SafeStatic-bind hb
            (λ v. insert_entries-SafeStatic a b ha hb len (col.insert (k, v) map))))

  insert_entries-SafeDynamic :
      SafeDynamic s.get
      → SafeDynamic t.get
      → (len : ℕ) (map : C) → SafeDynamic (insert_entries col s t len map)
  unfolding insert_entries
  insert_entries-SafeDynamic ha hb zero map = SafeDynamic-pure map
  insert_entries-SafeDynamic ha hb (suc len) map =
      SafeDynamic-bind ha (λ k.
        SafeDynamic-bind hb (λ v. insert_entries-SafeDynamic ha hb len (col.insert (k, v) map)))

  collect-Reads :
      (a b : TypeMeta) (capacity : ℕ)
      → s.read_meta ≡ a
      → t.read_meta ≡ b
      → PairFits a b
      → (entries : List (K × V)) → AllEntries entries
      → length (all_bytes entries) ≤ max_usize
      → Reads
          (map_collect_by_meta col s t a b capacity (length entries))
          (all_bytes entries)
          (insert_all col entries (col.with_capacity capacity))
  unfolding map_collect_by_meta trusted_entries
  collect-Reads (static a x) (static b y) capacity ea eb fits entries all h =
      rw (checked_add-fits a b (le→leb _ _ fits), trusted_entries)
        (Reads-trusted_seq (insert_entries-Reads entries (col.with_capacity capacity) all)
          (length entries) (a + b)
          (sym (
            length-entries s t lawsK lawsV a b (lawsK.read_static a x ea) (lawsV.read_static b y eb)
              entries all))
          h)
  collect-Reads (static a x) dynamic capacity ea eb fits entries all h =
      insert_entries-Reads entries (col.with_capacity capacity) all
  collect-Reads dynamic b capacity ea eb fits entries all h =
      insert_entries-Reads entries (col.with_capacity capacity) all

  collect-SafeDynamic :
      (a b : TypeMeta)
      → SafeFor a s.get
      → SafeFor b t.get
      → (capacity len : ℕ) → SafeDynamic (map_collect_by_meta col s t a b capacity len)
  unfolding map_collect_by_meta trusted_entries
  collect-SafeDynamic (static a x) (static b y) ha hb capacity len =
      elim (Bool-cases (leb (a + b) max_usize)) [
        | inl e ↦
            rw (checked_add-fits a b e, trusted_entries)
              (SafeStatic-dynamic (
                SafeStatic-trusted_seq len (a + b)
                  (insert_entries-SafeStatic a b ha hb len (col.with_capacity capacity))))
        | inr e ↦ rw (checked_add-overflows a b e, trusted_entries) (SafeDynamic-raise _)
      ]
  collect-SafeDynamic (static a x) dynamic ha hb capacity len =
      insert_entries-SafeDynamic (SafeStatic-dynamic ha) hb len (col.with_capacity capacity)
  collect-SafeDynamic dynamic b ha hb capacity len =
      insert_entries-SafeDynamic ha (SafeFor-SafeDynamic b hb) len (col.with_capacity capacity)

  module _ (c : Configuration) (pair_size : ℕ) where
    -- A map that its entries build again, which make a sequence within the limits.
    abbrev pub IsMap : C → Type 0
    IsMap map =
        AreEntries s t lawsK lawsV c (col.iter map)
        × (prealloc_check c c.length_encoding pair_size (length (col.iter map)) ≡ none)
        × PairFits s.read_meta t.read_meta
        × Rebuilds col map

    abbrev pub map_format : C → List ℕ
    map_format map = map_bytes s t lawsK lawsV c (col.iter map)

    module _ (cap_unique_keys : Bool) where
      map_read-Reads :
          (map : C)
          → IsMap map
          → Reads (seq_kv_read col s t c cap_unique_keys pair_size) (map_format map) map
      unfolding seq_kv_read
      map_read-Reads map ((all, fits, h), allowed, pair, rebuilds) =
          let len = length (col.iter map) in
          let small : length (all_bytes (col.iter map)) ≤ max_usize =
            omega (
              arith,
              length-append (len_bytes c c.length_encoding len) (all_bytes (col.iter map)),
            ) in
          Reads-bind
            (λ n.
              map_collect_by_meta col s t s.read_meta t.read_meta
                (seq_capacity cap_unique_keys s.mem_size n) n)
            (read_prealloc_check-Reads c c.length_encoding pair_size len fits allowed)
            (Reads-value (rebuilds (seq_capacity cap_unique_keys s.mem_size len))
              (collect-Reads s.read_meta t.read_meta _ refl refl pair (col.iter map) all small))

      map_read-SafeDynamic : SafeDynamic (seq_kv_read col s t c cap_unique_keys pair_size)
      unfolding seq_kv_read
      map_read-SafeDynamic =
          SafeDynamic-bind (read_prealloc_check-SafeDynamic c c.length_encoding pair_size)
            (λ n. collect-SafeDynamic s.read_meta t.read_meta lawsK.safe lawsV.safe _ n)

      -- Over keys and values that keep the schema laws, a map keeps them too, for every collection
      -- that its entries, inserted in the order of iteration, build again, whose number the length
      -- encoding can hold and the preallocation limit lets pass, whose encoding is within `usize`,
      -- and where two static sizes have a sum within `usize`: it writes the length and then each
      -- key with its value, announces that size, reads the map back on every reader, with the
      -- capacity capped or not, and is memory safe on every input.
      pub seq_kv_schema-Laws :
          (header_size : ℕ)
          → Laws (seq_kv_schema col s t c cap_unique_keys pair_size header_size) IsMap map_format
      unfolding seq_kv_schema
      seq_kv_schema-Laws header_size = record {
        writes = λ map h. map_write-Writes s t lawsK lawsV c pair_size (col.iter map) h.0 h.1;
        sizes = λ map h. map_size_of-length s t lawsK lawsV c (col.iter map) h.0;
        reads = map_read-Reads;
        safe = map_read-SafeDynamic;
        write_static = λ size z e. cc;
        read_static = λ size z e. cc;
        write_raw = λ size e. absurd cc;
        read_raw = λ size e. absurd cc;
      }
