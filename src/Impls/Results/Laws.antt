-- ===== src/Impls/Results/Laws.antt =====
-- The laws of `Result<T, E>` of wincode/src/schema/impls.rs as a schema.
use wincode.Prelude.{
  ℕ, ◌+◌, ◌≤◌, ◌==◌, ◌≡◌, refl, sym, ap, ◌∙◌, Bool, true, false, ◌⊎◌, inl, inr, List, ◌++◌, length,
  length-append, ok, max_usize, wrapping_add-fits, if◌then◌else◌, wrapping_add, arith,
}
use wincode.Reader.{Read, ◌>>=◌}
use wincode.Reader.Reads.{Reads, Reads-bind, Reads-map}
use wincode.Reader.Safe.{
  SafeStatic, SafeDynamic, SafeStatic-bind, SafeStatic-pure, SafeStatic-raise, SafeStatic-if,
  SafeStatic-cast, SafeDynamic-bind, SafeDynamic-pure, SafeDynamic-raise, SafeDynamic-if,
}
use wincode.Writer.Writes.{Writes, Writes-seq}
use wincode.TypeMeta.{TypeMeta, static, dynamic}
use wincode.Config.{Configuration}
use wincode.Ints.{int_meta}
use wincode.Ints.Laws.{bytes_of}
use wincode.TagEncoding.{read_tag}
use wincode.TagEncoding.Laws.{
  IsTag, few_variants, write_from_u32-Writes, size_of_from_u32-length, read_tag-Reads,
  read_tag-SafeFor,
}
use wincode.Schema.{Schema}
use wincode.Schema.Laws.{Laws, SafeFor, SafeFor-SafeDynamic}
use wincode.Impls.Scalars.Laws.{int_length, int_safe}
use wincode.Impls.Results.{
  result_meta, result_from_disc, result_size_of, result_write, result_schema,
}

static_if :
    (b : Bool) (m size : ℕ) (z : Bool)
    → (if b then static m false else dynamic) ≡ static size z
    → (b ≡ true) × (m ≡ size) × (z ≡ false)
static_if true m size z e = (refl, cc, cc)
static_if false m size z e = absurd cc

equal_sizes : (k j : ℕ) → (k == j) ≡ true → j ≡ k
equal_sizes k j h = ground arith

-- A static result has a static discriminant and two sides of one size.
result_meta-static :
    (a b d : TypeMeta) (size : ℕ) (z : Bool)
    → result_meta a b d ≡ static size z
    → (k n : ℕ) × (x y w : Bool) × (a ≡ static k x)
      × (b ≡ static k y)
      × (d ≡ static n w)
      × (n + k ≡ size)
      × (z ≡ false)
unfolding result_meta
result_meta-static (static k x) (static j y) (static n w) size z e =
    let (equal, sum, no_copy) = static_if (k == j) (n + k) size z e in
    (k, n, x, y, w, refl, ap (λ m. static m y) (equal_sizes k j equal), refl, sum, no_copy)
result_meta-static (static k x) (static j y) dynamic size z e = absurd cc
result_meta-static (static k x) dynamic d size z e = absurd cc
result_meta-static dynamic b d size z e = absurd cc

module _ {ℓ κ} {A : Type ℓ} {B : Type κ} (c : Configuration) (s : Schema A) (t : Schema B)
    {ValidA : A → Type 0} {bytesA : A → List ℕ} {ValidB : B → Type 0} {bytesB : B → List ℕ}
    (lawsA : Laws s ValidA bytesA) (lawsB : Laws t ValidB bytesB) where
  abbrev tag_bytes : ℕ → List ℕ
  tag_bytes v = bytes_of c c.tag_encoding v

  abbrev pub result_bytes : A ⊎ B → List ℕ
  result_bytes (inl v) = tag_bytes 0 ++ bytesA v
  result_bytes (inr e) = tag_bytes 1 ++ bytesB e

  abbrev pub IsResult : A ⊎ B → Type 0
  IsResult (inl v) = ValidA v × (length (result_bytes (inl v)) ≤ max_usize)
  IsResult (inr e) = ValidB e × (length (result_bytes (inr e)) ≤ max_usize)

  zero-IsTag : IsTag c.tag_encoding 0
  zero-IsTag = few_variants c 0 (omega arith)

  one-IsTag : IsTag c.tag_encoding 1
  one-IsTag = few_variants c 1 (omega arith)

  result_write-Writes : (r : A ⊎ B) → IsResult r → Writes (result_write c s t r) (result_bytes r)
  unfolding result_write
  result_write-Writes (inl v) (h, _) =
      Writes-seq (write_from_u32-Writes c 0 zero-IsTag) (lawsA.writes v h)
  result_write-Writes (inr e) (h, _) =
      Writes-seq (write_from_u32-Writes c 1 one-IsTag) (lawsB.writes e h)

  sum_fits :
      (xs ys : List ℕ)
      → length (xs ++ ys) ≤ max_usize
      → wrapping_add (length xs) (length ys) ≡ length (xs ++ ys)
  sum_fits xs ys h =
      let e : length (xs ++ ys) ≡ length xs + length ys = length-append xs ys in
      wrapping_add-fits (length xs) (length ys) (omega arith) ∙ sym e

  result_size_of-length :
      (r : A ⊎ B) → IsResult r → result_size_of c s t r ≡ ok (length (result_bytes r))
  unfolding result_size_of
  result_size_of-length (inl v) (h, k) =
      rw (size_of_from_u32-length c 0 zero-IsTag)
        (rw (lawsA.sizes v h) (ap ok (sum_fits (tag_bytes 0) (bytesA v) k)))
  result_size_of-length (inr e) (h, k) =
      rw (size_of_from_u32-length c 1 one-IsTag)
        (rw (lawsB.sizes e h) (ap ok (sum_fits (tag_bytes 1) (bytesB e) k)))

  result_read-Reads :
      (r : A ⊎ B) → IsResult r → Reads (read_tag c >>= result_from_disc c s t) (result_bytes r) r
  unfolding result_from_disc
  result_read-Reads (inl v) (h, _) =
      Reads-bind (result_from_disc c s t) (read_tag-Reads c 0 zero-IsTag)
        (Reads-map inl (lawsA.reads v h))
  result_read-Reads (inr e) (h, _) =
      Reads-bind (result_from_disc c s t) (read_tag-Reads c 1 one-IsTag)
        (Reads-map inr (lawsB.reads e h))

  result_length :
      (a b : TypeMeta) (size : ℕ) (z : Bool)
      → result_meta a b (int_meta c c.tag_encoding) ≡ static size z
      → ((k : ℕ) (x : Bool) → a ≡ static k x → (v : A) → ValidA v → length (bytesA v) ≡ k)
      → ((k : ℕ) (x : Bool) → b ≡ static k x → (v : B) → ValidB v → length (bytesB v) ≡ k)
      → (r : A ⊎ B) → IsResult r
      → length (result_bytes r) ≡ size
  result_length a b size z e fixedA fixedB (inl v) (h, _) =
      let (k, n, x, y, w, isA, isB, isD, sum, _) =
        result_meta-static a b (int_meta c c.tag_encoding) size z e in
      omega (
        arith,
        length-append (tag_bytes 0) (bytesA v),
        int_length c c.tag_encoding n w isD 0,
        fixedA k x isA v h,
      )
  result_length a b size z e fixedA fixedB (inr v) (h, _) =
      let (k, n, x, y, w, isA, isB, isD, sum, _) =
        result_meta-static a b (int_meta c c.tag_encoding) size z e in
      omega (
        arith,
        length-append (tag_bytes 1) (bytesB v),
        int_length c c.tag_encoding n w isD 1,
        fixedB k y isB v h,
      )

  from_disc-SafeStatic :
      (k : ℕ)
      → SafeStatic k s.get
      → SafeStatic k t.get
      → (disc : ℕ) → SafeStatic k (result_from_disc c s t disc)
  unfolding result_from_disc
  from_disc-SafeStatic k hs ht disc =
      SafeStatic-if _
        (SafeStatic-cast {j = k + 0} (omega arith) (SafeStatic-bind hs (λ v. SafeStatic-pure _)))
        (SafeStatic-if _
          (SafeStatic-cast {j = k + 0} (omega arith) (SafeStatic-bind ht (λ e. SafeStatic-pure _)))
          (SafeStatic-raise k _))

  from_disc-SafeDynamic :
      SafeDynamic s.get → SafeDynamic t.get → (disc : ℕ) → SafeDynamic (result_from_disc c s t disc)
  unfolding result_from_disc
  from_disc-SafeDynamic hs ht disc =
      SafeDynamic-if _ (SafeDynamic-bind hs (λ v. SafeDynamic-pure _))
        (SafeDynamic-if _ (SafeDynamic-bind ht (λ e. SafeDynamic-pure _)) (SafeDynamic-raise _))

  abbrev result_get : Read (A ⊎ B)
  result_get = read_tag c >>= result_from_disc c s t

  safe_if :
      (b : Bool) (m : ℕ)
      → (b ≡ true → SafeStatic m result_get)
      → SafeDynamic result_get
      → SafeFor (if b then static m false else dynamic) result_get
  safe_if true m hs hd = hs refl
  safe_if false m hs hd = hd

  result-SafeFor :
      (a b d : TypeMeta)
      → SafeFor a s.get
      → SafeFor b t.get
      → SafeFor d (read_tag c)
      → SafeDynamic result_get
      → SafeFor (result_meta a b d) result_get
  unfolding result_meta
  result-SafeFor (static k x) (static j y) (static n w) ha hb hd any =
      safe_if (k == j) (n + k)
        (λ e.
          SafeStatic-bind hd (from_disc-SafeStatic k ha (SafeStatic-cast (equal_sizes k j e) hb)))
        any
  result-SafeFor (static k x) (static j y) dynamic ha hb hd any = any
  result-SafeFor (static k x) dynamic d ha hb hd any = any
  result-SafeFor dynamic b d ha hb hd any = any

  tag_safe : SafeFor (int_meta c c.tag_encoding) (read_tag c)
  tag_safe = read_tag-SafeFor c (int_meta c c.tag_encoding) (int_safe c c.tag_encoding)

  get-SafeDynamic : SafeDynamic result_get
  get-SafeDynamic = SafeDynamic-bind (SafeFor-SafeDynamic (int_meta c c.tag_encoding) tag_safe) (
      from_disc-SafeDynamic (SafeFor-SafeDynamic s.read_meta lawsA.safe)
        (SafeFor-SafeDynamic t.read_meta lawsB.safe))

  no_raw :
      (a b : TypeMeta) (size : ℕ)
      → result_meta a b (int_meta c c.tag_encoding) ≡ static size true
      → ⊥
  no_raw a b size e =
      let (k, n, x, y, w, isA, isB, isD, sum, flag) =
        result_meta-static a b (int_meta c c.tag_encoding) size true e in
      cc

  -- Under every configuration, over two types that keep the schema laws, `Result<T, E>` keeps them
  -- too, for values whose encoding is within `usize`: the discriminant in the tag encoding and then
  -- the side, its announced size, reading back, memory safety, and a size that is static only where
  -- both sides have the same one.
  pub result_schema-Laws :
      (size_in_memory : ℕ) → Laws (result_schema c s t size_in_memory) IsResult result_bytes
  unfolding result_schema
  result_schema-Laws size_in_memory = record {
    writes = result_write-Writes;
    sizes = result_size_of-length;
    reads = result_read-Reads;
    safe = result-SafeFor s.read_meta t.read_meta _ lawsA.safe lawsB.safe tag_safe get-SafeDynamic;
    write_static = λ size z e r h.
        result_length s.write_meta t.write_meta size z e lawsA.write_static lawsB.write_static r h;
    read_static = λ size z e r h.
        result_length s.read_meta t.read_meta size z e lawsA.read_static lawsB.read_static r h;
    write_raw = λ size e. absurd (no_raw s.write_meta t.write_meta size e);
    read_raw = λ size e. absurd (no_raw s.read_meta t.read_meta size e);
  }
