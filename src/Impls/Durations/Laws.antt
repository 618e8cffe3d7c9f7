-- ===== src/Impls/Durations/Laws.antt =====
-- The laws of `Duration` of wincode/src/schema/impls.rs as a schema.
use wincode.Prelude.{
  ℕ, ◌+◌, ◌-◌, ◌/◌, ◌%◌, ◌^◌, ◌<◌, ◌≡◌, refl, sym, ap, ap₂, ◌∙◌, Bool, true, false, List, ◌++◌,
  append-nil, length, length-append, ok, wrapping_add, wrapping_add-fits, [], le→leb, arith,
}
use wincode.Reader.{Read, ◌>>=◌}
use wincode.Reader.Reads.{Reads, Reads-pure, Reads-bind, Reads-cast, Reads-value}
use wincode.Reader.Safe.{
  SafeStatic, SafeDynamic, SafeStatic-bind, SafeStatic-pure, SafeStatic-raise, SafeStatic-if,
  SafeStatic-cast, SafeStatic-dynamic, SafeDynamic-bind,
}
use wincode.Writer.Writes.{Writes, Writes-seq}
use wincode.IntEncoding.{u32, u64}
use wincode.IntEncoding.Format.{size_of-length, size_of-small}
use wincode.TypeMeta.{TypeMeta, static, dynamic}
use wincode.Config.{Configuration, wide}
use wincode.Ints.{int_meta, int_read}
use wincode.Ints.Laws.{
  bytes_of, int_write-Writes, int_size_of-length, int_read-Reads, int_read-SafeDynamic,
}
use wincode.Schema.Laws.{Laws, SafeFor}
use wincode.Impls.Scalars.Laws.{int_length, int_safe}
use wincode.Impls.Durations.{
  nanos_per_sec, duration_new, check_duration, duration_meta, duration_size_by_meta, duration_write,
  duration_schema,
}

duration_meta-static :
    (a b : TypeMeta) (size : ℕ) (z : Bool)
    → duration_meta a b ≡ static size z
    → (k n : ℕ) × (x y : Bool) × (a ≡ static k x) × (b ≡ static n y) × (k + n ≡ size) × (z ≡ false)
unfolding duration_meta
duration_meta-static (static k x) (static n y) size z e = (k, n, x, y, refl, refl, cc, cc)
duration_meta-static (static k x) dynamic size z e = absurd cc
duration_meta-static dynamic b size z e = absurd cc

check-SafeStatic : (secs nanos : ℕ) → SafeStatic 0 (check_duration secs nanos)
unfolding check_duration
check-SafeStatic secs nanos = SafeStatic-if _ (SafeStatic-pure _) (SafeStatic-raise 0 _)

check-Reads :
    (secs nanos : ℕ)
    → secs < 2 ^ 64
    → nanos < nanos_per_sec
    → Reads (check_duration secs nanos) [] (secs, nanos)
unfolding check_duration duration_new
check-Reads secs nanos h k =
    let whole : nanos / nanos_per_sec ≡ 0 = omega arith in
    let rest : nanos % nanos_per_sec ≡ nanos = omega arith in
    rw (le→leb (secs + nanos / nanos_per_sec) (2 ^ 64 - 1) (omega arith))
      (Reads-value (ap₂ (λ x y. (x, y)) (rw whole (omega arith)) rest) (Reads-pure _))

module _ (c : Configuration) where
  abbrev pub duration_bytes : ℕ × ℕ → List ℕ
  duration_bytes (secs, nanos) = bytes_of c (wide u64) secs ++ bytes_of c (wide u32) nanos

  abbrev pub IsDuration : ℕ × ℕ → Type 0
  IsDuration (secs, nanos) = (secs < 2 ^ 64) × (nanos < nanos_per_sec)

  duration_sum :
      (secs nanos : ℕ)
      → IsDuration (secs, nanos)
      → wrapping_add (length (bytes_of c (wide u64) secs)) (length (bytes_of c (wide u32) nanos))
        ≡ length (duration_bytes (secs, nanos))
  duration_sum secs nanos (h, k) =
      wrapping_add-fits _ _ (
        omega (
          arith,
          size_of-length c.int_encoding c.byte_order u64 secs (omega arith),
          size_of-length c.int_encoding c.byte_order u32 nanos (omega arith),
          size_of-small c.int_encoding u64 secs,
          size_of-small c.int_encoding u32 nanos,
        ))
      ∙ sym (length-append (bytes_of c (wide u64) secs) (bytes_of c (wide u32) nanos))

  duration_length :
      (size : ℕ) (z : Bool)
      → duration_meta (int_meta c (wide u64)) (int_meta c (wide u32)) ≡ static size z
      → (d : ℕ × ℕ) → length (duration_bytes d) ≡ size
  duration_length size z e (secs, nanos) =
      let (k, n, x, y, p, q, sum, _) =
        duration_meta-static (int_meta c (wide u64)) (int_meta c (wide u32)) size z e in
      omega (
        arith,
        length-append (bytes_of c (wide u64) secs) (bytes_of c (wide u32) nanos),
        int_length c (wide u64) k x p secs,
        int_length c (wide u32) n y q nanos,
      )

  duration_size-length :
      (t : TypeMeta)
      → duration_meta (int_meta c (wide u64)) (int_meta c (wide u32)) ≡ t
      → (d : ℕ × ℕ) → IsDuration d
      → duration_size_by_meta c t d ≡ ok (length (duration_bytes d))
  unfolding duration_size_by_meta
  duration_size-length (static size z) e d h = ap ok (sym (duration_length size z e d))
  duration_size-length dynamic e (secs, nanos) (h, k) =
      rw (int_size_of-length c (wide u64) secs (omega arith)) (
        rw (int_size_of-length c (wide u32) nanos (omega arith))
          (ap ok (duration_sum secs nanos (h, k))))

  duration_write-Writes :
      (d : ℕ × ℕ) → IsDuration d → Writes (duration_write c d) (duration_bytes d)
  unfolding duration_write
  duration_write-Writes (secs, nanos) (h, k) =
      Writes-seq (int_write-Writes c (wide u64) secs (omega arith))
        (int_write-Writes c (wide u32) nanos (omega arith))

  abbrev duration_get : Read (ℕ × ℕ)
  duration_get = do
    secs ← int_read c (wide u64)
    nanos ← int_read c (wide u32)
    check_duration secs nanos

  duration_get-Reads : (d : ℕ × ℕ) → IsDuration d → Reads duration_get (duration_bytes d) d
  duration_get-Reads (secs, nanos) (h, k) =
      Reads-bind _ (int_read-Reads c (wide u64) secs (omega arith)) (
        Reads-cast (append-nil _) (
          Reads-bind (check_duration secs) (int_read-Reads c (wide u32) nanos (omega arith))
            (check-Reads secs nanos h k)))

  duration-SafeFor :
      (a b : TypeMeta)
      → SafeFor a (int_read c (wide u64))
      → SafeFor b (int_read c (wide u32))
      → SafeDynamic duration_get
      → SafeFor (duration_meta a b) duration_get
  unfolding duration_meta
  duration-SafeFor (static k x) (static n y) ha hb any = SafeStatic-bind ha (λ secs.
      SafeStatic-cast {j = n + 0} (omega arith) (SafeStatic-bind hb (check-SafeStatic secs)))
  duration-SafeFor (static k x) dynamic ha hb any = any
  duration-SafeFor dynamic b ha hb any = any

  duration_get-SafeDynamic : SafeDynamic duration_get
  duration_get-SafeDynamic = SafeDynamic-bind (int_read-SafeDynamic c (wide u64)) (λ secs.
      SafeDynamic-bind (int_read-SafeDynamic c (wide u32))
        (λ nanos. SafeStatic-dynamic (check-SafeStatic secs nanos)))

  never_raw :
      (size : ℕ)
      → duration_meta (int_meta c (wide u64)) (int_meta c (wide u32)) ≡ static size true
      → ⊥
  never_raw size e =
      let (k, n, x, y, p, q, sum, flag) =
        duration_meta-static (int_meta c (wide u64)) (int_meta c (wide u32)) size true e in
      cc

  pub duration_schema-Laws :
      (size_in_memory : ℕ) → Laws (duration_schema c size_in_memory) IsDuration duration_bytes
  unfolding duration_schema
  duration_schema-Laws size_in_memory = record {
    writes = duration_write-Writes;
    sizes =
        duration_size-length (duration_meta (int_meta c (wide u64)) (int_meta c (wide u32))) refl;
    reads = duration_get-Reads;
    safe =
        duration-SafeFor (int_meta c (wide u64)) (int_meta c (wide u32)) (int_safe c (wide u64))
          (int_safe c (wide u32)) duration_get-SafeDynamic;
    write_static = λ size z e d h. duration_length size z e d;
    read_static = λ size z e d h. duration_length size z e d;
    write_raw = λ size e. absurd (never_raw size e);
    read_raw = λ size e. absurd (never_raw size e);
  }
