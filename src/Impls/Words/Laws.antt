-- ===== src/Impls/Words/Laws.antt =====
-- The laws of `usize` of wincode/src/schema/impls.rs as a schema.
use wincode.Prelude.{ℕ, ◌^◌, ◌<◌, [], le→leb, max_usize, arith}
use wincode.Reader.Reads.{Reads, Reads-pure}
use wincode.Reader.Safe.{SafeStatic, SafeStatic-if, SafeStatic-pure, SafeStatic-raise}
use wincode.IntEncoding.{u64}
use wincode.Config.{Configuration, wide}
use wincode.Ints.{int_meta}
use wincode.Ints.Laws.{bytes_of}
use wincode.SeqLen.{to_usize}
use wincode.Schema.Laws.{Laws}
use wincode.Schema.Derived.{SafeFor-check, Reads-check}
use wincode.Impls.Scalars.{int_schema}
use wincode.Impls.Scalars.Laws.{int_schema-Laws}
use wincode.Impls.Words.{usize_schema}

to_usize-SafeStatic : (n : ℕ) → SafeStatic 0 (to_usize n)
unfolding to_usize
to_usize-SafeStatic n = SafeStatic-if _ (SafeStatic-pure n) (SafeStatic-raise 0 _)

to_usize-Reads : (n : ℕ) → n < 2 ^ 64 → Reads (to_usize n) [] n
unfolding to_usize
to_usize-Reads n h = rw (le→leb n max_usize (omega arith), to_usize) (Reads-pure n)

module _ (c : Configuration) where
  abbrev u64_laws : Laws (int_schema c (wide u64)) (λ v. v < 256 ^ 8) (bytes_of c (wide u64))
  u64_laws = int_schema-Laws c (wide u64)

  pub usize_schema-Laws : Laws (usize_schema c) (λ v. v < 2 ^ 64) (bytes_of c (wide u64))
  unfolding usize_schema int_schema
  usize_schema-Laws = record {
    writes = λ v h. u64_laws.writes v (omega arith);
    sizes = λ v h. u64_laws.sizes v (omega arith);
    reads = λ v h. Reads-check to_usize (u64_laws.reads v (omega arith)) (to_usize-Reads v h);
    safe = SafeFor-check (int_meta c (wide u64)) _ _ u64_laws.safe to_usize-SafeStatic;
    write_static = λ size z e v h. u64_laws.write_static size z e v (omega arith);
    read_static = λ size z e v h. u64_laws.read_static size z e v (omega arith);
    write_raw =
        λ size e. let (f, p, q) = u64_laws.write_raw size e in (f, p, λ v h. q v (omega arith));
    read_raw = λ size e.
        let (f, p, q, r) = u64_laws.read_raw size e in (f, p, q, λ v h. r v (omega arith));
  }
