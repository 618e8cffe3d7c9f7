-- ===== src/Impls/Times/Laws.antt =====
-- The laws of `SystemTime` of wincode/src/schema/impls.rs as a schema.
use wincode.Prelude.{ℕ, ◌≡◌, refl, Option, none, some, List, [], err}
use wincode.Error.{WriteError, before_epoch}
use wincode.Reader.Reads.{Reads, Reads-pure}
use wincode.Reader.Safe.{SafeStatic, SafeStatic-pure, SafeStatic-raise}
use wincode.Writer.{Writer}
use wincode.Config.{Configuration}
use wincode.Schema.Laws.{Laws}
use wincode.Schema.Derived.{SafeFor-check, Reads-check}
use wincode.Impls.Durations.{duration_schema}
use wincode.Impls.Durations.Laws.{IsDuration, duration_bytes, duration_schema-Laws}
use wincode.Impls.Times.{Clock, duration_of, time_size_of, time_write, time_from, time_schema}

module _ {Time : Type 0} (clock : Clock Time) (c : Configuration) where
  -- A time after the epoch, to which the duration since then leads back.
  abbrev pub IsTime : Time → Type 0
  IsTime t =
      (d : ℕ × ℕ) × (clock.duration_since t ≡ some d)
      × IsDuration c d
      × (clock.checked_add d ≡ some t)

  abbrev pub since_bytes : Option (ℕ × ℕ) → List ℕ
  since_bytes none = []
  since_bytes (some d) = duration_bytes c d

  abbrev pub time_bytes : Time → List ℕ
  time_bytes t = since_bytes (clock.duration_since t)

  abbrev laws : Laws (duration_of clock c 16) (IsDuration c) (duration_bytes c)
  laws = duration_schema-Laws c 16

  time_from-SafeStatic : (o : Option Time) → SafeStatic 0 (time_from clock c o)
  unfolding time_from
  time_from-SafeStatic none = SafeStatic-raise 0 _
  time_from-SafeStatic (some t) = SafeStatic-pure t

  time_from-Reads : (o : Option Time) (t : Time) → o ≡ some t → Reads (time_from clock c o) [] t
  unfolding time_from
  time_from-Reads o t e = rw e (Reads-pure t)

  pub time_schema-Laws :
      (size_in_memory : ℕ) → Laws (time_schema clock c size_in_memory) IsTime time_bytes
  unfolding time_schema time_size_of time_write duration_schema
  time_schema-Laws size_in_memory = record {
    writes = λ t h. let (d, e, v, back) = h in rw e (laws.writes d v);
    sizes = λ t h. let (d, e, v, back) = h in rw e (laws.sizes d v);
    reads = λ t h.
        let (d, e, v, back) = h in
        rw e (Reads-check _ (laws.reads d v) (time_from-Reads (clock.checked_add d) t back));
    safe =
        SafeFor-check (duration_schema c 16).read_meta _ _ laws.safe
          (λ d. time_from-SafeStatic (clock.checked_add d));
    write_static = λ size z w t h. let (d, e, v, back) = h in rw e (laws.write_static size z w d v);
    read_static = λ size z w t h. let (d, e, v, back) = h in rw e (laws.read_static size z w d v);
    write_raw = λ size w. let (f, p, q) = laws.write_raw size w in absurd cc;
    read_raw = λ size w. let (f, p, q, r) = laws.read_raw size w in absurd cc;
  }

  -- A time before the epoch is refused by `size_of` and, before anything is written, by `write`.
  pub time_write-before_epoch :
      (t : Time) (w : Writer) (size_in_memory : ℕ)
      → clock.duration_since t ≡ none
      → ((time_schema clock c size_in_memory).size_of t ≡ err (WriteError.custom before_epoch))
        × ((time_schema clock c size_in_memory).write t w ≡ err (WriteError.custom before_epoch))
  unfolding time_schema time_size_of time_write
  time_write-before_epoch t w size_in_memory e = (rw e refl, rw e refl)
