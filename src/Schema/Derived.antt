-- ===== src/Schema/Derived.antt =====
-- Reads that check the value of another read, as many schemas of wincode/src/schema/impls.rs do.
use wincode.Prelude.{
  ℕ, ◌+◌, ◌≤◌, ◌≡◌, sym, ◌∙◌, List, [], ◌++◌, append-nil, length, length-append, max_usize,
  wrapping_add, wrapping_add-fits, arith,
}
use wincode.Reader.{Read, ◌>>=◌}
use wincode.Reader.Reads.{Reads, Reads-bind, Reads-cast}
use wincode.Reader.Safe.{
  SafeStatic, SafeStatic-bind, SafeStatic-cast, SafeStatic-dynamic, SafeDynamic-bind,
}
use wincode.TypeMeta.{TypeMeta, static, dynamic}
use wincode.Schema.Laws.{SafeFor}

module _ {ℓ κ} {A : Type ℓ} {B : Type κ} where
  -- A check takes no bytes, and keeps the safety of what it checks.
  pub SafeFor-check :
      (t : TypeMeta) (m : Read A) (f : A → Read B)
      → SafeFor t m
      → ((a : A) → SafeStatic 0 (f a))
      → SafeFor t (m >>= f)
  SafeFor-check (static size z) m f h hf =
      SafeStatic-cast {j = size + 0} (omega arith) (SafeStatic-bind h hf)
  SafeFor-check dynamic m f h hf = SafeDynamic-bind h (λ a. SafeStatic-dynamic (hf a))

  pub Reads-check :
      {m : Read A} (f : A → Read B) {bs : List ℕ} {a : A} {b : B}
      → Reads m bs a
      → Reads (f a) [] b
      → Reads (m >>= f) bs b
  Reads-check f hm hf = Reads-cast (append-nil _) (Reads-bind f hm hf)

-- The sum of two announced sizes, where the whole is within `usize`.
pub sum_fits :
    (xs ys : List ℕ)
    → length (xs ++ ys) ≤ max_usize
    → wrapping_add (length xs) (length ys) ≡ length (xs ++ ys)
sum_fits xs ys h =
    let e : length (xs ++ ys) ≡ length xs + length ys = length-append xs ys in
    wrapping_add-fits (length xs) (length ys) (omega arith) ∙ sym e
