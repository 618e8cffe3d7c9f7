-- ===== src/Serde/Limits.antt =====
-- The entry points of wincode/src/config/serde.rs on arbitrary input: memory safety, the limit on the
-- bytes read, and what `deserialize_exact` accepts.
use wincode.Prelude.{
  ℕ, ◌-◌, ◌≤◌, ◌≡◌, refl, sym, ap, ap₂, ◌∙◌, min, Option, none, some, List, [], ◌∷◌, length,
  length-take, length-drop, drop, take_all, drop_all, take, bind, Outcome, ok, arith,
}
use wincode.Error.{ReadError}
use wincode.Reader.{Reader, Read, slice, limit}
use wincode.Reader.View.{view, IsChecked}
use wincode.Reader.Safe.{After, SafeDynamic}
use wincode.Config.{Configuration, deserialization_size_limit}
use wincode.Schema.{Schema}
use wincode.Schema.Laws.{Laws, SafeFor-SafeDynamic}
use wincode.Serde.{
  into_inner, limit_generic, no_trailing, exact_limited, exact_whole, exact, deserialize_from,
  deserialize_exact,
}
use wincode.Serde.RoundTrip.{Within, front, clamp-ok, slice_from-ok}

-- The bytes that a deserialization limit lets be read.
abbrev pub up_to : Option ℕ → List ℕ → List ℕ
up_to (some most) src = take most src
up_to none src = src

module _ {ℓ} {A : Type ℓ} where
  After-into_inner :
      (r : Reader) (most : ℕ) {p : Outcome ReadError A × Reader}
      → After (λ n. Unit) (limit r most) p
      → After (λ n. n ≤ most) r (into_inner p)
  After-into_inner r most (After.done a n h le) =
      After.done a n (omega (arith, length-take most (view r)))
        (omega (arith, length-take most (view r)))
  After-into_inner r most (After.failed e (limit inner remaining)) = After.failed e inner
  After-into_inner r most (After.failed e r') = After.failed e _

  no_trailing-ok :
      (value a : A) (rest : List ℕ) → no_trailing value rest ≡ ok a → (value ≡ a) × (rest ≡ [])
  unfolding no_trailing
  no_trailing-ok value a [] e = (cc, refl)
  no_trailing-ok value a (b ∷ rest) e = absurd cc

  module _ (m : Read A) (a : A) (src : List ℕ) where
    whole-consumed :
        {p : Outcome ReadError A × Reader}
        → After (λ n. Unit) (slice src) p
        → exact_whole p ≡ ok a
        → p ≡ (ok a, slice [])
    unfolding exact_whole
    whole-consumed (After.done v n h le) e =
        let (same, empty) = no_trailing-ok v a (drop n src) e in
        ap₂ (λ x l. (ok x, slice l)) same empty
    whole-consumed (After.failed x r') e = absurd cc

    limited-consumed :
        (most : ℕ) {p : Outcome ReadError A × Reader}
        → After (λ n. Unit) (slice (front most src)) p
        → exact_limited src (front most src) p ≡ ok a
        → (length src ≤ most) × (p ≡ (ok a, slice []))
    unfolding exact_limited
    limited-consumed most (After.done v n h le) e =
        let consumed = length (front most src) - length (drop n (front most src)) in
        let within : consumed ≤ length src =
          omega (arith, length-take (min most (length src)) src) in
        let (same, empty) = no_trailing-ok v a (drop consumed src) (
          ap (λ o. bind o (λ rest. no_trailing v rest)) (sym (slice_from-ok consumed src within))
          ∙ e) in
        let sizes : length src ≤ n = omega (
          arith,
          length-drop n (front most src),
          length-drop (length (front most src) - length (drop n (front most src))) src,
          ap (λ l. length l) empty,
        ) in
        (
          omega (arith, length-take (min most (length src)) src),
          ap₂ (λ x l. (ok x, slice l)) same
              (drop_all n (front most src)
                (omega (arith, length-take (min most (length src)) src))),
        )
    limited-consumed most (After.failed x r') e = absurd cc

    exact-consumes :
        SafeDynamic m
        → (o : Option ℕ) → exact o m src ≡ ok a
        → Within o (length src) × (m (slice src) ≡ (ok a, slice []))
    unfolding exact
    exact-consumes safe none e = (tt, whole-consumed (safe.at (slice src) tt) e)
    exact-consumes safe (some most) e =
        let (fits, all) = limited-consumed most (safe.at (slice (front most src)) tt) (
          ap (λ o. bind o (λ limited. exact_limited src limited (m (slice limited))))
            (sym (clamp-ok most src))
          ∙ e) in
        let same : front most src ≡ src = take_all (min most (length src)) src (omega arith) in
        (fits, ap (λ l. m (slice l)) (sym same) ∙ all)

module _ {ℓ} {A : Type ℓ} (c : Configuration) (s : Schema A) {Valid : A → Type 0}
    {bytes : A → List ℕ} (laws : Laws s Valid bytes) where
  get-SafeDynamic : SafeDynamic s.get
  get-SafeDynamic = SafeFor-SafeDynamic s.read_meta laws.safe

  -- For a schema that keeps its laws, on any checked reader and under a deserialization limit:
  -- `deserialize_from` ends with an error, or with a value after at most as many bytes as the limit
  -- allows, all of them within the reader's.
  pub deserialize_from-within :
      (most : ℕ) (r : Reader)
      → IsChecked r
      → deserialization_size_limit c ≡ some most
      → After (λ n. n ≤ most) r (deserialize_from c s r)
  unfolding deserialize_from limit_generic
  deserialize_from-within most r h e =
      rw e (After-into_inner r most (get-SafeDynamic.at (limit r most) h))

  -- For a schema that keeps its laws, on any input: if `deserialize_exact` returns a value, the
  -- input is within the deserialization limit, and reading it yields that value and leaves no byte
  -- over.
  pub deserialize_exact-consumes :
      (src : List ℕ) (a : A)
      → deserialize_exact c s src ≡ ok a
      → Within (deserialization_size_limit c) (length src) × (s.get (slice src) ≡ (ok a, slice []))
  unfolding deserialize_exact
  deserialize_exact-consumes src a e =
      exact-consumes s.get a src get-SafeDynamic (deserialization_size_limit c) e
