-- ===== src/Reader/Safe.antt =====
-- Memory safety of code over the readers of wincode/src/io: on no input does it come to undefined
-- behaviour, and a success has advanced the reader within its bytes.
use mathlib.Core.Path.{subst}
use wincode.Prelude.{
  Bool, true, false, if◌then◌else◌, max_usize, checked_mul-fits, checked_mul-overflows, leb→le, ℕ,
  ◌+◌, ◌-◌, ◌*◌, ◌≤◌, ◌<◌, ◌≡◌, refl, sym, ap, ◌⊎◌, inl, inr, List, length, length-take, take,
  Outcome, ok, err, leb, leb-cases, Bool-cases, arith,
}
use wincode.Error.{ReadError}
use wincode.Reader.{
  Reader, slice, slice_mut, slice_unchecked, slice_mut_unchecked, slice_scoped_unchecked, cursor,
  limit, Read, pure, raise, continue, ◌>>=◌, copy_into_slice, take_byte, limited, as_trusted_for,
  as_trusted_for_seq,
}
use wincode.Reader.View.{
  view, advance, IsChecked, IsChecked-advance, length-view-advance, advance-zero, advance-advance,
  copy-in_bounds, copy-out_of_bounds, slice_fits, slice_short, cursor_fits, cursor_short,
  limit_fits, limit_short,
}

-- How a call on `r` ended: with an error, or with a value after `n` of the bytes, with `P n`.
-- Undefined behaviour is no end.
pub data After {ℓ} {A : Type ℓ} (P : ℕ → Type 0) (r : Reader)
    : Outcome ReadError A × Reader → Type ℓ where
  done : (a : A) (n : ℕ) → P n → n ≤ length (view r) → After P r (ok a, advance n r)
  failed : (e : ReadError) (r' : Reader) → After P r (err e, r')

-- A read of a statically sized type takes `k` bytes. It may run in a trusted window that holds them.
pub record SafeStatic {ℓ} {A : Type ℓ} (k : ℕ) (m : Read A) : Type ℓ where
  pub at : (r : Reader) → IsChecked r ⊎ (k ≤ length (view r)) → After (λ n. n ≡ k) r (m r)

-- A read of any other type runs on a checked reader.
pub record SafeDynamic {ℓ} {A : Type ℓ} (m : Read A) : Type ℓ where
  pub at : (r : Reader) → IsChecked r → After (λ n. Unit) r (m r)

module _ {ℓ} {A : Type ℓ} {P : ℕ → Type 0} {r : Reader} where
  After-ok :
      (a : A) (n : ℕ) {r' : Reader}
      → r' ≡ advance n r
      → P n
      → n ≤ length (view r)
      → After P r (ok a, r')
  After-ok a n e p h = subst (λ x. After P r (ok a, x)) (sym e) (done a n p h)

  After-shift :
      {Q : ℕ → Type 0} (n : ℕ) {p : Outcome ReadError A × Reader}
      → n ≤ length (view r)
      → ((k : ℕ) → Q k → P (n + k))
      → After Q (advance n r) p
      → After P r p
  After-shift n h step (done a k q le) =
      After-ok a (n + k) (advance-advance n k r) (step k q) (omega (arith, length-view-advance n r))
  After-shift n h step (failed e r') = failed e r'

  pub After-weaken :
      {Q : ℕ → Type 0} {p : Outcome ReadError A × Reader}
      → ((k : ℕ) → Q k → P k)
      → After Q r p
      → After P r p
  After-weaken step (done a k q le) = done a k (step k q) le
  After-weaken step (failed e r') = failed e r'

module _ {ℓ κ} {A : Type ℓ} {B : Type κ} {P Q R : ℕ → Type 0} {r : Reader} (f : A → Read B) where
  After-continue :
      {p : Outcome ReadError A × Reader}
      → ((n k : ℕ) → P n → Q k → R (n + k))
      → After P r p
      → ((a : A) (n : ℕ) → P n → n ≤ length (view r) → After Q (advance n r) (f a (advance n r)))
      → After R r (continue p.0 f p.1)
  After-continue join (done a n p h) rest = After-shift n h (λ k q. join n k p q) (rest a n p h)
  After-continue join (failed e r') rest = failed e r'

module _ {ℓ} {A : Type ℓ} where
  pub SafeStatic-pure : (a : A) → SafeStatic 0 (pure a)
  SafeStatic-pure a = record { at = λ r h. After-ok a 0 (sym (advance-zero r)) refl (omega arith) }

  pub SafeStatic-raise : (k : ℕ) (e : ReadError) → SafeStatic k (raise {A = A} e)
  SafeStatic-raise k e = record { at = λ r h. failed e r }

  pub SafeDynamic-raise : (e : ReadError) → SafeDynamic (raise {A = A} e)
  SafeDynamic-raise e = record { at = λ r h. failed e r }

  pub SafeDynamic-pure : (a : A) → SafeDynamic (pure a)
  SafeDynamic-pure a = record { at = λ r h. After-ok a 0 (sym (advance-zero r)) tt (omega arith) }

  pub SafeStatic-dynamic : {k : ℕ} {m : Read A} → SafeStatic k m → SafeDynamic m
  SafeStatic-dynamic s = record { at = λ r h. After-weaken (λ _ _. tt) (s.at r (inl h)) }

  pub SafeDynamic-if :
      (b : Bool) {m n : Read A} → SafeDynamic m → SafeDynamic n → SafeDynamic (if b then m else n)
  SafeDynamic-if true hm hn = hm
  SafeDynamic-if false hm hn = hn

  -- Each branch may use the outcome of the test.
  pub SafeDynamic-test :
      (b : Bool) {m n : Read A}
      → (b ≡ true → SafeDynamic m)
      → (b ≡ false → SafeDynamic n)
      → SafeDynamic (if b then m else n)
  SafeDynamic-test true hm hn = hm refl
  SafeDynamic-test false hm hn = hn refl

  pub SafeStatic-if :
      (b : Bool) {k : ℕ} {m n : Read A}
      → SafeStatic k m
      → SafeStatic k n
      → SafeStatic k (if b then m else n)
  SafeStatic-if true hm hn = hm
  SafeStatic-if false hm hn = hn

  pub SafeStatic-cast : {j k : ℕ} {m : Read A} → j ≡ k → SafeStatic j m → SafeStatic k m
  SafeStatic-cast {m} e s = subst (λ n. SafeStatic n m) e s

module _ where
  after-fits :
      (j k n : ℕ) (r : Reader)
      → IsChecked r ⊎ (j + k ≤ length (view r))
      → n ≡ j
      → IsChecked (advance n r) ⊎ (k ≤ length (view (advance n r)))
  after-fits j k n r (inl c) e = inl (IsChecked-advance n r c)
  after-fits j k n r (inr h) e = inr (omega (arith, length-view-advance n r))

  fits-left :
      (j k : ℕ) (r : Reader)
      → IsChecked r ⊎ (j + k ≤ length (view r))
      → IsChecked r ⊎ (j ≤ length (view r))
  fits-left j k r (inl c) = inl c
  fits-left j k r (inr h) = inr (omega arith)

module _ {ℓ κ} {A : Type ℓ} {B : Type κ} where
  pub SafeStatic-bind :
      {j k : ℕ} {m : Read A} {f : A → Read B}
      → SafeStatic j m
      → ((a : A) → SafeStatic k (f a))
      → SafeStatic (j + k) (m >>= f)
  SafeStatic-bind {j} {k} {m} {f} hm hf = record {
    at = λ r h.
        After-continue {P = λ n. n ≡ j} {Q = λ n. n ≡ k} {R = λ n. n ≡ j + k} f
          (λ n i p q. omega arith) (hm.at r (fits-left j k r h))
          (λ a n p le. (hf a).at (advance n r) (after-fits j k n r h p));
  }

  pub SafeDynamic-bind :
      {m : Read A} {f : A → Read B}
      → SafeDynamic m
      → ((a : A) → SafeDynamic (f a))
      → SafeDynamic (m >>= f)
  SafeDynamic-bind {m} {f} hm hf = record {
    at = λ r h.
        After-continue {P = λ n. Unit} {Q = λ n. Unit} {R = λ n. Unit} f (λ n i p q. tt) (hm.at r h)
          (λ a n p le. (hf a).at (advance n r) (IsChecked-advance n r h));
  }

module _ {ℓ} {A : Type ℓ} {P : ℕ → Type 0} where
  After-err :
      (r : Reader) (p : Outcome ReadError A × Reader) (e : ReadError) → p.0 ≡ err e → After P r p
  After-err r p e h = subst (λ o. After P r (o, p.1)) (sym h) (failed e p.1)

pub SafeStatic-copy : (n : ℕ) → SafeStatic n (copy_into_slice n)
SafeStatic-copy n = record {
  at = λ r h. elim (leb-cases n (length (view r))) [
    | inl (fits, _) ↦ rw (copy-in_bounds n r fits) (done (take n (view r)) n refl fits)
    | inr (short, _) ↦ refused r h short
  ];
}
  where
    refused :
        (r : Reader)
        → IsChecked r ⊎ (n ≤ length (view r))
        → length (view r) < n
        → After (λ k. k ≡ n) r (copy_into_slice n r)
    refused r (inl c) short = After-err r _ _ (copy-out_of_bounds n r c short)
    refused r (inr fits) short = absurd (omega arith)

pub SafeStatic-byte : SafeStatic 1 take_byte
unfolding take_byte
SafeStatic-byte = SafeStatic-bind {k = 0} (SafeStatic-copy 1) (λ bs. SafeStatic-pure _)

module _ {ℓ} {A : Type ℓ} where
  After-window :
      (k : ℕ) (r w : Reader) {p : Outcome ReadError A × Reader}
      → k ≤ length (view r)
      → After (λ n. n ≡ k) w p
      → After (λ n. n ≡ k) r (p.0, advance k r)
  After-window k r w h (done a n e le) = done a k refl h
  After-window k r w h (failed e r') = failed e (advance k r)

  After-limit :
      (k remaining : ℕ) (inner : Reader) {p : Outcome ReadError A × Reader}
      → k ≤ remaining
      → After (λ n. n ≡ k) inner p
      → After (λ n. n ≡ k) (limit inner remaining) (p.0, limit p.1 (remaining - k))
  After-limit k remaining inner h (done a n e le) =
      After-ok a n (ap (λ i. limit (advance n inner) (remaining - i)) (sym e)) e
        (omega (arith, length-take remaining (view inner)))
  After-limit k remaining inner h (failed e r') = failed e (limit r' (remaining - k))

module _ {ℓ} {A : Type ℓ} {k : ℕ} {m : Read A} (safe : SafeStatic k m) where
  length-window : (buf : List ℕ) → k ≤ length buf → k ≤ length (take k buf)
  length-window buf h = omega (arith, length-take k buf)

  inner-fits :
      (inner : Reader) (remaining : ℕ)
      → IsChecked inner ⊎ (k ≤ length (take remaining (view inner)))
      → IsChecked inner ⊎ (k ≤ length (view inner))
  inner-fits inner remaining (inl c) = inl c
  inner-fits inner remaining (inr h) = inr (omega (arith, length-take remaining (view inner)))

  trusted-safe :
      (r : Reader)
      → IsChecked r ⊎ (k ≤ length (view r))
      → After (λ n. n ≡ k) r (as_trusted_for k m r)
  unfolding as_trusted_for limited
  trusted-safe (slice buf) h = elim (leb-cases k (length buf)) [
    | inl (fits, _) ↦
        rw (slice_fits buf k fits, as_trusted_for)
          (After-window k (slice buf) _ fits (safe.at _ (inr (length-window buf fits))))
    | inr (short, _) ↦ rw (slice_short buf k short, as_trusted_for) (failed _ _)
  ]
  trusted-safe (slice_mut buf) h = elim (leb-cases k (length buf)) [
    | inl (fits, _) ↦
        rw (slice_fits buf k fits, as_trusted_for)
          (After-window k (slice_mut buf) _ fits (safe.at _ (inr (length-window buf fits))))
    | inr (short, _) ↦ rw (slice_short buf k short, as_trusted_for) (failed _ _)
  ]
  trusted-safe (cursor buf pos) h = elim (leb-cases k (length (view (cursor buf pos)))) [
    | inl (fits, _) ↦
        rw (cursor_fits buf pos k fits, as_trusted_for)
          (After-window k (cursor buf pos) _ fits (safe.at _ (inr (length-window _ fits))))
    | inr (short, _) ↦ rw (cursor_short buf pos k short, as_trusted_for) (failed _ _)
  ]
  trusted-safe (limit inner remaining) h = elim (leb-cases k remaining) [
    | inl (fits, _) ↦
        rw (limit_fits k remaining fits, limited)
          (After-limit k remaining inner fits (trusted-safe inner (inner-fits inner remaining h)))
    | inr (short, _) ↦ rw (limit_short k remaining short, limited) (failed _ _)
  ]
  trusted-safe (slice_unchecked buf) h = safe.at (slice_unchecked buf) h
  trusted-safe (slice_mut_unchecked buf) h = safe.at (slice_mut_unchecked buf) h
  trusted-safe (slice_scoped_unchecked buf) h = safe.at (slice_scoped_unchecked buf) h

  -- Code that is safe and takes exactly `k` bytes stays so when it runs in the window of
  -- `as_trusted_for(k)`: on a checked reader, or in a window that holds `k` bytes, it ends with an
  -- error or with a value after exactly `k` bytes within bounds, never in undefined behaviour.
  pub SafeStatic-trusted : SafeStatic k (as_trusted_for k m)
  SafeStatic-trusted = record { at = trusted-safe }

module _ {ℓ} {A : Type ℓ} (len size : ℕ) {m : Read A} (safe : SafeStatic (len * size) m) where
  pub SafeStatic-trusted_seq : SafeStatic (len * size) (as_trusted_for_seq len size m)
  unfolding as_trusted_for_seq
  SafeStatic-trusted_seq = record {
    at = λ r h. elim (Bool-cases (leb (len * size) max_usize)) [
      | inl e ↦
          rw (checked_mul-fits len size (leb→le _ _ e), as_trusted_for_seq) (trusted-safe safe r h)
      | inr e ↦ rw (checked_mul-overflows len size e, as_trusted_for_seq) (failed _ _)
    ];
  }
