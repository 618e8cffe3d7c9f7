-- ===== src/Containers/Guard/Laws.antt =====
-- `SliceDropGuard` of wincode/src/schema/containers.rs: no element is lost and none is dropped twice.
use wincode.Prelude.{
  ℕ, zero, suc, ◌≡◌, ◌≢◌, ◌⊎◌, inl, inr, take_all, refl, sym, ap, ◌∙◌, Bool, true, false, List, [],
  ◌∷◌, ◌++◌, append-nil, append_assoc, length, length-append, Outcome, ok, err, fault, some, le→leb,
  arith,
}
use wincode.Error.{ReadError}
use wincode.Reader.{Reader, pure, continue, ◌>>=◌}
use wincode.Schema.{Schema}
use wincode.Elements.{read_items}
use wincode.Containers.Guard.{
  SliceDropGuard, guard_new, fill_slot, inc_len, drop_guard, Decoded, unwind, guarded_items,
  guarded_decode,
}

module _ {ℓ} {A : Type ℓ} (s : Schema A) where
  -- The elements that `len` reads in a row would give, up to the first that fails.
  unfoldable pub elements_read : ℕ → Reader → List A
  elements_read zero r = []
  elements_read (suc len) r = elim (s.get r).0 [
    | ok v ↦ v ∷ elements_read len (s.get r).1
    | err e ↦ []
    | fault ↦ []
  ]

module _ {ℓ κ} {E : Type ℓ} {A : Type κ} where
  Outcome-cases :
      (o : Outcome E A) → ((a : A) × (o ≡ ok a)) ⊎ (((e : E) × (o ≡ err e)) ⊎ (o ≡ fault))
  Outcome-cases (ok a) = inl (a, refl)
  Outcome-cases (err e) = inr (inl (e, refl))
  Outcome-cases fault = inr (inr refl)

module _ {ℓ} {A : Type ℓ} where
  -- The elements that the caller gets.
  abbrev pub handed_over : Outcome ReadError (List A) → List A
  handed_over (ok vs) = vs
  handed_over (err e) = []
  handed_over fault = []

module _ {ℓ} {A : Type ℓ} (needs_drop : Bool) (s : Schema A) (len : ℕ) (g : SliceDropGuard A)
    (r : Reader) where
  step_ok :
      (v : A)
      → (s.get r).0 ≡ ok v
      → guarded_items needs_drop s (suc len) g r
        ≡ guarded_items needs_drop s len (inc_len needs_drop (fill_slot needs_drop v g)) (s.get r).1
  unfolding guarded_items
  step_ok v e = rw (e, guarded_items) refl

  step_err :
      (x : ReadError)
      → (s.get r).0 ≡ err x
      → guarded_items needs_drop s (suc len) g r ≡ unwind x (s.get r).1 (drop_guard needs_drop g)
  unfolding guarded_items
  step_err x e = rw (e, guarded_items) refl

  step_fault :
      (s.get r).0 ≡ fault
      → guarded_items needs_drop s (suc len) g r
        ≡ record { answer = fault; reader = (s.get r).1; dropped = [] }
  unfolding guarded_items
  step_fault e = rw (e, guarded_items) refl

  step_read :
      (v : A)
      → (s.get r).0 ≡ ok v
      → elements_read s (suc len) r ≡ v ∷ elements_read s len (s.get r).1
  unfolding elements_read
  step_read v e = rw (e, elements_read) refl

  step_none : (x : ReadError) → (s.get r).0 ≡ err x → elements_read s (suc len) r ≡ []
  unfolding elements_read
  step_none x e = rw (e, elements_read) refl

module _ {ℓ} {A : Type ℓ} where
  abbrev placed : Decoded A → List A
  placed d = handed_over d.answer ++ d.dropped

  -- A guard that drops counts exactly the slots that are filled.
  abbrev IsCounted : Bool → SliceDropGuard A → Type 0
  IsCounted true g = g.initialized_len ≡ length g.slots
  IsCounted false g = Unit

  inc_len-IsCounted :
      (needs_drop : Bool) (v : A) (g : SliceDropGuard A)
      → IsCounted needs_drop g
      → IsCounted needs_drop (inc_len needs_drop (fill_slot needs_drop v g))
  unfolding inc_len fill_slot
  inc_len-IsCounted true v g h = omega (arith, length-append g.slots (v ∷ []))
  inc_len-IsCounted false v g h = tt

  abbrev droppable : Bool → List A → List A
  droppable true vs = vs
  droppable false vs = []

  drop_guard-IsCounted :
      (needs_drop : Bool) (g : SliceDropGuard A)
      → IsCounted needs_drop g
      → drop_guard needs_drop g ≡ some (droppable needs_drop g.slots)
  unfolding drop_guard
  drop_guard-IsCounted true g h =
      rw (le→leb g.initialized_len (length g.slots) (omega arith), drop_guard)
        (ap some (take_all g.initialized_len g.slots (omega arith)))
  drop_guard-IsCounted false g h = refl

module _ {ℓ} {A : Type ℓ} (needs_drop : Bool) where
  slots_inc :
      (v : A) (g : SliceDropGuard A)
      → (inc_len needs_drop (fill_slot needs_drop v g)).slots ≡ g.slots ++ (v ∷ [])
  unfolding inc_len fill_slot
  slots_inc v g =
      elim needs_drop as (λ b. (inc_len b (fill_slot b v g)).slots ≡ g.slots ++ (v ∷ [])) [
        | true ↦ refl
        | false ↦ refl
      ]

module _ {ℓ} {A : Type ℓ} (s : Schema A) where
  -- `needs_drop` holds: what is handed over and what is dropped are what was read.
  items_conserved :
      (len : ℕ) (g : SliceDropGuard A) (r : Reader)
      → g.initialized_len ≡ length g.slots
      → (guarded_items true s len g r).answer ≢ fault
      → placed (guarded_items true s len g r) ≡ g.slots ++ elements_read s len r
  unfolding guarded_items elements_read fill_slot
  items_conserved zero g r h k = refl
  items_conserved (suc len) g r h k = elim (Outcome-cases (s.get r).0) [
    | inl (v, e) ↦
        let step = step_ok true s len g r v e in
        ap placed step
        ∙ items_conserved len (inc_len true (fill_slot true v g)) (s.get r).1
            (inc_len-IsCounted true v g h) (λ f. k (ap (λ d. d.answer) step ∙ f))
        ∙ ap (λ vs. vs ++ elements_read s len (s.get r).1) (slots_inc true v g)
        ∙ append_assoc g.slots (v ∷ []) (elements_read s len (s.get r).1)
        ∙ ap (λ vs. g.slots ++ vs) (sym (step_read true s len g r v e))
    | inr (inl (x, e)) ↦
        ap placed (step_err true s len g r x e)
        ∙ ap (λ o. placed (unwind x (s.get r).1 o)) (drop_guard-IsCounted true g h)
        ∙ sym (append-nil g.slots)
        ∙ ap (λ vs. g.slots ++ vs) (sym (step_none true s len g r x e))
    | inr (inr e) ↦ absurd (k (ap (λ d. d.answer) (step_fault true s len g r e)))
  ]

module _ {ℓ} {A : Type ℓ} where
  abbrev ending : Decoded A → Outcome ReadError (List A) × Reader
  ending d = (d.answer, d.reader)

  -- The answer of a loop whose first elements are already there.
  abbrev prepend :
      List A → Outcome ReadError (List A) × Reader → Outcome ReadError (List A) × Reader
  prepend vs p = continue p.0 (λ ws. pure (vs ++ ws)) p.1

  prepend-prepend :
      (us vs : List A) (p : Outcome ReadError (List A) × Reader)
      → prepend (us ++ vs) p ≡ prepend us (prepend vs p)
  prepend-prepend us vs (ok ws, r) = ap (λ l. (ok l, r)) (append_assoc us vs ws)
  prepend-prepend us vs (err e, r) = refl
  prepend-prepend us vs (fault, r) = refl

module _ {ℓ} {A : Type ℓ} (needs_drop : Bool) (s : Schema A) where
  items_read :
      (len : ℕ) (g : SliceDropGuard A) (r : Reader)
      → IsCounted needs_drop g
      → ending (guarded_items needs_drop s len g r) ≡ prepend g.slots (read_items s len r)
  unfolding guarded_items read_items
  items_read zero g r h = ap (λ l. (ok l, r)) (sym (append-nil g.slots))
  items_read (suc len) g r h = elim (Outcome-cases (s.get r).0) [
    | inl (v, e) ↦
        let g' = inc_len needs_drop (fill_slot needs_drop v g) in
        ap ending (step_ok needs_drop s len g r v e)
        ∙ items_read len g' (s.get r).1 (inc_len-IsCounted needs_drop v g h)
        ∙ ap (λ l. prepend l (read_items s len (s.get r).1)) (slots_inc needs_drop v g)
        ∙ prepend-prepend g.slots (v ∷ []) (read_items s len (s.get r).1)
        ∙ ap
            (λ o.
              prepend g.slots
                (continue o (λ x. read_items s len >>= λ vs. pure (x ∷ vs)) (s.get r).1))
            (sym e)
    | inr (inl (x, e)) ↦
        ap ending (step_err needs_drop s len g r x e)
        ∙ ap (λ o. ending (unwind x (s.get r).1 o)) (drop_guard-IsCounted needs_drop g h)
        ∙ ap
            (λ o.
              prepend g.slots
                (continue o (λ x. read_items s len >>= λ vs. pure (x ∷ vs)) (s.get r).1))
            (sym e)
    | inr (inr e) ↦
        ap ending (step_fault needs_drop s len g r e)
        ∙ ap
            (λ o.
              prepend g.slots
                (continue o (λ x. read_items s len >>= λ vs. pure (x ∷ vs)) (s.get r).1))
            (sym e)
  ]

  -- The guard changes neither the answer of the loop nor where it leaves the reader.
  pub guarded_decode-read_items :
      (len : ℕ) (r : Reader)
      → ((guarded_decode needs_drop s len r).answer, (guarded_decode needs_drop s len r).reader)
        ≡ read_items s len r
  guarded_decode-read_items len r =
      items_read len (guard_new needs_drop) r (new-IsCounted needs_drop)
      ∙ prepend_nil (read_items s len r)
    where
      new-IsCounted : (b : Bool) → IsCounted b (guard_new {A = A} b)
      new-IsCounted true = refl
      new-IsCounted false = tt

      prepend_nil : (p : Outcome ReadError (List A) × Reader) → prepend [] p ≡ p
      prepend_nil (ok ws, q) = refl
      prepend_nil (err e, q) = refl
      prepend_nil (fault, q) = refl

module _ {ℓ} {A : Type ℓ} (s : Schema A) where
  -- For elements that need dropping, where the reads themselves stay clear of undefined behaviour:
  -- `decode_into_slice_t`'s loop answers as the reads in a row do, so that its drop guard never
  -- drops a slot that no read has filled; and what it hands over, followed by what the guard drops,
  -- are the elements that were read, each once and in order.
  pub guarded_decode-conserves :
      (len : ℕ) (r : Reader)
      → (read_items s len r).0 ≢ fault
      → ((guarded_decode true s len r).answer ≡ (read_items s len r).0)
        × (handed_over (guarded_decode true s len r).answer ++ (guarded_decode true s len r).dropped
            ≡ elements_read s len r)
  guarded_decode-conserves len r clear =
      let same = ap (λ p. p.0) (guarded_decode-read_items true s len r) in
      (same, items_conserved s len (guard_new true) r refl (λ f. clear (sym same ∙ f)))
