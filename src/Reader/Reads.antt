-- ===== src/Reader/Reads.antt =====
-- When code over a reader of wincode/src/io reads given bytes as a given value, on every reader.
use mathlib.Core.Path.{subst}
use wincode.Prelude.{
  ℕ, ◌+◌, ◌*◌, ◌≤◌, ◌≡◌, sym, ap, ◌∙◌, List, [], ◌∷◌, ◌++◌, append-nil, append_assoc, length,
  length-append, length-take, take-append-drop, take-append, drop-append, take, drop, ok,
  checked_mul-fits, max_usize, arith,
}
use wincode.Reader.{
  Reader, slice, slice_mut, slice_unchecked, slice_mut_unchecked, slice_scoped_unchecked, cursor,
  limit, Read, pure, ◌>>=◌, copy_into_slice, take_byte, limited, as_trusted_for, as_trusted_for_seq,
}
use wincode.Reader.View.{
  view, advance, view-advance, advance-zero, advance-advance, copy-in_bounds, slice_fits,
  cursor_fits, limit_fits,
}

-- `m` reads `bs` as `a` and takes those bytes, whatever the reader and whatever follows.
pub record Reads {ℓ} {A : Type ℓ} (m : Read A) (bs : List ℕ) (a : A) : Type ℓ where
  pub at : (r : Reader) (rest : List ℕ) → view r ≡ bs ++ rest → m r ≡ (ok a, advance (length bs) r)

view-rest :
    (r : Reader) (bs rest : List ℕ) → view r ≡ bs ++ rest → view (advance (length bs) r) ≡ rest
view-rest r bs rest h = view-advance (length bs) r ∙ ap (drop (length bs)) h ∙ drop-append bs rest

module _ {ℓ} {A : Type ℓ} where
  pub Reads-pure : (a : A) → Reads (pure a) [] a
  Reads-pure a = record { at = λ r rest h. ap (λ r'. (ok a, r')) (sym (advance-zero r)) }

module _ {ℓ κ} {A : Type ℓ} {B : Type κ} where
  pub Reads-bind :
      {m : Read A} (f : A → Read B) {bs cs : List ℕ} {a : A} {b : B}
      → Reads m bs a
      → Reads (f a) cs b
      → Reads (m >>= f) (bs ++ cs) b
  Reads-bind f {bs} {cs} {a} {b} hm hf = record {
    at = λ r rest h.
        let whole : view r ≡ bs ++ (cs ++ rest) = h ∙ append_assoc bs cs rest in
        rw (hm.at r (cs ++ rest) whole) (
          hf.at (advance (length bs) r) rest (view-rest r bs (cs ++ rest) whole)
          ∙ ap (λ r'. (ok b, r'))
              (advance-advance (length bs) (length cs) r
                ∙ ap (λ k. advance k r) (sym (length-append bs cs))));
  }

-- The last step of a block, which computes with what was read.
module _ {ℓ κ} {A : Type ℓ} {B : Type κ} where
  pub Reads-map :
      {m : Read A} (g : A → B) {bs : List ℕ} {a : A}
      → Reads m bs a
      → Reads (m >>= λ x. pure (g x)) bs (g a)
  Reads-map g hm = record { at = λ r rest h. rw (hm.at r rest h) }

pub Reads-copy : (bs : List ℕ) → Reads (copy_into_slice (length bs)) bs bs
Reads-copy bs = record {
  at = λ r rest h.
      let fits : length bs ≤ length (view r) = rw h (omega (arith, length-append bs rest)) in
      copy-in_bounds (length bs) r fits
      ∙ ap (λ l. (ok l, advance (length bs) r)) (ap (take (length bs)) h ∙ take-append bs rest);
}

pub Reads-byte : (b : ℕ) → Reads take_byte (b ∷ []) b
unfolding take_byte
Reads-byte b = Reads-map _ (Reads-copy (b ∷ []))

within_limit :
    (inner : Reader) (remaining : ℕ) (bs rest : List ℕ)
    → view (limit inner remaining) ≡ bs ++ rest
    → length bs ≤ remaining
within_limit inner remaining bs rest h =
    omega (arith, length-append bs rest, length-take remaining (view inner), ap (λ l. length l) h)

beyond_limit :
    (inner : Reader) (remaining : ℕ) (bs rest : List ℕ)
    → view (limit inner remaining) ≡ bs ++ rest
    → view inner ≡ bs ++ (rest ++ drop remaining (view inner))
beyond_limit inner remaining bs rest h =
    sym (take-append-drop remaining (view inner))
    ∙ ap (λ l. l ++ drop remaining (view inner)) h
    ∙ append_assoc bs rest (drop remaining (view inner))

module _ {ℓ} {A : Type ℓ} {m : Read A} {bs : List ℕ} {a : A} (reads : Reads m bs a) where
  window-reads : (r : Reader) → view r ≡ bs → (m r).0 ≡ ok a
  window-reads r e = ap (λ p. p.0) (reads.at r [] (e ∙ sym (append-nil bs)))

  trusted-at :
      (r : Reader) (rest : List ℕ)
      → view r ≡ bs ++ rest
      → as_trusted_for (length bs) m r ≡ (ok a, advance (length bs) r)
  unfolding as_trusted_for limited
  trusted-at (slice buf) rest h =
      rw (slice_fits buf (length bs) (rw h (omega (arith, length-append bs rest))), as_trusted_for)
        (ap (λ o. (o, slice (drop (length bs) buf))) (window-reads _ (rw h (take-append bs rest))))
  trusted-at (slice_mut buf) rest h =
      rw (slice_fits buf (length bs) (rw h (omega (arith, length-append bs rest))), as_trusted_for)
        (ap (λ o. (o, slice_mut (drop (length bs) buf)))
          (window-reads _ (rw h (take-append bs rest))))
  trusted-at (cursor buf pos) rest h =
      rw
        (
          cursor_fits buf pos (length bs) (rw h (omega (arith, length-append bs rest))),
          as_trusted_for,
        )
        (ap (λ o. (o, cursor buf (pos + length bs)))
          (window-reads _ (ap (take (length bs)) h ∙ take-append bs rest)))
  trusted-at (limit inner remaining) rest h = rw (
    limit_fits (length bs) remaining (within_limit inner remaining bs rest h),
    trusted-at inner (rest ++ drop remaining (view inner)) (beyond_limit inner remaining bs rest h),
    limited,
  )
  trusted-at (slice_unchecked buf) rest h = reads.at (slice_unchecked buf) rest h
  trusted-at (slice_mut_unchecked buf) rest h = reads.at (slice_mut_unchecked buf) rest h
  trusted-at (slice_scoped_unchecked buf) rest h = reads.at (slice_scoped_unchecked buf) rest h

  -- A trusted window of exactly the bytes that `m` reads changes nothing.
  pub Reads-trusted : Reads (as_trusted_for (length bs) m) bs a
  Reads-trusted = record { at = trusted-at }

  pub Reads-trusted_seq :
      (len size : ℕ)
      → len * size ≡ length bs
      → length bs ≤ max_usize
      → Reads (as_trusted_for_seq len size m) bs a
  unfolding as_trusted_for_seq
  Reads-trusted_seq len size e h = record {
    at = λ r rest v.
        rw (checked_mul-fits len size (rw e h), as_trusted_for_seq) (rw e (trusted-at r rest v));
  }

pub Reads-copy_length : (n : ℕ) (bs : List ℕ) → length bs ≡ n → Reads (copy_into_slice n) bs bs
Reads-copy_length n bs e = subst (λ k. Reads (copy_into_slice k) bs bs) e (Reads-copy bs)

module _ {ℓ} {A : Type ℓ} {m : Read A} {a : A} where
  pub Reads-cast : {bs cs : List ℕ} → bs ≡ cs → Reads m bs a → Reads m cs a
  Reads-cast e h = subst (λ l. Reads m l a) e h

  pub Reads-value : {bs : List ℕ} {b : A} → a ≡ b → Reads m bs a → Reads m bs b
  Reads-value {bs} e h = subst (λ v. Reads m bs v) e h
