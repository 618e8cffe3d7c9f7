-- ===== src/Reader/Limit.antt =====
-- `LimitReader` of wincode/src/io/limit_reader.rs as a machine: whatever is called on it, in whatever
-- order, it hands out no more bytes than its limit.
use mathlib.Core.Path.{subst}
use wincode.Prelude.{
  ℕ, ◌+◌, ◌-◌, ◌≤◌, ◌<◌, ◌≡◌, refl, sym, ap, ◌∙◌, inl, inr, ◌⊎◌, List, length, length-take, Outcome,
  ok, err, fault, leb-cases, arith,
}
use wincode.Error.{ReadError, size_limit_read}
use wincode.Reader.{
  Reader, slice, slice_mut, slice_unchecked, slice_mut_unchecked, slice_scoped_unchecked, cursor,
  limit, Read, copy_slice, copy_slice_mut, copy_unchecked, copy_cursor, advance_slice_unchecked,
  limited, copy_into_slice, take_borrowed, take_borrowed_mut, as_trusted_for,
}
use wincode.Reader.View.{
  view, slice_fits, slice_short, cursor_fits, cursor_short, limit_fits, limit_short,
}

-- A call that asks for `n` bytes: copying and scoped borrowing, and the two kinds of borrowing from
-- the backing memory.
pub data Call : ℕ → Read (List ℕ) → Type 0 where
  copying : (n : ℕ) → Call n (copy_into_slice n)
  borrowing : (n : ℕ) → Call n (take_borrowed n)
  borrowing_mut : (n : ℕ) → Call n (take_borrowed_mut n)

-- One step of a client of the reader, with the number of bytes that it has been handed so far. A
-- trusted window counts whole, whatever code runs in it.
pub data Step : Reader → ℕ → Reader → ℕ → Type 1 where
  handed :
      {r r' : Reader} {total n : ℕ} {m : Read (List ℕ)} (bs : List ℕ)
      → Call n m
      → m r ≡ (ok bs, r')
      → Step r total r' (total + length bs)
  failed :
      {r r' : Reader} {total n : ℕ} {m : Read (List ℕ)} (e : ReadError)
      → Call n m
      → m r ≡ (err e, r')
      → Step r total r' total
  window :
      {r r' : Reader} {total : ℕ} {A : Type 0} (n : ℕ) (body : Read A) (a : A)
      → as_trusted_for n body r ≡ (ok a, r')
      → Step r total r' (total + n)
  closed :
      {r r' : Reader} {total : ℕ} {A : Type 0} (n : ℕ) (body : Read A) (e : ReadError)
      → as_trusted_for n body r ≡ (err e, r')
      → Step r total r' total

pub data Reach (start : Reader) : Reader → ℕ → Type 1 where
  here : Reach start start 0
  next : {r r' : Reader} {t t' : ℕ} → Reach start r t → Step r t r' t' → Reach start r' t'

-- An answer of `n` bytes, where there is one.
abbrev HasLength : ℕ → Outcome ReadError (List ℕ) → Type 0
HasLength n (ok bs) = length bs ≡ n
HasLength n (err e) = Unit
HasLength n fault = Unit

unchecked-length :
    (n : ℕ) (buf : List ℕ) (w : List ℕ → Reader) → HasLength n (copy_unchecked w n buf).0
unfolding copy_unchecked advance_slice_unchecked
unchecked-length n buf w = elim (leb-cases n (length buf)) [
  | inl (h, e) ↦ rw (e, copy_unchecked) (length-take n buf ∙ omega arith)
  | inr (h, e) ↦ rw (e, copy_unchecked) tt
]

limited-length :
    (n : ℕ) (answer : Outcome ReadError (List ℕ) × Reader) (inner : Reader) (remaining : ℕ)
    → HasLength n answer.0
    → HasLength n (limited n answer inner remaining).0
unfolding limited
limited-length n answer inner remaining h = elim (leb-cases n remaining) [
  | inl (le, _) ↦ rw (limit_fits n remaining le, limited) h
  | inr (gt, _) ↦ rw (limit_short n remaining gt, limited) tt
]

copy-length : (n : ℕ) (r : Reader) → HasLength n (copy_into_slice n r).0
unfolding copy_into_slice copy_slice copy_slice_mut copy_cursor
copy-length n (slice buf) = elim (leb-cases n (length buf)) [
  | inl (h, _) ↦ rw (slice_fits buf n h, copy_slice) (length-take n buf ∙ omega arith)
  | inr (h, _) ↦ rw (slice_short buf n h, copy_slice) tt
]
copy-length n (slice_mut buf) = elim (leb-cases n (length buf)) [
  | inl (h, _) ↦ rw (slice_fits buf n h, copy_slice_mut) (length-take n buf ∙ omega arith)
  | inr (h, _) ↦ rw (slice_short buf n h, copy_slice_mut) tt
]
copy-length n (slice_unchecked buf) = unchecked-length n buf slice_unchecked
copy-length n (slice_mut_unchecked buf) = unchecked-length n buf slice_mut_unchecked
copy-length n (slice_scoped_unchecked buf) = unchecked-length n buf slice_scoped_unchecked
copy-length n (cursor buf pos) = elim (leb-cases n (length (view (cursor buf pos)))) [
  | inl (h, _) ↦
      rw (cursor_fits buf pos n h, copy_cursor)
        (length-take n (view (cursor buf pos)) ∙ omega arith)
  | inr (h, _) ↦ rw (cursor_short buf pos n h, copy_cursor) tt
]
copy-length n (limit inner remaining) =
    limited-length n (copy_into_slice n inner) inner remaining (copy-length n inner)

borrow-length : (n : ℕ) (r : Reader) → HasLength n (take_borrowed n r).0
unfolding take_borrowed
borrow-length n (slice buf) = copy-length n (slice buf)
borrow-length n (slice_mut buf) = copy-length n (slice_mut buf)
borrow-length n (slice_unchecked buf) = copy-length n (slice_unchecked buf)
borrow-length n (slice_mut_unchecked buf) = copy-length n (slice_mut_unchecked buf)
borrow-length n (slice_scoped_unchecked buf) = tt
borrow-length n (cursor buf pos) = tt
borrow-length n (limit inner remaining) =
    limited-length n (take_borrowed n inner) inner remaining (borrow-length n inner)

borrow_mut-length : (n : ℕ) (r : Reader) → HasLength n (take_borrowed_mut n r).0
unfolding take_borrowed_mut
borrow_mut-length n (slice buf) = tt
borrow_mut-length n (slice_mut buf) = copy-length n (slice_mut buf)
borrow_mut-length n (slice_unchecked buf) = tt
borrow_mut-length n (slice_mut_unchecked buf) = copy-length n (slice_mut_unchecked buf)
borrow_mut-length n (slice_scoped_unchecked buf) = tt
borrow_mut-length n (cursor buf pos) = tt
borrow_mut-length n (limit inner remaining) =
    limited-length n (take_borrowed_mut n inner) inner remaining (borrow_mut-length n inner)

Call-length : {n : ℕ} {m : Read (List ℕ)} → Call n m → (r : Reader) → HasLength n (m r).0
Call-length (copying n) r = copy-length n r
Call-length (borrowing n) r = borrow-length n r
Call-length (borrowing_mut n) r = borrow_mut-length n r

Call-limited :
    {n : ℕ} {m : Read (List ℕ)}
    → Call n m
    → (inner : Reader) (remaining : ℕ)
    → m (limit inner remaining) ≡ limited n (m inner) inner remaining
unfolding copy_into_slice take_borrowed take_borrowed_mut
Call-limited (copying n) inner remaining = refl
Call-limited (borrowing n) inner remaining = refl
Call-limited (borrowing_mut n) inner remaining = refl

-- How a method of `LimitReader` ends: with its reservation made, or refused and unchanged.
module _ {A : Type 0} (n : ℕ) (answer : Outcome ReadError A × Reader) (inner : Reader)
    (remaining : ℕ) where
  limited-cases :
      ((n ≤ remaining)
        × (limited n answer inner remaining ≡ (answer.0, limit answer.1 (remaining - n))))
      ⊎ ((remaining < n)
          × (limited n answer inner remaining ≡ (err (size_limit_read n), limit inner remaining)))
  unfolding limited
  limited-cases = elim (leb-cases n remaining) [
    | inl (le, _) ↦ inl (le, rw (limit_fits n remaining le, limited) refl)
    | inr (gt, _) ↦ inr (gt, rw (limit_short n remaining gt, limited) refl)
  ]

-- A `LimitReader` whose client has been handed no more than the limit less what remains.
abbrev pub IsWithin : ℕ → Reader → ℕ → Type 0
IsWithin bound r total =
    (inner : Reader) × (remaining : ℕ) × (r ≡ limit inner remaining) × (total + remaining ≤ bound)

module _ {A : Type 0} (bound total n : ℕ) (answer : Outcome ReadError A × Reader) (inner : Reader)
    (remaining : ℕ) (h : total + remaining ≤ bound) where
  ok_step :
      (a : A) (r' : Reader)
      → limited n answer inner remaining ≡ (ok a, r')
      → IsWithin bound r' (total + n) × (answer.0 ≡ ok a)
  ok_step a r' e = elim (limited-cases n answer inner remaining) [
    | inl (le, same) ↦ (
      (answer.1, remaining - n, sym (ap (λ p. p.1) e) ∙ ap (λ p. p.1) same, omega arith),
      sym (ap (λ p. p.0) same) ∙ ap (λ p. p.0) e,
    )
    | inr (gt, same) ↦
        let clash : err (size_limit_read n) ≡ ok a = sym (ap (λ p. p.0) same) ∙ ap (λ p. p.0) e in
        absurd cc
  ]

  any_step :
      (o : Outcome ReadError A) (r' : Reader)
      → limited n answer inner remaining ≡ (o, r')
      → IsWithin bound r' total
  any_step o r' e = elim (limited-cases n answer inner remaining) [
    | inl (le, same) ↦
        (answer.1, remaining - n, sym (ap (λ p. p.1) e) ∙ ap (λ p. p.1) same, omega arith)
    | inr (gt, same) ↦ (inner, remaining, sym (ap (λ p. p.1) e) ∙ ap (λ p. p.1) same, h)
  ]

Step-IsWithin :
    (bound : ℕ) {r r' : Reader} {t t' : ℕ}
    → Step r t r' t'
    → IsWithin bound r t
    → IsWithin bound r' t'
unfolding as_trusted_for
Step-IsWithin bound {r} {r'} {t} (handed {n = n} {m = m} bs call e) (inner, remaining, same, h) =
    let at : limited n (m inner) inner remaining ≡ (ok bs, r') =
      sym (Call-limited call inner remaining) ∙ ap m (sym same) ∙ e in
    let (within, answer) = ok_step bound t n (m inner) inner remaining h bs r' at in
    let long : length bs ≡ n = subst (HasLength n) answer (Call-length call inner) in
    subst (IsWithin bound r') (ap (λ k. t + k) (sym long)) within
Step-IsWithin bound {r} {r'} {t} (failed {n = n} {m = m} x call e) (inner, remaining, same, h) =
    any_step bound t n (m inner) inner remaining h (err x) r'
      (sym (Call-limited call inner remaining) ∙ ap m (sym same) ∙ e)
Step-IsWithin bound {r} {r'} {t} (window n body a e) (inner, remaining, same, h) =
    (ok_step bound t n (as_trusted_for n body inner) inner remaining h a r'
      (ap (as_trusted_for n body) (sym same) ∙ e)).0
Step-IsWithin bound {r} {r'} {t} (closed n body x e) (inner, remaining, same, h) =
    any_step bound t n (as_trusted_for n body inner) inner remaining h (err x) r'
      (ap (as_trusted_for n body) (sym same) ∙ e)

-- Starting from a `LimitReader`, after any sequence of calls that copy, borrow or open trusted
-- windows, with any answers, the reader is still a `LimitReader`, and the bytes handed out and what
-- remains of the limit come to at most the limit at the start.
pub Reach-IsWithin :
    (inner : Reader) (bound : ℕ) {r : Reader} {total : ℕ}
    → Reach (limit inner bound) r total
    → IsWithin bound r total
Reach-IsWithin inner bound here = (inner, bound, refl, omega arith)
Reach-IsWithin inner bound (next reach step) =
    Step-IsWithin bound step (Reach-IsWithin inner bound reach)
