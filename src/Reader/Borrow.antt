-- ===== src/Reader/Borrow.antt =====
-- Borrowing from the backing memory of the readers of wincode/src/io.
use wincode.Prelude.{ℕ, ◌≡◌, refl, ap, inl, inr, true, false, List, Outcome, IsErr, leb-cases}
use wincode.Error.{backing, backing_mut, ReadError}
use wincode.Reader.{
  Reader, slice, slice_mut, slice_unchecked, slice_mut_unchecked, slice_scoped_unchecked, cursor,
  limit, limited, copy_into_slice, supports_borrow, take_borrowed, take_borrowed_mut,
}
use wincode.Reader.View.{advance, limit_fits, limit_short}

-- A reader that announces the loan gives what copying would.
pub take_borrowed-copy :
    (n : ℕ) (r : Reader)
    → supports_borrow backing r ≡ true
    → take_borrowed n r ≡ copy_into_slice n r
unfolding take_borrowed copy_into_slice supports_borrow
take_borrowed-copy n (slice buf) h = refl
take_borrowed-copy n (slice_mut buf) h = refl
take_borrowed-copy n (slice_unchecked buf) h = refl
take_borrowed-copy n (slice_mut_unchecked buf) h = refl
take_borrowed-copy n (slice_scoped_unchecked buf) h = absurd cc
take_borrowed-copy n (cursor buf pos) h = absurd cc
take_borrowed-copy n (limit inner remaining) h =
    ap (λ a. limited n a inner remaining) (take_borrowed-copy n inner h)

limited-IsErr :
    (n : ℕ) (answer : Outcome ReadError (List ℕ) × Reader) (inner : Reader) (remaining : ℕ)
    → IsErr answer.0
    → IsErr (limited n answer inner remaining).0
unfolding limited
limited-IsErr n answer inner remaining h = elim (leb-cases n remaining) [
  | inl (le, _) ↦ rw (limit_fits n remaining le, limited) h
  | inr (gt, _) ↦ rw (limit_short n remaining gt, limited) (_, refl)
]

pub take_borrowed-refuses :
    (n : ℕ) (r : Reader) → supports_borrow backing r ≡ false → IsErr (take_borrowed n r).0
unfolding take_borrowed supports_borrow
take_borrowed-refuses n (slice buf) h = absurd cc
take_borrowed-refuses n (slice_mut buf) h = absurd cc
take_borrowed-refuses n (slice_unchecked buf) h = absurd cc
take_borrowed-refuses n (slice_mut_unchecked buf) h = absurd cc
take_borrowed-refuses n (slice_scoped_unchecked buf) h = (_, refl)
take_borrowed-refuses n (cursor buf pos) h = (_, refl)
take_borrowed-refuses n (limit inner remaining) h =
    limited-IsErr n (take_borrowed n inner) inner remaining (take_borrowed-refuses n inner h)

pub take_borrowed_mut-copy :
    (n : ℕ) (r : Reader)
    → supports_borrow backing_mut r ≡ true
    → take_borrowed_mut n r ≡ copy_into_slice n r
unfolding take_borrowed_mut copy_into_slice supports_borrow
take_borrowed_mut-copy n (slice buf) h = absurd cc
take_borrowed_mut-copy n (slice_mut buf) h = refl
take_borrowed_mut-copy n (slice_unchecked buf) h = absurd cc
take_borrowed_mut-copy n (slice_mut_unchecked buf) h = refl
take_borrowed_mut-copy n (slice_scoped_unchecked buf) h = absurd cc
take_borrowed_mut-copy n (cursor buf pos) h = absurd cc
take_borrowed_mut-copy n (limit inner remaining) h =
    ap (λ a. limited n a inner remaining) (take_borrowed_mut-copy n inner h)

pub take_borrowed_mut-refuses :
    (n : ℕ) (r : Reader) → supports_borrow backing_mut r ≡ false → IsErr (take_borrowed_mut n r).0
unfolding take_borrowed_mut supports_borrow
take_borrowed_mut-refuses n (slice buf) h = (_, refl)
take_borrowed_mut-refuses n (slice_mut buf) h = absurd cc
take_borrowed_mut-refuses n (slice_unchecked buf) h = (_, refl)
take_borrowed_mut-refuses n (slice_mut_unchecked buf) h = absurd cc
take_borrowed_mut-refuses n (slice_scoped_unchecked buf) h = (_, refl)
take_borrowed_mut-refuses n (cursor buf pos) h = (_, refl)
take_borrowed_mut-refuses n (limit inner remaining) h =
    limited-IsErr n (take_borrowed_mut n inner) inner remaining
      (take_borrowed_mut-refuses n inner h)

-- Advancing does not change what a reader lends.
pub supports_borrow-advance :
    (n : ℕ) (r : Reader) → supports_borrow backing (advance n r) ≡ supports_borrow backing r
unfolding supports_borrow
supports_borrow-advance n (slice buf) = refl
supports_borrow-advance n (slice_mut buf) = refl
supports_borrow-advance n (slice_unchecked buf) = refl
supports_borrow-advance n (slice_mut_unchecked buf) = refl
supports_borrow-advance n (slice_scoped_unchecked buf) = refl
supports_borrow-advance n (cursor buf pos) = refl
supports_borrow-advance n (limit inner remaining) = supports_borrow-advance n inner

pub supports_borrow-slice : (buf : List ℕ) → supports_borrow backing (slice buf) ≡ true
unfolding supports_borrow
supports_borrow-slice buf = refl
